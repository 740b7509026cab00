-- ===== src/Feed/Read.antt =====
-- internal/feed/feed.go: queryAfter, the read of one page, and the kinds that a projection's filter
-- queries (taxonomy.go). The rows of events are in the order of their seq.
pub mod Sorted
pub mod Found
pub mod Whole
pub mod Start
pub mod Resume
use meristem.Base.{
  ℕ, ◌+◌, ◌<◌, suc, zero, Bool, true, false, ◌&&◌, ◌||◌, not, Option, none, some, List, [], ◌∷◌,
  ◌++◌, ltb, leb, ◌==◌, if◌then◌else◌, select, length, any,
}

-- What a page needs of a row.
pub record Row {ℓ} (A : Type ℓ) : Type ℓ where
  pub seq : ℕ
  pub item : A

pub record Page {ℓ} (A : Type ℓ) : Type ℓ where
  pub items : List (Row A)
  pub has_more : Bool
  pub next_seq : ℕ

abbrev pub max_limit : ℕ
max_limit = 200

abbrev pub batch_limit : ℕ
batch_limit = max_limit + 1

abbrev pub clamp : ℕ → ℕ
clamp limit = if limit == 0 || ltb max_limit limit then 50 else limit

abbrev pub take {ℓ} : {A : Type ℓ} → ℕ → List A → List A
take zero xs = []
take (suc n) [] = []
take (suc n) (x ∷ xs) = x ∷ take n xs

-- The items so far, the seq scanned last, and how many rows were scanned.
pub record Scan {ℓ} (A : Type ℓ) : Type ℓ where
  pub found : List (Row A)
  pub scanned_seq : ℕ
  pub scanned : ℕ

module _ {ℓ} {A : Type ℓ} where
  abbrev pub keep : Row A → Scan A → Scan A
  keep r st = record { found = st.found ++ r ∷ []; scanned_seq = r.seq; scanned = suc st.scanned }

  abbrev pub pass_over : Row A → Scan A → Scan A
  pass_over r st = record { found = st.found; scanned_seq = r.seq; scanned = suc st.scanned }

  abbrev pub last_seq : ℕ → List (Row A) → ℕ
  last_seq seq [] = seq
  last_seq seq (r ∷ rs) = last_seq r.seq rs

  -- The page of the items found.
  abbrev pub page_of : ℕ → List (Row A) × ℕ → Page A
  page_of limit (found, scanned) =
      let items = if ltb limit (length found) then take limit found else found in
      record {
        items = items;
        has_more = ltb limit (length found);
        next_seq = if ltb limit (length found) then last_seq scanned items else scanned;
      }

module _ {ℓ} {A : Type ℓ} (queried matches : A → Bool) where
  -- WHERE kind = ANY (…) AND seq > $2 ORDER BY seq LIMIT $3
  unfoldable pub rows_after : List (Row A) → ℕ → List (Row A)
  rows_after log from = select (λ r. queried r.item && ltb from r.seq) log

  -- The loop over the rows of a query: it breaks at one item more than the limit.
  unfoldable pub scan : ℕ → List (Row A) → Scan A → Scan A
  scan limit [] st = st
  scan limit (r ∷ rs) st =
      let after_kept = scan limit rs (keep r st) in
      let after_passed = scan limit rs (pass_over r st) in
      if matches r.item
      then (if ltb limit (length (keep r st).found) then keep r st else after_kept)
      else after_passed

  -- The loop over the queries, for a number of them.
  unfoldable pub query : ℕ → List (Row A) → ℕ → List (Row A) → ℕ → List (Row A) × ℕ
  unfolding scan rows_after
  query zero log limit found from = (found, from)
  query (suc n) log limit found from =
      let st =
        scan limit (take batch_limit (rows_after log from))
          (record { found = found; scanned_seq = from; scanned = 0 }) in
      let rest = query n log limit st.found st.scanned_seq in
      if ltb limit (length st.found) || ltb st.scanned batch_limit
      then (st.found, st.scanned_seq)
      else rest

  -- queryAfter. Each query but the last scans rows, so there are at most one more than rows.
  unfoldable pub query_after : List (Row A) → ℕ → ℕ → Page A
  query_after log from limit = page_of limit (query (suc (length log)) log limit [] from)
