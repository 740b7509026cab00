-- ===== src/Feed/Read/Resume.antt =====
-- The cursor of a page of internal/feed/feed.go is one that the next read accepts.
use meristem.Base.{
  ℕ, ◌<◌, ◌≤◌, suc, zero, Bool, true, false, ◌&&◌, not, Option, List, [], ◌∷◌, ◌++◌, ltb, ◌==◌,
  ==_iff, if◌then◌else◌, any-append, select, length, ◌≡◌, ◌⊎◌, inl, inr, refl, ◌∙◌, ap, arith,
  Bool-cases,
}
use meristem.Base.Int.{pos}
use meristem.Feed.Cursor.{Envelope, ok, int64_limit}
use meristem.Feed.Cursor.RoundTrip.{nonempty, decode_plain}
use meristem.Feed.Read.{
  Row, Scan, batch_limit, take, rows_after, scan, query, keep, pass_over, last_seq, page_of,
  query_after,
}
use meristem.Feed.Read.Sorted.{Ordered, after, drop}
use meristem.Feed.Read.Whole.{shown, query_after-IsPage}
use meristem.Feed.Read.Start.{cursor_exists, issued, encode_cursor_for, start_seq}

module _ {ℓ} {A : Type ℓ} where
  -- Zero, or the seq of a row.
  abbrev pub Issued : List (Row A) → ℕ → Type 0
  Issued log seq = (seq ≡ 0) ⊎ (cursor_exists log seq ≡ true)

  -- Every row of a list is in the log.
  abbrev Among : List (Row A) → List (Row A) → Type 0
  Among log [] = Unit {0}
  Among log (r ∷ rs) = (cursor_exists log r.seq ≡ true) × Among log rs

  last_Issued :
      (log : List (Row A)) (seq : ℕ) (rs : List (Row A))
      → Issued log seq
      → Among log rs
      → Issued log (last_seq seq rs)
  last_Issued log seq [] k a = k
  last_Issued log seq (r ∷ rs) k a = last_Issued log r.seq rs (inr a.0) a.1

  Among-take :
      (log : List (Row A)) (n : ℕ) (rs : List (Row A)) → Among log rs → Among log (take n rs)
  Among-take log zero rs a = tt
  Among-take log (suc n) [] a = tt
  Among-take log (suc n) (r ∷ rs) a = (a.0, Among-take log n rs a.1)

  Among-append : (log xs ys : List (Row A)) → Among log xs → Among log ys → Among log (xs ++ ys)
  Among-append log [] ys a b = b
  Among-append log (x ∷ xs) ys a b = (a.0, Among-append log xs ys a.1 b)

  Among-more : (r : Row A) (log rs : List (Row A)) → Among log rs → Among (r ∷ log) rs
  Among-more r log [] a = tt
  Among-more r log (x ∷ xs) a = (ground (arith, a.0), Among-more r log xs a.1)

  Among-self : (log : List (Row A)) → Among log log
  Among-self [] = tt
  Among-self (r ∷ log) =
      (ground (arith, (==_iff r.seq r.seq).1 refl), Among-more r log log (Among-self log))

  Among-select : (p : Row A → Bool) (log rs : List (Row A)) → Among log rs → Among log (select p rs)
  Among-select p log [] a = tt
  Among-select p log (r ∷ rs) a = elim (Bool-cases (p r)) [
    | inl e ↦ rw e (a.0, Among-select p log rs a.1)
    | inr e ↦ rw e (Among-select p log rs a.1)
  ]

  -- What a scan has read is in the log.
  abbrev Reads : List (Row A) → List (Row A) × ℕ → Type 0
  Reads log (found, seq) = Among log found × Issued log seq

module _ {ℓ} {A : Type ℓ} (queried matches : A → Bool) (log : List (Row A)) where
  abbrev of_scan : Scan A → List (Row A) × ℕ
  of_scan st = (st.found, st.scanned_seq)

  either :
      (P : List (Row A) × ℕ → Type 0) (b : Bool) (x y : List (Row A) × ℕ)
      → P x
      → P y
      → P (if b then x else y)
  either P true x y p q = p
  either P false x y p q = q

  scan-Reads :
      (limit : ℕ) (rs : List (Row A)) (st : Scan A)
      → Among log rs
      → Reads log (of_scan st)
      → Reads log (of_scan (scan queried matches limit rs st))
  unfolding scan
  scan-Reads limit [] st a k = k
  scan-Reads limit (r ∷ rs) st a k = elim (Bool-cases (matches r.item)) [
    | inr m ↦ rw m (scan-Reads limit rs (pass_over r st) a.1 (k.0, inr a.0))
    | inl m ↦ elim (Bool-cases (ltb limit (length (keep r st).found))) [
      | inl e ↦ rw (m, e) (Among-append log st.found (r ∷ []) k.0 (a.0, tt), inr a.0)
      | inr e ↦
          rw (m, e)
            (scan-Reads limit rs (keep r st) a.1
              (Among-append log st.found (r ∷ []) k.0 (a.0, tt), inr a.0))
    ]
  ]

  query-Reads :
      (n limit : ℕ) (found : List (Row A)) (from : ℕ)
      → Reads log (found, from)
      → Reads log (query queried matches n log limit found from)
  unfolding query rows_after
  query-Reads zero limit found from k = k
  query-Reads (suc n) limit found from k =
      let start : Scan A = record { found = found; scanned_seq = from; scanned = 0 } in
      let rows = Among-select (λ r. queried r.item && ltb from r.seq) log log (Among-self log) in
      let st =
        scan-Reads limit (take batch_limit (rows_after queried matches log from)) start
          (Among-take log batch_limit _ rows) k in
      either (Reads log) _ _ _ st (query-Reads n limit _ _ st)

  query_after-Issued :
      (limit from : ℕ)
      → Issued log from
      → Issued log (query_after queried matches log from limit).next_seq
  unfolding query_after
  query_after-Issued limit from k =
      page (query queried matches (suc (length log)) log limit [] from)
        (query-Reads (suc (length log)) limit [] from (tt, k))
    where
      page : (end : List (Row A) × ℕ) → Reads log end → Issued log (page_of limit end).next_seq
      page (found, seq) (a, i) = elim (Bool-cases (ltb limit (length found))) [
        | inl e ↦ rw e (last_Issued log seq (take limit found) i (Among-take log limit found a))
        | inr e ↦ rw e i
      ]

module _ {ℓ} {A : Type ℓ} (marshal : Envelope → List ℕ) (unmarshal : List ℕ → Option Envelope)
    (log later : List (Row A)) where
  Issued-later : (n : ℕ) → Issued log n → (ltb 0 n && not (cursor_exists (log ++ later) n)) ≡ false
  Issued-later n (inl e) = ground (arith, e)
  Issued-later n (inr e) = ground (arith, e, any-append (λ (r : Row A). r.seq == n) log later)

  start-Issued :
      (n v : ℕ)
      → Issued log n
      → n < int64_limit
      → start_seq marshal unmarshal (log ++ later) (encode_cursor_for marshal unmarshal n "" 0) "" v
        ≡ ok n
  unfolding start_seq encode_cursor_for
  start-Issued n v i l = rw (nonempty (pos n)) (
      ap (issued (log ++ later)) (decode_plain marshal unmarshal n v l)
      ∙ rw (Issued-later n i) refl)

  -- A read of the feed without a projection from zero or from the seq of a row gives a page whose
  -- cursor, while its seq fits an int64, the next read accepts, whatever rows were added in between,
  -- and resumes at; and what it shows from there of the rows that were there, in the order of their
  -- seq, is what the page left out.
  pub start_seq-query_after :
      (queried matches : A → Bool) (from limit b v : ℕ)
      → Issued log from
      → Ordered b log
      → 1 ≤ limit
      → (query_after queried matches log from limit).next_seq < int64_limit
      → let next = (query_after queried matches log from limit).next_seq in
        (start_seq marshal unmarshal
            (log ++ later)
            (encode_cursor_for marshal unmarshal next "" 0)
            ""
            v
          ≡ ok next)
        × (after (shown queried matches) next log
            ≡ drop limit (after (shown queried matches) from log))
  start_seq-query_after queried matches from limit b v i o one l =
      let (t, m, rest) = query_after-IsPage queried matches log b from limit o one in
      (
        start-Issued (query_after queried matches log from limit).next_seq v
            (query_after-Issued queried matches log limit from i) l,
        rest,
      )
