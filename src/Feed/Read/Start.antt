-- ===== src/Feed/Read/Start.antt =====
-- internal/feed/feed.go: Page, from the cursor that it is given to the page that it returns. JSON is a
-- parameter as in Feed/Cursor; the logs that the polls see, until the wait is over, are given.
use meristem.Base.{
  ℕ, String, Bool, false, ◌&&◌, not, Option, List, [], ◌∷◌, ltb, ◌==◌, str_eq, if◌then◌else◌, any,
  is_empty,
}
use meristem.Base.Int.{pos}
use meristem.Feed.Cursor.{
  Envelope, Cursor, invalid_cursor, Decoded, ok, err, encode_cursor, encode_projection_cursor,
  decode_cursor_for_projection,
}
use meristem.Feed.Read.{Row, Page, last_seq, query_after}

module _ {ℓ} {A : Type ℓ} where
  -- cursorExists
  abbrev pub cursor_exists : List (Row A) → ℕ → Bool
  cursor_exists log seq = any (λ r. r.seq == seq) log

  -- COALESCE(MAX(seq), 0), on rows in the order of seq.
  abbrev pub head : List (Row A) → ℕ
  head log = last_seq 0 log

  abbrev pub issued : List (Row A) → Decoded Cursor → Decoded ℕ
  issued log (err e) = err e
  issued log (ok c) =
      if ltb 0 c.seq && not (cursor_exists log c.seq) then err invalid_cursor else ok c.seq

module _ (marshal : Envelope → List ℕ) (unmarshal : List ℕ → Option Envelope) where
  unfoldable pub encode_cursor_for : ℕ → String → ℕ → List ℕ
  encode_cursor_for seq projection version =
      if str_eq projection ""
      then encode_cursor (pos seq)
      else encode_projection_cursor marshal unmarshal seq projection version

  -- Where Page and ResolveStreamStartForProjection begin.
  unfoldable pub start_seq {ℓ} : {A : Type ℓ} → List (Row A) → List ℕ → String → ℕ → Decoded ℕ
  start_seq log cursor projection version =
      if is_empty cursor
      then ok (head log)
      else issued log (decode_cursor_for_projection marshal unmarshal cursor projection version)

module _ {ℓ} {A : Type ℓ} (queried matches : A → Bool) where
  abbrev pub later_seq : ℕ → ℕ → ℕ
  later_seq seq next = if ltb seq next then next else seq

  -- The loop of Page: a query at once, and one at each tick of the wait.
  unfoldable pub poll : List (Row A) → List (List (Row A)) → ℕ → ℕ → Page A
  poll log [] seq limit =
      let page = query_after queried matches log seq limit in
      if is_empty page.items
      then record { items = []; has_more = false; next_seq = later_seq seq page.next_seq }
      else page
  poll log (next ∷ rest) seq limit =
      let page = query_after queried matches log seq limit in
      let waited = poll next rest (later_seq seq page.next_seq) limit in
      if is_empty page.items then waited else page
