-- ===== src/Feed/Read/Whole.antt =====
-- Pages of internal/feed/feed.go cut the feed into pieces that leave nothing out.
use meristem.Base.{
  ℕ, ◌+◌, ◌<◌, ◌≤◌, suc, zero, Bool, true, false, ◌&&◌, ◌||◌, List, [], ◌∷◌, ◌++◌, ltb, select,
  length, ◌≡◌, ◌⊎◌, inl, inr, refl, sym, ◌∙◌, ap, subst, arith, Bool-cases,
}
use meristem.Feed.Read.{
  Row, Page, Scan, batch_limit, take, rows_after, scan, query, last_seq, page_of, query_after,
}
use meristem.Feed.Read.Sorted.{
  drop, take-drop, short, within, length-drop, length-append, append_assoc, select-append,
  take-append, Ordered, after, after_last,
}
use meristem.Feed.Read.Found.{visible, Full, scanned}

module _ {ℓ} {A : Type ℓ} (queried matches : A → Bool) where
  -- What the loop over the queries has found: one item more than the limit, or all of them, and
  -- then no row is left after the seq scanned last.
  abbrev Queried : List (Row A) → ℕ → List (Row A) → ℕ → List (Row A) × ℕ → Type ℓ
  Queried log limit found from (found', scanned_seq) =
      Full matches limit (after queried from log) found found'
      ⊎ ((found' ≡ found ++ visible matches (after queried from log))
          × (length found' ≤ limit)
          × (after queried scanned_seq log ≡ []))

  module _ (log : List (Row A)) (limit : ℕ) (found : List (Row A)) (from : ℕ) where
    abbrev queried_rows : List (Row A)
    queried_rows = after queried from log

    abbrev batch : List (Row A)
    batch = take batch_limit queried_rows

    abbrev start : Scan A
    start = record { found = found; scanned_seq = from; scanned = 0 }

    abbrev reached : Scan A
    reached = scan queried matches limit batch start

    split :
        visible matches queried_rows
        ≡ visible matches batch ++ visible matches (drop batch_limit queried_rows)
    split =
        ap (visible matches) (take-drop batch_limit queried_rows)
        ∙ select-append (λ (r : Row A). matches r.item) batch (drop batch_limit queried_rows)

    query-stop :
        (n : ℕ)
        → (ltb limit (length reached.found) || ltb reached.scanned batch_limit) ≡ true
        → query queried matches (suc n) log limit found from ≡ (reached.found, reached.scanned_seq)
    unfolding query rows_after
    query-stop n e = rw e refl

    query-next :
        (n : ℕ)
        → (ltb limit (length reached.found) || ltb reached.scanned batch_limit) ≡ false
        → query queried matches (suc n) log limit found from
          ≡ query queried matches n log limit reached.found reached.scanned_seq
    unfolding query rows_after
    query-next n e = rw e refl

    Full-batch :
        Full matches limit batch found reached.found
        → Queried log limit found from (reached.found, reached.scanned_seq)
    Full-batch (zs, ys, v, f, l) =
        let rest = visible matches (drop batch_limit queried_rows) in
        inl (zs, ys ++ rest, split ∙ (ap (λ xs. xs ++ rest) v ∙ append_assoc zs ys rest), f, l)

    module _ (b : ℕ) (sorted : Ordered b log)
        (found_all : reached.found ≡ found ++ visible matches batch)
        (seq_last : reached.scanned_seq ≡ last_seq from batch)
        (fits : length reached.found ≤ limit) where
      left : after queried reached.scanned_seq log ≡ drop batch_limit queried_rows
      left =
          ap (λ s. after queried s log) seq_last
          ∙ after_last queried from b log batch (drop batch_limit queried_rows) sorted
              (take-drop batch_limit queried_rows)

      last_batch :
          length batch < batch_limit
          → Queried log limit found from (reached.found, reached.scanned_seq)
      last_batch h =
          let (same, none_left) = short batch_limit queried_rows h in
          inr (found_all ∙ ap (λ xs. found ++ visible matches xs) same, fits, left ∙ none_left)

      next_batch :
          (end : List (Row A) × ℕ)
          → Queried log limit reached.found reached.scanned_seq end
          → Queried log limit found from end
      next_batch end (inl (zs, ys, v, f, l)) = inl (
        visible matches batch ++ zs,
        ys,
        split
            ∙ (ap (λ xs. visible matches batch ++ xs) (ap (visible matches) (sym left) ∙ v)
                ∙ sym (append_assoc (visible matches batch) zs ys)),
        f ∙ (ap (λ xs. xs ++ zs) found_all ∙ append_assoc found (visible matches batch) zs),
        l,
      )
      next_batch end (inr (f, l, e)) = inr (
        f
            ∙ (ap (λ xs. xs ++ visible matches (after queried reached.scanned_seq log)) found_all
                ∙ (append_assoc found (visible matches batch) _
                    ∙ ap (λ xs. found ++ xs)
                        (ap (λ xs. visible matches batch ++ visible matches xs) left ∙ sym split))),
        l,
        e,
      )

  fewer : (a d r n : ℕ) → a + d ≡ r → ltb a batch_limit ≡ false → r < suc n → d < n
  fewer a d r n h e l = ground arith

  goes_on :
      (limit f s a : ℕ)
      → f ≤ limit
      → s ≡ 0 + a
      → ltb a batch_limit ≡ false
      → (ltb limit f || ltb s batch_limit) ≡ false
  goes_on limit f s a l e h = ground arith

  stops :
      (limit f s a : ℕ)
      → s ≡ 0 + a
      → ltb a batch_limit ≡ true
      → (ltb limit f || ltb s batch_limit) ≡ true
  stops limit f s a e h = ground arith

  overflows : (limit f s : ℕ) → f ≡ suc limit → (ltb limit f || ltb s batch_limit) ≡ true
  overflows limit f s e = ground arith

  below : (a n : ℕ) → ltb a n ≡ true → a < n
  below a n h = ground arith

  query_finds :
      (n : ℕ) (log : List (Row A)) (limit : ℕ) (found : List (Row A)) (from b : ℕ)
      → Ordered b log
      → length found ≤ limit
      → length (after queried from log) < n
      → Queried log limit found from (query queried matches n log limit found from)
  query_finds zero log limit found from b o l h = absurd (omega arith)
  query_finds (suc n) log limit found from b o l h =
      elim (scanned queried matches limit (batch log limit found from) (start log limit found from)
        l) [
          | inl (zs, ys, v, f, k) ↦
              subst (Queried log limit found from)
                (sym (query-stop log limit found from n (overflows limit _ _ k)))
                (Full-batch log limit found from (zs, ys, v, f, k))
          | inr (f, q, k, m) ↦
              elim (Bool-cases (ltb (length (batch log limit found from)) batch_limit)) [
                | inl e ↦
                    subst (Queried log limit found from)
                      (sym (query-stop log limit found from n (stops limit _ _ _ k e)))
                      (last_batch log limit found from b o f q m (below _ _ e))
                | inr e ↦
                    let r = left log limit found from b o f q m in
                    let d = length-drop batch_limit (after queried from log) in
                    subst (Queried log limit found from)
                      (sym (query-next log limit found from n (goes_on limit _ _ _ m k e)))
                      (next_batch log limit found from b o f q m _ (
                        query_finds n log limit (reached log limit found from).found
                          (reached log limit found from).scanned_seq b o m
                          (subst (λ rs. length rs < n) (sym r) (fewer _ _ _ n d e h))))
              ]
        ]

  length-select : (p : Row A → Bool) (rs : List (Row A)) → length (select p rs) ≤ length rs
  length-select p [] = omega arith
  length-select p (r ∷ rs) = ground (arith, length-select p rs)

  abbrev pub shown : A → Bool
  shown x = queried x && matches x

  visible_after :
      (log : List (Row A)) (from : ℕ)
      → visible matches (after queried from log) ≡ after shown from log
  visible_after [] from = refl
  visible_after (r ∷ rs) from = ground (arith, visible_after rs from)

  last_seq_any : (a b : ℕ) (xs : List (Row A)) → 1 ≤ length xs → last_seq a xs ≡ last_seq b xs
  last_seq_any a b [] h = absurd (omega arith)
  last_seq_any a b (x ∷ xs) h = refl

  length-take : (n : ℕ) (xs : List (Row A)) → n ≤ length xs → length (take n xs) ≡ n
  length-take zero xs h = refl
  length-take (suc n) [] h = absurd (omega arith)
  length-take (suc n) (x ∷ xs) h = omega (arith, length-take n xs (omega arith))

  -- A page is the first items after the seq, and what is after its next seq is the rest of them.
  abbrev pub IsPage : List (Row A) → ℕ → ℕ → Page A → Type ℓ
  IsPage log from limit page =
      (page.items ≡ take limit (after shown from log))
      × (page.has_more ≡ ltb limit (length (after shown from log)))
      × (after shown page.next_seq log ≡ drop limit (after shown from log))

  module _ (log : List (Row A)) (b from limit : ℕ) (sorted : Ordered b log)
      (some_limit : 1 ≤ limit) where
    abbrev feed : List (Row A)
    feed = after shown from log

    more :
        (items zs ys : List (Row A)) (seq : ℕ)
        → feed ≡ zs ++ ys
        → items ≡ zs
        → length items ≡ suc limit
        → IsPage log from limit (page_of limit (items, seq))
    more items zs ys seq v f l =
        let k : ltb limit (length items) ≡ true = ground (arith, l) in
        let n = length-append zs ys in
        let m = ap length f in
        let t : take limit items ≡ take limit feed =
          ap (take limit) f
          ∙ (sym (take-append limit zs ys (omega (arith, m, l))) ∙ ap (take limit) (sym v)) in
        rw k (
          t,
          sym (ap (λ xs. ltb limit (length xs)) v ∙ ground (arith, n, m, l)),
          ap (λ s. after shown s log)
                (last_seq_any seq from (take limit items)
                    (omega (arith, length-take limit items (omega (arith, l)), some_limit))
                  ∙ ap (last_seq from) t)
              ∙ after_last shown from b log (take limit feed) (drop limit feed) sorted
                  (take-drop limit feed),
        )

    all_of :
        (items : List (Row A)) (seq : ℕ)
        → items ≡ feed
        → length items ≤ limit
        → after shown seq log ≡ []
        → IsPage log from limit (page_of limit (items, seq))
    all_of items seq f l e =
        let k : ltb limit (length items) ≡ false = ground (arith, l) in
        let (t, d) = within limit feed (subst (λ xs. length xs ≤ limit) f l) in
        rw k (f ∙ sym t, sym k ∙ ap (λ xs. ltb limit (length xs)) f, e ∙ sym d)

    read :
        (end : List (Row A) × ℕ)
        → Queried log limit [] from end
        → IsPage log from limit (page_of limit end)
    read (items, seq) (inl (zs, ys, v, f, l)) =
        more items zs ys seq (sym (visible_after log from) ∙ v) f l
    read (items, seq) (inr (f, l, e)) =
        all_of items seq (f ∙ visible_after log from) l
          (sym (visible_after log seq) ∙ ap (visible matches) e)

    -- A page of the feed, where the rows are in the order of their seq, is the first items after the
    -- seq of the cursor, up to the limit; it says that there are more exactly if there are; and what
    -- comes after its next seq is what it left out. So pages that are read one after the other show
    -- each item of the feed once, in order, however many rows the filter passes over.
    pub query_after-IsPage : IsPage log from limit (query_after queried matches log from limit)
    unfolding query_after
    query_after-IsPage = read (query queried matches (suc (length log)) log limit [] from) (
        query_finds (suc (length log)) log limit [] from b sorted (omega arith)
          (omega (arith, length-select (λ (r : Row A). queried r.item && ltb from r.seq) log)))
