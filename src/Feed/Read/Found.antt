-- ===== src/Feed/Read/Found.antt =====
-- What the loop of queryAfter over the rows of a query finds.
use meristem.Base.{
  ℕ, ◌+◌, ◌≤◌, suc, Bool, true, false, List, [], ◌∷◌, ◌++◌, ltb, select, length, ◌≡◌, ◌⊎◌, inl, inr,
  refl, sym, ◌∙◌, ap, subst, arith, Bool-cases,
}
use meristem.Feed.Read.{Row, Scan, scan, keep, pass_over, last_seq}
use meristem.Feed.Read.Sorted.{length-append, append_assoc, append_nil}

module _ {ℓ} {A : Type ℓ} (matches : A → Bool) where
  abbrev pub visible : List (Row A) → List (Row A)
  visible rs = select (λ r. matches r.item) rs

  -- What a list of found rows becomes by reading some rows: one more than the limit of them, or all.
  abbrev pub Full : ℕ → List (Row A) → List (Row A) → List (Row A) → Type ℓ
  Full limit rs found found' =
      (zs ys : List (Row A)) × (visible rs ≡ zs ++ ys)
      × (found' ≡ found ++ zs)
      × (length found' ≡ suc limit)

  abbrev pub Scanned : ℕ → List (Row A) → Scan A → Scan A → Type ℓ
  Scanned limit rs st st' =
      Full limit rs st.found st'.found
      ⊎ ((st'.found ≡ st.found ++ visible rs)
          × (st'.scanned_seq ≡ last_seq st.scanned_seq rs)
          × (st'.scanned ≡ st.scanned + length rs)
          × (length st'.found ≤ limit))

module _ {ℓ} {A : Type ℓ} (queried matches : A → Bool) where
  matched :
      (limit : ℕ) (r : Row A) (rs : List (Row A)) (st st' : Scan A)
      → matches r.item ≡ true
      → Scanned matches limit rs (keep r st) st'
      → Scanned matches limit (r ∷ rs) st st'
  matched limit r rs st st' m (inl (zs, ys, v, f, l)) =
      inl (r ∷ zs, ys, rw m (ap (◌∷◌ r) v), f ∙ append_assoc st.found (r ∷ []) zs, l)
  matched limit r rs st st' m (inr (f, q, n, l)) = inr (
    f ∙ (append_assoc st.found (r ∷ []) (visible matches rs) ∙ rw m refl),
    q,
    omega (arith, n),
    l,
  )

  unmatched :
      (limit : ℕ) (r : Row A) (rs : List (Row A)) (st st' : Scan A)
      → matches r.item ≡ false
      → Scanned matches limit rs (pass_over r st) st'
      → Scanned matches limit (r ∷ rs) st st'
  unmatched limit r rs st st' m (inl (zs, ys, v, f, l)) = inl (zs, ys, rw m v, f, l)
  unmatched limit r rs st st' m (inr (f, q, n, l)) = inr (rw m f, q, omega (arith, n), l)

  module _ (limit : ℕ) (r : Row A) (rs : List (Row A)) (st : Scan A) where
    scan-pass :
        matches r.item ≡ false
        → scan queried matches limit (r ∷ rs) st ≡ scan queried matches limit rs (pass_over r st)
    unfolding scan
    scan-pass m = rw m refl

    scan-keep :
        matches r.item ≡ true
        → ltb limit (length (keep r st).found) ≡ false
        → scan queried matches limit (r ∷ rs) st ≡ scan queried matches limit rs (keep r st)
    unfolding scan
    scan-keep m e = rw (m, e) refl

    scan-full :
        matches r.item ≡ true
        → ltb limit (length (keep r st).found) ≡ true
        → scan queried matches limit (r ∷ rs) st ≡ keep r st
    unfolding scan
    scan-full m e = rw (m, e) refl

    full :
        length (st.found ++ r ∷ []) ≡ length st.found + 1
        → length st.found ≤ limit
        → ltb limit (length (st.found ++ r ∷ [])) ≡ true
        → matches r.item ≡ true
        → Scanned matches limit (r ∷ rs) st (keep r st)
    full n l e m = inl (r ∷ [], visible matches rs, rw m refl, refl, ground (arith, n, e, l))

  pub scanned :
      (limit : ℕ) (rs : List (Row A)) (st : Scan A)
      → length st.found ≤ limit
      → Scanned matches limit rs st (scan queried matches limit rs st)
  unfolding scan
  scanned limit [] st l = inr (sym (append_nil st.found), refl, omega arith, l)
  scanned limit (r ∷ rs) st l = elim (Bool-cases (matches r.item)) [
    | inr m ↦
        subst (Scanned matches limit (r ∷ rs) st) (sym (scan-pass limit r rs st m))
          (unmatched limit r rs st _ m (scanned limit rs (pass_over r st) l))
    | inl m ↦ elim (Bool-cases (ltb limit (length (keep r st).found))) [
      | inl e ↦
          subst (Scanned matches limit (r ∷ rs) st) (sym (scan-full limit r rs st m e))
            (full limit r rs st (length-append st.found (r ∷ [])) l e m)
      | inr e ↦
          subst (Scanned matches limit (r ∷ rs) st) (sym (scan-keep limit r rs st m e))
            (matched limit r rs st _ m (scanned limit rs (keep r st) (ground (arith, e))))
    ]
  ]
