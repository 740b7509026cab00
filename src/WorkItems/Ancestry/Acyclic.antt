-- ===== src/WorkItems/Ancestry/Acyclic.antt =====
-- Adding a relation whose child is no ancestor of its parent keeps the graph without cycles.
use meristem.Base.{
  true, ◌&&◌, [], ◌∷◌, ◌++◌, ◌≡◌, ◌≢◌, ◌⊎◌, inl, inr, sym, ◌==◌, arith, any-append, Bool-cases,
  subst, ◌∙◌,
}
use meristem.Domain.{Uuid}
use meristem.WorkItems.Projectors.{has_relation}
use meristem.WorkItems.Ancestry.{Relations, Ancestor, parent, above}

abbrev pub IsAcyclic : Relations → Type 0
IsAcyclic rel = (x : Uuid) → ¬ Ancestor rel x x

append_above :
    {rel : Relations} {a b c : Uuid} → Ancestor rel a b → Ancestor rel b c → Ancestor rel a c
append_above (parent r) k = above r k
append_above (above r h) k = above r (append_above h k)

module _ (rel : Relations) (p c : Uuid) where
  abbrev pub added : Relations
  added = rel ++ (p, c) ∷ []

  pub added_cases :
      (a x : Uuid)
      → has_relation added a x ≡ true
      → (has_relation rel a x ≡ true) ⊎ ((a ≡ p) × (x ≡ c))
  added_cases a x h = elim (Bool-cases (has_relation rel a x)) [
    | inl e ↦ inl e
    | inr e ↦ inr (ground (arith, e, any-append (λ r. r.0 == a && r.1 == x) rel ((p, c) ∷ [])))
  ]

  -- An ancestor in the larger graph is one in the smaller, or it is at or above `p`, and its
  -- descendant at or below `c`.
  abbrev pub AtOrAbove : Uuid → Type 0
  AtOrAbove a = (a ≡ p) ⊎ Ancestor rel a p

  abbrev pub AtOrBelow : Uuid → Type 0
  AtOrBelow x = (x ≡ c) ⊎ Ancestor rel c x

  pub Ancestor-cases :
      {a x : Uuid} → Ancestor added a x → Ancestor rel a x ⊎ (AtOrAbove a × AtOrBelow x)
  Ancestor-cases {a} {x} (parent r) = elim (added_cases a x r) [
    | inl o ↦ inl (parent o)
    | inr (ea, ex) ↦ inr (inl ea, inl ex)
  ]
  Ancestor-cases {a} {x} (above {b = b} r h) = elim (Ancestor-cases h) [
    | inl old ↦ elim (added_cases a b r) [
      | inl o ↦ inl (above o old)
      | inr (ea, eb) ↦ inr (inl ea, inr (subst (λ z. Ancestor rel z x) eb old))
    ]
    | inr (hb, hx) ↦ elim (added_cases a b r) [
      | inl o ↦ elim hb [
        | inl e ↦ inr (inr (subst (λ z. Ancestor rel a z) e (parent o)), hx)
        | inr k ↦ inr (inr (above o k), hx)
      ]
      | inr (ea, eb) ↦ inr (inl ea, hx)
    ]
  ]

  pub IsAcyclic-add : IsAcyclic rel → p ≢ c → ¬ Ancestor rel c p → IsAcyclic added
  IsAcyclic-add h ne na x cyc = elim (Ancestor-cases cyc) [
    | inl old ↦ h x old
    | inr (inl ep, inl ec) ↦ ne (sym ep ∙ ec)
    | inr (inl ep, inr k) ↦ na (subst (λ z. Ancestor rel c z) ep k)
    | inr (inr k, inl ec) ↦ na (subst (λ z. Ancestor rel z p) ec k)
    | inr (inr k, inr l) ↦ na (append_above l k)
  ]
