-- ===== src/Worker/Scan/Rows.antt =====
-- What the query of breachCandidates selects, and what its loop collects.
use meristem.Base.{
  String, true, Option, List, [], ◌∷◌, ◌≡◌, ◌⊎◌, inl, inr, refl, sym, ap, ◌∙◌, Bool-cases, leb,
}
use meristem.Worker.{
  WallClock, Resolution, Resolved, ok, err, resolve_patience_rule, Candidate, Budgets,
}
use meristem.Worker.Scan.{
  WaitingRow, non_terminal, insert_row, select_rows, ScanResult, scanned, failed, candidate_of,
  add_candidate, collect,
}

abbrev pub In : {A : Type 0} → A → List A → Type 0
In x [] = ⊥
In x (y ∷ ys) = (x ≡ y) ⊎ In x ys

In-insert : (w r : WaitingRow) (xs : List WaitingRow) → In w (insert_row r xs) → (w ≡ r) ⊎ In w xs
unfolding insert_row
In-insert w r [] h = h
In-insert w r (x ∷ xs) h = elim (Bool-cases (leb r.state_entered_at x.state_entered_at)) [
  | inl e ↦ rw e at h
  | inr e ↦ later (λ i. In-insert w r xs i) (rw e at h)
]
  where
    later :
        (In w (insert_row r xs) → (w ≡ r) ⊎ In w xs)
        → (w ≡ x) ⊎ In w (insert_row r xs)
        → (w ≡ r) ⊎ In w (x ∷ xs)
    later ih (inl p) = inr (inl p)
    later ih (inr i) = elim (ih i) [ inl p ↦ inl p | inr j ↦ inr (inr j) ]

insert-In : (w r : WaitingRow) (xs : List WaitingRow) → (w ≡ r) ⊎ In w xs → In w (insert_row r xs)
unfolding insert_row
insert-In w r [] h = h
insert-In w r (x ∷ xs) h = elim (Bool-cases (leb r.state_entered_at x.state_entered_at)) [
  | inl e ↦ rw e h
  | inr e ↦ rw e (later (λ i. insert-In w r xs i) h)
]
  where
    later :
        ((w ≡ r) ⊎ In w xs → In w (insert_row r xs))
        → (w ≡ r) ⊎ In w (x ∷ xs)
        → (w ≡ x) ⊎ In w (insert_row r xs)
    later ih (inl p) = inr (ih (inl p))
    later ih (inr (inl p)) = inl p
    later ih (inr (inr i)) = inr (ih (inr i))

-- The rows selected are those of the table in a state that is not terminal.
pub In-select :
    (w : WaitingRow) (rows : List WaitingRow)
    → In w (select_rows rows)
    → In w rows × (non_terminal w.state ≡ true)
unfolding select_rows
In-select w [] h = absurd h
In-select w (r ∷ rs) h = elim (Bool-cases (non_terminal r.state)) [
  | inl e ↦ split (λ i. In-select w rs i) e (In-insert w r (select_rows rs) (rw e at h))
  | inr e ↦ let (i, n) = In-select w rs (rw e at h) in (inr i, n)
]
  where
    split :
        (In w (select_rows rs) → In w rs × (non_terminal w.state ≡ true))
        → non_terminal r.state ≡ true
        → (w ≡ r) ⊎ In w (select_rows rs)
        → In w (r ∷ rs) × (non_terminal w.state ≡ true)
    split ih e (inl p) = (inl p, ap (λ x. non_terminal x.state) p ∙ e)
    split ih e (inr i) = let (j, n) = ih i in (inr j, n)

pub select-In :
    (w : WaitingRow) (rows : List WaitingRow)
    → In w rows
    → non_terminal w.state ≡ true
    → In w (select_rows rows)
unfolding select_rows
select-In w [] h n = absurd h
select-In w (r ∷ rs) (inl p) n =
    rw (sym (ap (λ x. non_terminal x.state) p) ∙ n) (insert-In w r (select_rows rs) (inl p))
select-In w (r ∷ rs) (inr i) n = elim (Bool-cases (non_terminal r.state)) [
  | inl e ↦ rw e (insert-In w r (select_rows rs) (inr (select-In w rs i n)))
  | inr e ↦ rw e (select-In w rs i n)
]

module _ (get_cultivar_ref : String → Option WallClock) (budgets : Budgets) where
  abbrev pub resolved : WaitingRow → Resolved
  resolved w = resolve_patience_rule get_cultivar_ref budgets w.state w.metadata

  abbrev pub HasCollected : List WaitingRow → ScanResult (List Candidate) → Type 0
  HasCollected ws (failed id e) = (w : WaitingRow) × In w ws × (w.id ≡ id) × (resolved w ≡ err e)
  HasCollected ws (scanned cs) =
      ((w : WaitingRow)
        → In w ws
        → (r : Resolution) × (resolved w ≡ ok r) × In (candidate_of w r) cs)
      × ((c : Candidate)
          → In c cs
          → (w : WaitingRow) × In w ws
            × ((r : Resolution) × (resolved w ≡ ok r) × (c ≡ candidate_of w r)))

  add-HasCollected :
      (w : WaitingRow) (ws : List WaitingRow) (o : Resolved) (rest : ScanResult (List Candidate))
      → resolved w ≡ o
      → HasCollected ws rest
      → HasCollected (w ∷ ws) (add_candidate w o rest)
  add-HasCollected w ws (err e) rest h k = (w, inl refl, refl, h)
  add-HasCollected w ws (ok r) (failed id e) h (x, i, n, q) = (x, inr i, n, q)
  add-HasCollected w ws (ok r) (scanned cs) h (to, from) = (
    λ x i. elim i [
      | inl p ↦ (r, ap resolved p ∙ h, inl (ap (λ y. candidate_of y r) p))
      | inr j ↦ let (q, e, m) = to x j in (q, e, inr m)
    ],
    λ c i. elim i [
      | inl p ↦ (w, inl refl, (r, h, p))
      | inr j ↦ let (x, m, q) = from c j in (x, inr m, q)
    ],
  )

  pub collect-HasCollected :
      (ws : List WaitingRow) → HasCollected ws (collect get_cultivar_ref budgets ws)
  unfolding collect
  collect-HasCollected [] = (λ w i. absurd i, λ c i. absurd i)
  collect-HasCollected (w ∷ ws) =
      add-HasCollected w ws (resolved w) _ refl (collect-HasCollected ws)
