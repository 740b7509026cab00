-- ===== src/Worker/Scan/Overdue.antt =====
-- Which items a scan finds overdue, from the rows of the table to the breaches: the query, the
-- resolution of every rule, the policy's budgets and the breach decision together.
use meristem.Base.{
  ℕ, ◌+◌, ◌-◌, ◌<◌, ◌≤◌, String, true, false, Option, none, List, [], ◌∷◌, ◌≡◌, ◌⊎◌, inl, inr, refl,
  sym, subst, ap, arith, ◌∙◌, Bool-cases, leb, ◌==◌,
}
use meristem.Base.Int.{ℤ, pos, negsuc}
use meristem.Domain.{WorkItemState, state_valid, terminal}
use meristem.Safety.{Policy, validate, max_patience_budget}
use meristem.Worker.{
  WallClock, Resolution, Resolved, ok, err, resolve_patience_rule, Candidate, Breach,
  evaluate_breaches, overdue,
}
use meristem.Worker.Patience.{resolve-Bounded}
use meristem.Worker.Scan.Rows.{In, In-select, select-In, HasCollected, collect-HasCollected}
use meristem.Worker.Scan.{
  WaitingRow, non_terminal, select_rows, ScanResult, scanned, failed, candidate_of, evaluate,
  scan_breaches,
}

-- The breach of a candidate that has a budget.
abbrev pub breach_of : ℕ → Candidate → ℕ → Breach
breach_of now c d = record { candidate = c; budget = d; age = now - c.state_entered_at }

-- A candidate is overdue by some positive budget.
abbrev IsOverdue : ℕ → Breach → Candidate → Type 0
IsOverdue now b c =
    (c.resolved.budget ≡ pos b.budget)
    × (b ≡ breach_of now c b.budget)
    × (c.state_entered_at + b.budget < now)

overdue-In :
    (now : ℕ) (c : Candidate) (z : ℤ) (rest : List Breach) (b : Breach)
    → c.resolved.budget ≡ z
    → In b (overdue now c z rest)
    → IsOverdue now b c ⊎ In b rest
overdue-In now c (negsuc n) rest b e h = inr h
overdue-In now c (pos n) rest b e h = elim (Bool-cases (n == 0)) [
  | inl k ↦ inr (rw k at h)
  | inr k ↦ elim (Bool-cases (leb now (c.state_entered_at + n))) [
    | inl l ↦ inr (rw (k, l) at h)
    | inr l ↦ here (ground (arith, l)) (rw (k, l) at h)
  ]
]
  where
    here :
        c.state_entered_at + n < now
        → (b ≡ breach_of now c n) ⊎ In b rest
        → IsOverdue now b c ⊎ In b rest
    here l (inr i) = inr i
    here l (inl p) = inl (subst (λ x. IsOverdue now x c) (sym p) (e, refl, l))

evaluate-In :
    (now : ℕ) (cs : List Candidate) (b : Breach)
    → In b (evaluate_breaches now cs)
    → (c : Candidate) × In c cs × IsOverdue now b c
unfolding evaluate_breaches
evaluate-In now [] b h = absurd h
evaluate-In now (c ∷ cs) b h =
    elim (overdue-In now c c.resolved.budget (evaluate_breaches now cs) b refl h) [
      | inl o ↦ (c, inl refl, o)
      | inr i ↦ let (x, m, o) = evaluate-In now cs b i in (x, inr m, o)
    ]

In-overdue :
    (now : ℕ) (c : Candidate) (z : ℤ) (rest : List Breach) (b : Breach)
    → In b rest
    → In b (overdue now c z rest)
In-overdue now c (negsuc n) rest b i = i
In-overdue now c (pos n) rest b i = elim (Bool-cases (n == 0)) [
  | inl k ↦ rw k i
  | inr k ↦ elim (Bool-cases (leb now (c.state_entered_at + n))) [
    | inl l ↦ rw (k, l) i
    | inr l ↦ rw (k, l) (inr i)
  ]
]

overdue_now :
    (now : ℕ) (c : Candidate) (d : ℕ) (rest : List Breach)
    → 0 < d
    → c.state_entered_at + d < now
    → overdue now c (pos d) rest ≡ breach_of now c d ∷ rest
overdue_now now c d rest l h = ground arith

In-evaluate :
    (now : ℕ) (cs : List Candidate) (c : Candidate) (d : ℕ)
    → In c cs
    → c.resolved.budget ≡ pos d
    → 0 < d
    → c.state_entered_at + d < now
    → In (breach_of now c d) (evaluate_breaches now cs)
unfolding evaluate_breaches
In-evaluate now [] c d i e l h = absurd i
In-evaluate now (x ∷ cs) c d (inr i) e l h =
    In-overdue now x x.resolved.budget (evaluate_breaches now cs) (breach_of now c d)
      (In-evaluate now cs c d i e l h)
In-evaluate now (x ∷ cs) c d (inl p) e l h =
    subst (λ y. In (breach_of now c d) (overdue now y y.resolved.budget (evaluate_breaches now cs)))
      p
      (subst (In (breach_of now c d))
        (sym (
          ap (λ z. overdue now c z (evaluate_breaches now cs)) e
          ∙ overdue_now now c d (evaluate_breaches now cs) l h))
        (inl refl))

non_terminal_open :
    (s : WorkItemState) → non_terminal s ≡ true → (state_valid s ≡ true) × (terminal s ≡ false)
non_terminal_open s h = ground arith

module _ (get_cultivar_ref : String → Option WallClock) (p : Policy) where
  -- An item of the table that the scan looks at, and how its rule resolves.
  abbrev pub Waits : List WaitingRow → WaitingRow → Resolved → Type 0
  Waits rows w o =
      In w rows
      × (non_terminal w.state ≡ true)
      × (resolve_patience_rule get_cultivar_ref p.patience_budgets w.state w.metadata ≡ o)

  -- An item has a budget of at most 30 days, and is a breach once it waits longer.
  abbrev pub IsWatched : ℕ → List Breach → WaitingRow → Type 0
  IsWatched now bs w =
      (r : Resolution) × (resolve_patience_rule get_cultivar_ref p.patience_budgets w.state
          w.metadata
        ≡ ok r)
      × ((d : ℕ) × (r.budget ≡ pos d)
          × (0 < d)
          × (d ≤ max_patience_budget)
          × (w.state_entered_at + d < now → In (breach_of now (candidate_of w r) d) bs))

  -- A breach is of an item that has waited longer than its budget.
  abbrev pub IsBreach : ℕ → List WaitingRow → Breach → Type 0
  IsBreach now rows b =
      (w : WaitingRow) × ((r : Resolution) × Waits rows w (ok r)
        × (r.budget ≡ pos b.budget)
        × (b ≡ breach_of now (candidate_of w r) b.budget)
        × (w.state_entered_at + b.budget < now))

  abbrev pub Scans : ℕ → List WaitingRow → ScanResult (List Breach) → Type 0
  Scans now rows (failed id e) = (w : WaitingRow) × (w.id ≡ id) × Waits rows w (err e)
  Scans now rows (scanned bs) =
      ((w : WaitingRow) → In w rows → non_terminal w.state ≡ true → IsWatched now bs w)
      × ((b : Breach) → In b bs → IsBreach now rows b)

  watched :
      (now : ℕ) (w : WaitingRow) (r : Resolution) (cs : List Candidate)
      → validate p ≡ none
      → non_terminal w.state ≡ true
      → resolve_patience_rule get_cultivar_ref p.patience_budgets w.state w.metadata ≡ ok r
      → In (candidate_of w r) cs
      → IsWatched now (evaluate_breaches now cs) w
  watched now w r cs gate n e i =
      let (legal, open_state) = non_terminal_open w.state n in
      let (d, q, l, u) =
        resolve-Bounded get_cultivar_ref p w.state gate legal open_state w.metadata e in
      (r, e, (d, q, l, u, λ h. In-evaluate now cs (candidate_of w r) d i q l h))

  evaluate-Scans :
      (now : ℕ) (rows : List WaitingRow) (o : ScanResult (List Candidate))
      → validate p ≡ none
      → HasCollected get_cultivar_ref p.patience_budgets (select_rows rows) o
      → Scans now rows (evaluate get_cultivar_ref p.patience_budgets now o)
  evaluate-Scans now rows (failed id e) gate (w, i, n, h) =
      let (j, k) = In-select w rows i in (w, n, (j, k, h))
  evaluate-Scans now rows (scanned cs) gate (to, from) = (
    λ w i n. let (r, e, j) = to w (select-In w rows i n) in watched now w r cs gate n e j,
    λ b i.
        let (c, j, o) = evaluate-In now cs b i in
        let (w, k, q) = from c j in
        let (l, n) = In-select w rows k in
        let (x, y, z) = subst (IsOverdue now b) q.2 o in (w, (q.0, (l, n, q.1), x, y, z)),
  )

  -- A scan under a policy that passes the startup gate either returns the error of an item that is
  -- not terminal and whose patience rule does not resolve, or finds breaches: then every item of
  -- the table that is not terminal has a budget that is positive and at most 30 days and, once it
  -- is longer than that in its state, is a breach with the budget and its age; and each breach is
  -- of such an item, longer than its budget in its state.
  pub overdue_found :
      (now : ℕ) (rows : List WaitingRow)
      → validate p ≡ none
      → Scans now rows (scan_breaches get_cultivar_ref p.patience_budgets now rows)
  unfolding scan_breaches
  overdue_found now rows gate =
      evaluate-Scans now rows _ gate
        (collect-HasCollected get_cultivar_ref p.patience_budgets (select_rows rows))
