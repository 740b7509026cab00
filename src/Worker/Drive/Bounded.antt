-- ===== src/Worker/Drive/Bounded.antt =====
-- The convergence driver spends its attempts on new evidence only, and no more than its budget.
use meristem.Base.{
  ℕ, ◌+◌, ◌-◌, ◌≤◌, ◌<◌, suc, String, Bool, true, false, Option, none, some, List, [], ◌∷◌, ◌≡◌,
  ◌⊎◌, ◌↔◌, inl, inr, refl, sym, arith, str_eq, length, Bool-cases, subst, count_if,
}
use meristem.Domain.{Disposition}
use meristem.Convergence.{Signal, Config, Reducer, Result, ok, err}
use meristem.Convergence.Run.{Reduction, run}
use meristem.Convergence.Run.Laws.{run-replays}
use meristem.Convergence.Budget.{next, retry}
use meristem.Convergence.Budget.Loop.{next_cases, IsExit}
use meristem.Worker.Drive.{
  default_budget, VerdictRecord, ConvergenceDecision, record_of, decide_fresh, decide_same,
  decide_convergence_step, attempt_of, mark_done, block, Action, action_of, Emission, fresh, known,
  rolled_back, ActionAnswer, Visit, Report, waited, asked, not_reduced, not_emitted, verdict_of,
  act, or_last, follow, conclude, pass, drive,
}

-- The verdicts that passes recorded, in their order.
abbrev pub verdicts : List Report → List VerdictRecord
verdicts [] = []
verdicts (r ∷ rs) = elim (verdict_of r) [ none ↦ verdicts rs | some v ↦ v ∷ verdicts rs ]

-- The attempts are numbered on from a number.
abbrev pub Numbered : ℕ → List VerdictRecord → Type 0
Numbered n [] = Unit {0}
Numbered n (r ∷ rs) = (r.attempt ≡ suc n) × Numbered (suc n) rs

abbrev Differs : Option VerdictRecord → VerdictRecord → Type 0
Differs none r = Unit {0}
Differs (some last) r = str_eq last.inputs_digest r.inputs_digest ≡ false

-- Each verdict is on other inputs than the one before it.
abbrev pub OnNewInputs : Option VerdictRecord → List VerdictRecord → Type 0
OnNewInputs last [] = Unit {0}
OnNewInputs last (r ∷ rs) = Differs last r × OnNewInputs (some r) rs

-- The item is marked done exactly on a recorded verdict that accepts.
abbrev pub Fits : Option VerdictRecord → Action → Type 0
Fits none a = Unit {0}
Fits (some v) a = (a ≡ mark_done) ↔ (v.verdict.disposition ≡ Disposition.accept)

-- A pass leaves the item running where the latest verdict on record has attempts left, and the
-- actions that it asks for are to mark the item done or to block it, as its verdict says.
abbrev pub IsSpent : Option VerdictRecord → Report → Type 0
IsSpent last (waited v) = attempt_of (or_last v last) < 3
IsSpent last (asked v a w) = ((a ≡ mark_done) ⊎ (a ≡ block)) × Fits v a
IsSpent last (not_reduced e) = Unit {0}
IsSpent last not_emitted = Unit {0}

abbrev pub AllSpent : Option VerdictRecord → List Report → Type 0
AllSpent last [] = Unit {0}
AllSpent last (r ∷ rs) = IsSpent last r × AllSpent (or_last (verdict_of r) last) rs

abbrev pub is_asked : Report → Bool
is_asked (asked v a w) = true
is_asked _ = false

abbrev pub Good : Option VerdictRecord → List Report → Type 0
Good last rs =
    Numbered (attempt_of last) (verdicts rs)
    × OnNewInputs last (verdicts rs)
    × AllSpent last rs
    × (length (verdicts rs) ≤ (2 - attempt_of last) + count_if is_asked rs)

-- What one pass does: its verdict has the next number and is on other inputs.
abbrev IsNext : Option VerdictRecord → Option VerdictRecord → Type 0
IsNext last none = Unit {0}
IsNext last (some v) = (v.attempt ≡ suc (attempt_of last)) × Differs last v

abbrev IsPass : Option VerdictRecord → Report → Type 0
IsPass last r = IsNext last (verdict_of r) × IsSpent last r

Good-cons :
    (last : Option VerdictRecord) (r : Report) (rs : List Report)
    → IsPass last r
    → Good (or_last (verdict_of r) last) rs
    → Good last (r ∷ rs)
Good-cons last (waited none) rs (n, s) (a, b, c, d) = (a, b, (s, c), omega (arith, d))
Good-cons last (waited (some v)) rs ((n, x), s) (a, b, c, d) =
    ((n, subst (λ k. Numbered k (verdicts rs)) n a), (x, b), (s, c), omega (arith, n, s, d))
Good-cons last (asked none a' w) rs (n, s) (a, b, c, d) = (a, b, (s, c), omega (arith, d))
Good-cons last (asked (some v) a' w) rs ((n, x), s) (a, b, c, d) =
    ((n, subst (λ k. Numbered k (verdicts rs)) n a), (x, b), (s, c), omega (arith, n, d))
Good-cons last (not_reduced e) rs (n, s) (a, b, c, d) = (a, b, (tt, c), omega (arith, d))
Good-cons last not_emitted rs (n, s) (a, b, c, d) = (a, b, (tt, c), omega (arith, d))

-- A decision that does not retry asks for the item to be done or blocked.
exit_action :
    (d : ConvergenceDecision)
    → IsExit default_budget (d.outcome, d.escalation)
    → (action_of d ≡ mark_done) ⊎ (action_of d ≡ block)
unfolding action_of
exit_action d (inl e) = inl (ground (arith, e))
exit_action d (inr (e, k)) = inr (ground (arith, e, k))

act_waits :
    (d : ConvergenceDecision) (v : Option VerdictRecord) (w : ActionAnswer)
    → d.outcome ≡ retry
    → act d v w ≡ waited v
act_waits d v w e = rw e

act_asks :
    (d : ConvergenceDecision) (v : Option VerdictRecord) (w : ActionAnswer)
    → IsExit default_budget (d.outcome, d.escalation)
    → act d v w ≡ asked v (action_of d) w
act_asks d v w (inl e) = ground (arith, e)
act_asks d v w (inr (e, k)) = ground (arith, e)

act-IsPass :
    (last : Option VerdictRecord) (d : ConvergenceDecision) (v : Option VerdictRecord)
    (w : ActionAnswer)
    → IsNext last v
    → Fits v (action_of d)
    → ((d.outcome ≡ retry) × (attempt_of (or_last v last) < 3))
      ⊎ IsExit default_budget (d.outcome, d.escalation)
    → IsPass last (act d v w)
act-IsPass last d v w n f (inl (e, l)) = subst (IsPass last) (sym (act_waits d v w e)) (n, l)
act-IsPass last d v w n f (inr x) =
    subst (IsPass last) (sym (act_asks d v w x)) (n, (exit_action d x, f))

fresh-Fits :
    {F : Type 0} (r : Reduction F)
    → Fits (some (record_of r)) (action_of (decide_fresh r default_budget))
unfolding action_of next
fresh-Fits r = (λ h. ground (arith, h), λ h. ground (arith, h))

module _ {F : Type 0} (r : Reduction F) (last : Option VerdictRecord) (w : ActionAnswer)
    (numbered : r.attempt ≡ suc (attempt_of last)) where
  fresh-IsPass :
      (e : Emission)
      → Differs last (record_of r)
      → IsPass last (follow (decide_fresh r default_budget) r e w)
  fresh-IsPass rolled_back new = (tt, tt)
  fresh-IsPass fresh new =
      act-IsPass last (decide_fresh r default_budget) (some (record_of r)) w (numbered, new)
        (fresh-Fits r) (next_cases default_budget r.verdict.disposition r.attempt)
  fresh-IsPass known new =
      act-IsPass last (decide_fresh r default_budget) none w tt tt
        (earlier (next_cases default_budget r.verdict.disposition r.attempt))
    where
      earlier :
          (((decide_fresh r default_budget).outcome ≡ retry) × (r.attempt < 3))
            ⊎ IsExit default_budget (
              (decide_fresh r default_budget).outcome,
              (decide_fresh r default_budget).escalation,
            )
          → (((decide_fresh r default_budget).outcome ≡ retry) × (attempt_of last < 3))
            ⊎ IsExit default_budget (
              (decide_fresh r default_budget).outcome,
              (decide_fresh r default_budget).escalation,
            )
      earlier (inl (e, l)) = inl (e, omega (arith, l, numbered))
      earlier (inr x) = inr x

module _ {F : Type 0} (r : Reduction F) (l : VerdictRecord) (e : Emission) (w : ActionAnswer) where
  same_waits :
      (next default_budget l.verdict.disposition l.attempt).0 ≡ retry
      → follow (decide_same l default_budget) r e w ≡ waited none
  same_waits k = rw k

  same_asks :
      IsExit default_budget (next default_budget l.verdict.disposition l.attempt)
      → follow (decide_same l default_budget) r e w
        ≡ asked none (action_of (decide_same l default_budget)) w
  same_asks (inl k) = ground (arith, k)
  same_asks (inr (k, q)) = ground (arith, k)

  same-IsExit :
      IsExit default_budget (next default_budget l.verdict.disposition l.attempt)
      → IsExit default_budget
          ((decide_same l default_budget).outcome, (decide_same l default_budget).escalation)
  same-IsExit (inl k) = inl k
  same-IsExit (inr (k, q)) = inr (k, ground (arith, k, q))

  same-IsPass : IsPass (some l) (follow (decide_same l default_budget) r e w)
  same-IsPass = elim (next_cases default_budget l.verdict.disposition l.attempt) [
    | inl (k, b) ↦ subst (IsPass (some l)) (sym (same_waits k)) (tt, b)
    | inr x ↦
        subst (IsPass (some l)) (sym (same_asks x))
          (tt, (exit_action (decide_same l default_budget) (same-IsExit x), tt))
  ]

module _ {F : Type 0} where
  conclude-IsPass :
      (o : Result (Reduction F)) (last : Option VerdictRecord) (e : Emission) (w : ActionAnswer)
      → ((r : Reduction F) → o ≡ ok r → r.attempt ≡ suc (attempt_of last))
      → IsPass last (conclude o last e w)
  unfolding decide_convergence_step
  conclude-IsPass (err x) last e w n = (tt, tt)
  conclude-IsPass (ok r) none e w n = fresh-IsPass r none w (n r refl) e tt
  conclude-IsPass (ok r) (some last) e w n =
      elim (Bool-cases (str_eq last.inputs_digest r.inputs_digest)) [
        | inl k ↦ rw k (same-IsPass r last e w)
        | inr k ↦ rw k (fresh-IsPass r (some last) w (n r refl) e k)
      ]

  module _ (digest : List (Signal F) → Config F → Option String) (reducer : Reducer F) where
    pass-IsPass :
        (last : Option VerdictRecord) (v : Visit F) → IsPass last (pass digest reducer last v)
    unfolding pass
    pass-IsPass last v =
        conclude-IsPass (run digest (some reducer) v.signals (suc (attempt_of last))) last
          v.emission v.answer
          (λ r h. (run-replays digest reducer v.signals (suc (attempt_of last)) r h).2)

    -- Over any passes that come to a running item, from the latest verdict on record and whatever
    -- their calls answer, the verdicts recorded are numbered on by one, each on other inputs than
    -- the one before it. A pass that reduces and emits without an error leaves the item running
    -- only where the latest verdict on record has attempts left of three; else it asks for the
    -- item to be done or blocked, and if it recorded a verdict, to be done exactly when that one
    -- accepts. At most as many verdicts are recorded as the first two attempts leave, and one
    -- more for each pass that asks for this.
    pub drive_bounded :
        (visits : List (Visit F)) (last : Option VerdictRecord)
        → Good last (drive digest reducer visits last)
    unfolding drive
    drive_bounded [] last = (tt, tt, tt, omega arith)
    drive_bounded (v ∷ vs) last =
        Good-cons last (pass digest reducer last v)
          (drive digest reducer vs (or_last (verdict_of (pass digest reducer last v)) last))
          (pass-IsPass last v)
          (drive_bounded vs (or_last (verdict_of (pass digest reducer last v)) last))
