-- ===== src/Worker/Pass/Counted.antt =====
-- What each count of a breach pass of ScanOnce says, and what an error leaves undone.
use meristem.Base.{
  ◌+◌, Bool, true, false, ◌&&◌, not, Option, none, some, List, [], ◌∷◌, ◌++◌, ◌≡◌, ◌⊎◌, ◌↔◌, inl,
  inr, refl, ap, arith, count_if,
}
use meristem.Worker.{Breach, routes_to_dispatch}
use meristem.Worker.Pass.{
  Counts, PassError, Step, goes_on, returns, step, breach_pass, awaits_human, continue_with,
  escalate_breach, emit_failed, dispatch_failed, escalate_failed,
}
use meristem.Worker.Pass.Routes.{IsDispatchable, routes_to_dispatch_iff}

abbrev waits_for_human : Breach → Bool
waits_for_human b = awaits_human b.candidate.human_review_status

-- The answer of a call that recorded something, and of one that found it recorded.
abbrev is_fresh : Option Bool → Bool
is_fresh none = false
is_fresh (some fresh) = fresh

abbrev is_known : Option Bool → Bool
is_known none = false
is_known (some fresh) = not fresh

abbrev is_answered : Option Bool → Bool
is_answered none = false
is_answered (some fresh) = true

abbrev dispatched : Breach → Bool
dispatched b = not (waits_for_human b) && routes_to_dispatch b

abbrev escalated : Breach → Bool
escalated b = not (waits_for_human b) && not (routes_to_dispatch b)

module _ (emit dispatch escalate : Breach → Option Bool) where
  -- The counts `m` are the counts `n` with the breaches `es` emitted and the breaches `rs` routed,
  -- each by its route and by what the call answered.
  abbrev pub Counted : List Breach → List Breach → Counts → Counts → Type 0
  Counted es rs n m =
      (m.breaches_emitted ≡ n.breaches_emitted + count_if (λ b. is_fresh (emit b)) es)
      × (m.breaches_already_recorded
          ≡ n.breaches_already_recorded + count_if (λ b. is_known (emit b)) es)
      × (m.escalations_skipped_awaiting_human
          ≡ n.escalations_skipped_awaiting_human + count_if waits_for_human rs)
      × (m.dispatches_requested
          ≡ n.dispatches_requested + count_if (λ b. dispatched b && is_fresh (dispatch b)) rs)
      × (m.dispatches_already_requested
          ≡ n.dispatches_already_requested
            + count_if (λ b. dispatched b && is_known (dispatch b)) rs)
      × (m.escalations_requested
          ≡ n.escalations_requested
            + count_if (λ b. escalated b && is_fresh (escalate_breach emit dispatch escalate b)) rs)
      × (m.escalations_already_requested
          ≡ n.escalations_already_requested
            + count_if (λ b. escalated b && is_known (escalate_breach emit dispatch escalate b)) rs)

  -- Why a pass stopped at a breach, after those before it.
  abbrev pub Cause : List Breach → Breach → Counts → Counts → PassError → Type 0
  Cause before b n m e =
      ((e ≡ emit_failed b) × (emit b ≡ none) × Counted before before n m)
      ⊎ ((e ≡ dispatch_failed b)
          × (is_answered (emit b) ≡ true)
          × (dispatched b ≡ true)
          × (dispatch b ≡ none)
          × Counted (before ++ b ∷ []) before n m)
      ⊎ ((e ≡ escalate_failed b)
          × (is_answered (emit b) ≡ true)
          × (escalated b ≡ true)
          × (escalate_breach emit dispatch escalate b ≡ none)
          × Counted (before ++ b ∷ []) before n m)

  step-Counted :
      (b : Breach) (n m : Counts)
      → step emit dispatch escalate b n ≡ goes_on m
      → Counted (b ∷ []) (b ∷ []) n m
  unfolding step
  step-Counted b n m h = ground arith

  step-Cause :
      (b : Breach) (n m : Counts) (e : PassError)
      → step emit dispatch escalate b n ≡ returns m e
      → Cause [] b n m e
  unfolding step
  step-Cause b n m e h = ground arith

  Counted-cons :
      (b : Breach) (es rs : List Breach) (n m k : Counts)
      → Counted (b ∷ []) (b ∷ []) n m
      → Counted es rs m k
      → Counted (b ∷ es) (b ∷ rs) n k
  Counted-cons b es rs n m k c d = (
    omega (arith, c.0, d.0),
    omega (arith, c.1, d.1),
    omega (arith, c.2, d.2),
    omega (arith, c.3, d.3),
    omega (arith, c.4, d.4),
    omega (arith, c.5, d.5),
    omega (arith, c.6, d.6),
  )

  Cause-cons :
      (b f : Breach) (before : List Breach) (n m k : Counts) (e : PassError)
      → Counted (b ∷ []) (b ∷ []) n m
      → Cause before f m k e
      → Cause (b ∷ before) f n k e
  Cause-cons b f before n m k e c (inl (p, q, d)) =
      inl (p, q, Counted-cons b before before n m k c d)
  Cause-cons b f before n m k e c (inr (inl (p, a, q, r, d))) =
      inr (inl (p, a, q, r, Counted-cons b (before ++ f ∷ []) before n m k c d))
  Cause-cons b f before n m k e c (inr (inr (p, a, q, r, d))) =
      inr (inr (p, a, q, r, Counted-cons b (before ++ f ∷ []) before n m k c d))

  pub record Stopped (bs : List Breach) (n : Counts) (out : Counts × Option PassError)
      : Type 0 where
    pub before : List Breach
    pub failing : Breach
    pub after : List Breach
    pub error : PassError
    pub split : bs ≡ before ++ failing ∷ after
    pub returned : out.1 ≡ some error
    pub cause : Cause before failing n out.0 error

  -- What a pass over breaches leaves: all counted and no error, or an error at one of them.
  abbrev pub Passed : List Breach → Counts → Counts × Option PassError → Type 0
  Passed bs n out = ((out.1 ≡ none) × Counted bs bs n out.0) ⊎ Stopped bs n out

  continue-Passed :
      (b : Breach) (bs : List Breach) (n : Counts) (s : Step)
      → step emit dispatch escalate b n ≡ s
      → ((m : Counts) → Passed bs m (breach_pass emit dispatch escalate bs m))
      → Passed
          (b ∷ bs)
          n
          (continue_with emit dispatch escalate s (breach_pass emit dispatch escalate bs))
  continue-Passed b bs n (returns m e) h ih = inr (record {
    before = [];
    failing = b;
    after = bs;
    error = e;
    split = refl;
    returned = refl;
    cause = step-Cause b n m e h;
  })
  continue-Passed b bs n (goes_on m) h ih = elim (ih m) [
    | inl (a, c) ↦ inl (a, Counted-cons b bs bs n m _ (step-Counted b n m h) c)
    | inr s ↦ inr (record {
      before = b ∷ s.before;
      failing = s.failing;
      after = s.after;
      error = s.error;
      split = ap (◌∷◌ b) s.split;
      returned = s.returned;
      cause = Cause-cons b s.failing s.before n m _ s.error (step-Counted b n m h) s.cause;
    })
  ]

  pass-Passed :
      (bs : List Breach) (n : Counts) → Passed bs n (breach_pass emit dispatch escalate bs n)
  unfolding breach_pass
  pass-Passed [] n = inl (refl, omega arith)
  pass-Passed (b ∷ bs) n =
      continue-Passed b bs n (step emit dispatch escalate b n) refl (λ m. pass-Passed bs m)

  -- A breach pass that returns no error counted every breach: as emitted or already recorded by what
  -- the emission answered, and as skipped where the item waits for a human, else as a dispatch or an
  -- escalation, fresh or known by what that call answered. Else it returns an error at a breach: that
  -- of its emission, or of its dispatch or escalation once it was emitted; the breaches before it are
  -- counted as above, it is not counted by a route, and no breach after it is counted. The dispatched
  -- breaches are those whose item was not claimed yet and names a cultivar, not human-attention.
  pub breach_pass_counted :
      (bs : List Breach) (n : Counts)
      → Passed bs n (breach_pass emit dispatch escalate bs n)
        × ((b : Breach) → (routes_to_dispatch b ≡ true) ↔ IsDispatchable b)
  breach_pass_counted bs n = (pass-Passed bs n, routes_to_dispatch_iff)
