-- ===== src/Worker/Pass/Routes.antt =====
-- shouldRoutePatienceBreachToDispatch of internal/worker/dispatch_driver.go: the breaches that it
-- sends to dispatch, by their state and the name of their cultivar.
use Prim.Native.String as Str
use meristem.Base.{
  String, Bool, true, false, ◌&&◌, not, Option, none, some, ◌≡◌, ◌⊎◌, ◌↔◌, inl, inr, refl, ◌∙◌, ap,
  arith, cut, cut_sound, cut-append, trim_space, trim_space-trim_space, str_eq, eq_iff,
}
use meristem.Domain.{WorkItemState}
use meristem.Worker.{Breach, pre_claim, before_at, is_human_attention, routes_to_dispatch}

abbrev human_attention : String
human_attention = "human-attention"

-- The cultivar is human-attention, in any version or none.
abbrev pub IsForHuman : String → Type 0
IsForHuman ref =
    (ref ≡ human_attention) ⊎ ((v : String) × (ref ≡ Str.◌++◌ human_attention (Str.◌∷◌ "@" v)))

abbrev pub IsUnclaimed : WorkItemState → Type 0
IsUnclaimed s =
    (s ≡ WorkItemState.captured) ⊎ (s ≡ WorkItemState.triaged) ⊎ (s ≡ WorkItemState.planned)

-- The item was not claimed yet, and names a cultivar that is not the one of humans.
abbrev pub IsDispatchable : Breach → Type 0
IsDispatchable b =
    IsUnclaimed b.candidate.state
    × (¬ (trim_space b.candidate.resolved.cultivar ≡ ""))
    × (¬ IsForHuman (trim_space b.candidate.resolved.cultivar))

before_at-IsForHuman :
    (ref : String) (o : Option (String × String))
    → cut b'@' ref ≡ o
    → str_eq (before_at ref o) human_attention ≡ true
    → IsForHuman ref
before_at-IsForHuman ref none h e = inl ((eq_iff ref human_attention).0 e)
before_at-IsForHuman ref (some (before, after)) h e = inr (
  after,
  cut_sound "@" ref before after h
      ∙ ap (λ x. Str.◌++◌ x (Str.◌∷◌ "@" after)) ((eq_iff before human_attention).0 e),
)

human_alone : cut b'@' human_attention ≡ none
unfolding cut
human_alone = refl

human_version :
    (v : String) → cut b'@' (Str.◌++◌ human_attention (Str.◌∷◌ "@" v)) ≡ some (human_attention, v)
human_version v = cut-append "@" human_attention v refl

IsForHuman-before_at :
    (ref : String) → IsForHuman ref → str_eq (before_at ref (cut b'@' ref)) human_attention ≡ true
IsForHuman-before_at ref (inl e) = rw e (rw human_alone refl)
IsForHuman-before_at ref (inr (v, e)) = rw e (rw (human_version v) refl)

IsForHuman-iff :
    (ref : String) → (is_human_attention (trim_space ref) ≡ true) ↔ IsForHuman (trim_space ref)
unfolding is_human_attention
IsForHuman-iff ref = rw (trim_space-trim_space ref) (
  (λ h. before_at-IsForHuman (trim_space ref) _ refl h),
  (λ h. IsForHuman-before_at (trim_space ref) h),
)

IsUnclaimed-iff : (s : WorkItemState) → (pre_claim s ≡ true) ↔ IsUnclaimed s
IsUnclaimed-iff WorkItemState.captured = (λ h. inl refl, λ h. refl)
IsUnclaimed-iff WorkItemState.triaged = (λ h. inr (inl refl), λ h. refl)
IsUnclaimed-iff WorkItemState.planned = (λ h. inr (inr refl), λ h. refl)
IsUnclaimed-iff WorkItemState.awaiting_approval = (λ h. absurd cc, λ h. ground (arith, h))
IsUnclaimed-iff WorkItemState.running = (λ h. absurd cc, λ h. ground (arith, h))
IsUnclaimed-iff WorkItemState.blocked = (λ h. absurd cc, λ h. ground (arith, h))
IsUnclaimed-iff WorkItemState.done = (λ h. absurd cc, λ h. ground (arith, h))
IsUnclaimed-iff WorkItemState.failed = (λ h. absurd cc, λ h. ground (arith, h))
IsUnclaimed-iff WorkItemState.canceled = (λ h. absurd cc, λ h. ground (arith, h))
IsUnclaimed-iff (WorkItemState.unknown t) = (λ h. absurd cc, λ h. ground (arith, h))

and_iff :
    {P Q R : Type 0} (a b c : Bool)
    → (a ≡ true) ↔ P
    → (b ≡ true) ↔ Q
    → (c ≡ true) ↔ R
    → (a && not b && not c ≡ true) ↔ (P × (¬ Q) × (¬ R))
and_iff true false false p q r = (
  λ h. (p.0 refl, λ x. absurd (ground (arith, q.1 x)), λ x. absurd (ground (arith, r.1 x))),
  λ h. refl,
)
and_iff false b c p q r = (λ h. absurd cc, λ h. p.1 h.0)
and_iff true true c p q r = (λ h. absurd cc, λ h. absurd (h.1 (q.0 refl)))
and_iff true false true p q r = (λ h. absurd cc, λ h. absurd (h.2 (r.0 refl)))

pub routes_to_dispatch_iff : (b : Breach) → (routes_to_dispatch b ≡ true) ↔ IsDispatchable b
unfolding routes_to_dispatch
routes_to_dispatch_iff b =
    and_iff (pre_claim b.candidate.state) (str_eq (trim_space b.candidate.resolved.cultivar) "")
      (is_human_attention (trim_space b.candidate.resolved.cultivar))
      (IsUnclaimed-iff b.candidate.state) (eq_iff (trim_space b.candidate.resolved.cultivar) "")
      (IsForHuman-iff b.candidate.resolved.cultivar)
