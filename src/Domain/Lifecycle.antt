-- ===== src/Domain/Lifecycle.antt =====
-- What CanTransition of internal/domain/models.go lets a work item do, over any number of moves.
use meristem.Base.{true, false, ◌≡◌, refl, arith, eq_iff, eq_refl}
use meristem.Domain.{WorkItemState, state_valid, terminal, state_eq, can_transition}

pub state_eq_sound : (s t : WorkItemState) → state_eq s t ≡ true → s ≡ t
state_eq_sound (WorkItemState.unknown s) (WorkItemState.unknown t) h = ground (arith, eq_iff s t)
state_eq_sound s t h = ground arith

pub state_eq_refl : (s : WorkItemState) → state_eq s s ≡ true
state_eq_refl (WorkItemState.unknown s) = eq_refl s
state_eq_refl _ = refl

-- A sequence of transitions that CanTransition accepts.
pub data Moves : WorkItemState → WorkItemState → Type 0 where
  here : {s : WorkItemState} → Moves s s
  next : {s t u : WorkItemState} → can_transition s t ≡ true → Moves t u → Moves s u

can_transition-terminal :
    (s t : WorkItemState) → terminal s ≡ true → can_transition s t ≡ true → s ≡ t
unfolding can_transition
can_transition-terminal s t h c = state_eq_sound s t (ground arith)

-- No sequence of accepted transitions leaves a terminal state.
pub terminal_absorbs : {s t : WorkItemState} → terminal s ≡ true → Moves s t → s ≡ t
terminal_absorbs h here = refl
terminal_absorbs {s} h (next {t = t} c ms) =
    let e = can_transition-terminal s t h c in
    ground (arith, e, terminal_absorbs (ground (arith, e)) ms)

-- A legal state that is not terminal can move to every legal state, and only legal states are
-- moved to.
pub can_transition_open :
    (s t : WorkItemState)
    → state_valid s ≡ true
    → terminal s ≡ false
    → can_transition s t ≡ state_valid t
unfolding can_transition
can_transition_open s t v h = ground arith
