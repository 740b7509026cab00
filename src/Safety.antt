-- ===== src/Safety.antt =====
-- internal/safety/policy.go: the resource policy, its profiles and the startup gate. A Go map is the
-- list of its entries in the order that a range visits them. Durations are nanoseconds.
pub mod Bounded
pub mod Examples
use meristem.Base.{
  ℕ, ◌*◌, String, Bool, true, false, ◌&&◌, not, Option, none, some, List, [], ◌∷◌, ltb, leb, str_eq,
  if◌then◌else◌,
}
use meristem.Base.Int.{ℤ, pos, negsuc}
use meristem.Domain.{WorkItemState, state_valid, terminal, state_eq}
use meristem.Feed.Taxonomy.{KindClass, class_eq}

pub record Policy : Type 0 where
  pub max_request_body_bytes : ℤ
  pub max_feed_wait : ℤ
  pub pool_max_conns : ℤ
  pub pool_min_conns : ℤ
  pub worker_tick_interval : ℤ
  pub patience_budgets : List (WorkItemState × ℤ)
  pub max_delegation_depth : ℤ
  pub max_children_per_item : ℤ
  pub max_concurrent_running_per_token : ℤ
  -- A nil map is `none`.
  pub max_events_per_item_per_hour_by_class : Option (List (KindClass × ℤ))
  pub max_signal_items_per_token_per_hour : ℤ

abbrev pub second : ℕ
second = 1_000_000_000

abbrev pub hour : ℕ
hour = 3600 * second

abbrev pub max_patience_budget : ℕ
max_patience_budget = 720 * hour

abbrev pub max_pool_max_conns : ℕ
max_pool_max_conns = 64

abbrev pub positive : ℤ → Bool
positive (pos n) = ltb 0 n
positive (negsuc _) = false

abbrev negative : ℤ → Bool
negative (pos _) = false
negative (negsuc _) = true

abbrev pub exceeds : ℤ → ℕ → Bool
exceeds (pos n) m = ltb m n
exceeds (negsuc _) m = false

abbrev above : ℤ → ℤ → Bool
above (pos a) (pos b) = ltb b a
above (pos _) (negsuc _) = true
above (negsuc _) (pos _) = false
above (negsuc a) (negsuc b) = ltb a b

pub data PolicyError : Type 0 where
  not_positive : String → PolicyError
  too_large : String → PolicyError
  is_negative : String → PolicyError
  rates_required : PolicyError
  rate_not_positive : KindClass → PolicyError
  not_projectable : KindClass → PolicyError
  missing_patience : WorkItemState → PolicyError
  patience_not_positive : WorkItemState → PolicyError
  unknown_state : WorkItemState → PolicyError
  terminal_state : WorkItemState → PolicyError
  infinite_patience : WorkItemState → PolicyError

-- The value at a missing key is 0.
unfoldable pub rate_of : KindClass → List (KindClass × ℤ) → ℤ
rate_of class [] = pos 0
rate_of class ((c, n) ∷ rs) = if class_eq c class then n else rate_of class rs

-- ProjectableKindClass
abbrev projectable : KindClass → Bool
projectable KindClass.lifecycle = true
projectable KindClass.decision = true
projectable KindClass.progress = true
projectable _ = false

unfoldable pub check_rates : List (KindClass × ℤ) → Option PolicyError
check_rates [] = none
check_rates ((c, n) ∷ rs) =
    let rest = check_rates rs in
    if not (projectable c)
    then some (not_projectable c)
    else if not (positive n)
    then some (rate_not_positive c)
    else rest

-- validateEventRateBudgetMap
unfoldable pub validate_rates : Option (List (KindClass × ℤ)) → Option PolicyError
validate_rates none = some rates_required
validate_rates (some rates) =
    if not (positive (rate_of KindClass.lifecycle rates))
    then some (rate_not_positive KindClass.lifecycle)
    else if not (positive (rate_of KindClass.decision rates))
    then some (rate_not_positive KindClass.decision)
    else if not (positive (rate_of KindClass.progress rates))
    then some (rate_not_positive KindClass.progress)
    else check_rates rates

unfoldable pub patience_of : WorkItemState → List (WorkItemState × ℤ) → Option ℤ
patience_of state [] = none
patience_of state ((s, d) ∷ bs) = if state_eq s state then some d else patience_of state bs

abbrev check_duration : WorkItemState → Option ℤ → Option PolicyError → Option PolicyError
check_duration state none rest = some (missing_patience state)
check_duration state (some d) rest =
    if not (positive d) then some (patience_not_positive state) else rest

abbrev pub non_terminal_states : List WorkItemState
non_terminal_states =
    WorkItemState.captured ∷ WorkItemState.triaged ∷ WorkItemState.planned
    ∷ WorkItemState.awaiting_approval ∷ WorkItemState.running ∷ WorkItemState.blocked ∷ []

-- The loop over nonTerminalStates, then `rest`.
unfoldable pub check_required :
    List WorkItemState → List (WorkItemState × ℤ) → Option PolicyError → Option PolicyError
check_required [] budgets rest = rest
check_required (s ∷ ss) budgets rest =
    check_duration s (patience_of s budgets) (check_required ss budgets rest)

-- The loop over the entries.
unfoldable pub check_budgets : List (WorkItemState × ℤ) → Option PolicyError
check_budgets [] = none
check_budgets ((s, d) ∷ bs) =
    let rest = check_budgets bs in
    if not (state_valid s)
    then some (unknown_state s)
    else if terminal s
    then some (terminal_state s)
    else if not (positive d)
    then some (patience_not_positive s)
    else if exceeds d max_patience_budget
    then some (infinite_patience s)
    else rest

abbrev or_else : Option PolicyError → Option PolicyError → Option PolicyError
or_else (some e) rest = some e
or_else none rest = rest

unfoldable pub check_patience : List (WorkItemState × ℤ) → Option PolicyError
check_patience budgets = check_required non_terminal_states budgets (check_budgets budgets)

-- Validate
unfoldable pub validate : Policy → Option PolicyError
validate p =
    if not (positive p.max_request_body_bytes)
    then some (not_positive "max_request_body_bytes")
    else if not (positive p.max_feed_wait)
    then some (not_positive "max_feed_wait")
    else if not (positive p.pool_max_conns)
    then some (not_positive "pool_max_conns")
    else if exceeds p.pool_max_conns max_pool_max_conns
    then some (too_large "pool_max_conns")
    else if not (positive p.pool_min_conns)
    then some (not_positive "pool_min_conns")
    else if above p.pool_min_conns p.pool_max_conns
    then some (too_large "pool_min_conns")
    else if not (positive p.worker_tick_interval)
    then some (not_positive "worker_tick_interval")
    else if negative p.max_delegation_depth
    then some (is_negative "max_delegation_depth")
    else if not (positive p.max_children_per_item)
    then some (not_positive "max_children_per_item")
    else if not (positive p.max_concurrent_running_per_token)
    then some (not_positive "max_concurrent_running_items_per_token")
    else or_else (validate_rates p.max_events_per_item_per_hour_by_class) (
        if not (positive p.max_signal_items_per_token_per_hour)
        then some (not_positive "max_signal_items_per_token_per_hour")
        else check_patience p.patience_budgets)

abbrev default_rates : List (KindClass × ℤ)
default_rates =
    (KindClass.lifecycle, pos 120)
    ∷ (KindClass.decision, pos 120)
    ∷ (KindClass.progress, pos 240)
    ∷ []

abbrev patience_in_hours : ℕ → ℕ → ℕ → ℕ → ℕ → ℕ → List (WorkItemState × ℤ)
patience_in_hours captured triaged planned awaiting running blocked =
    (WorkItemState.captured, pos (captured * hour))
    ∷ (WorkItemState.triaged, pos (triaged * hour))
    ∷ (WorkItemState.planned, pos (planned * hour))
    ∷ (WorkItemState.awaiting_approval, pos (awaiting * hour))
    ∷ (WorkItemState.running, pos (running * hour))
    ∷ (WorkItemState.blocked, pos (blocked * hour))
    ∷ []

unfoldable pub default_policy : Policy
default_policy = record {
  max_request_body_bytes = pos 1_048_576;
  max_feed_wait = pos (60 * second);
  pool_max_conns = pos 10;
  pool_min_conns = pos 1;
  worker_tick_interval = pos (30 * second);
  patience_budgets = patience_in_hours 24 72 72 48 24 168;
  max_delegation_depth = pos 5;
  max_children_per_item = pos 32;
  max_concurrent_running_per_token = pos 8;
  max_events_per_item_per_hour_by_class = some default_rates;
  max_signal_items_per_token_per_hour = pos 30;
}

unfoldable pub bring_up_policy : Policy
bring_up_policy = record {
  max_request_body_bytes = pos 1_048_576;
  max_feed_wait = pos (60 * second);
  pool_max_conns = pos 4;
  pool_min_conns = pos 1;
  worker_tick_interval = pos (60 * second);
  patience_budgets = patience_in_hours 168 336 336 168 72 168;
  max_delegation_depth = pos 5;
  max_children_per_item = pos 32;
  max_concurrent_running_per_token = pos 8;
  max_events_per_item_per_hour_by_class = some default_rates;
  max_signal_items_per_token_per_hour = pos 10;
}

-- Profiles and ProfileByName
unfoldable pub profile_by_name : String → Option Policy
profile_by_name name =
    if str_eq name "steady"
    then some default_policy
    else if str_eq name "bring-up"
    then some bring_up_policy
    else none
