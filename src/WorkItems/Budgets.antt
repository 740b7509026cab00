-- ===== src/WorkItems/Budgets.antt =====
-- The xylem budgets of internal/workitems/service.go: how each is resolved, counted and enforced.
use meristem.Base.{
  ℕ, String, Option, none, some, List, [], ◌∷◌, ◌==◌, ltb, str_eq, if◌then◌else◌, concat, show_ℕ,
  trim_space,
}
use meristem.Domain.{Uuid, EscalationRule}
use meristem.Events.{SubjectKind, Created, Payload, Event, created}
use meristem.Feed.Taxonomy.{KindClass}
use meristem.Store.{Result, ok, err, invalid_request, unknown_cultivar, unclassified}
use meristem.WorkItems.{Env, Cultivar}

-- What work_item.created says of the launch; "" where a key is missing.
pub record Launch : Type 0 where
  pub cultivar : String
  pub escalation_rule : EscalationRule

abbrev or_empty : Option String → String
or_empty none = ""
or_empty (some s) = s

abbrev or_no_rule : Option EscalationRule → EscalationRule
or_no_rule none = EscalationRule.unknown ""
or_no_rule (some r) = r

abbrev created_of : Uuid → Event → SubjectKind → Payload → Option Created
created_of id e SubjectKind.work_item (created p) = if e.subject_id == id then some p else none
created_of id e _ _ = none

abbrev earlier : ℕ → Created → Option (ℕ × Created) → ℕ × Created
earlier at p none = (at, p)
earlier at p (some (at', p')) = if ltb at' at then (at', p') else (at, p)

abbrev note_created : Event → Option Created → Option (ℕ × Created) → Option (ℕ × Created)
note_created e none rest = rest
note_created e (some p) rest = some (earlier e.occurred_at p rest)

-- The work_item.created event of the item with the earliest time, the first of such.
unfoldable pub first_created : Uuid → List Event → Option (ℕ × Created)
first_created id [] = none
first_created id (e ∷ es) =
    note_created e (created_of id e e.subject_kind e.payload) (first_created id es)

launch_of : Option (ℕ × Created) → Launch
launch_of none = record { cultivar = ""; escalation_rule = EscalationRule.unknown "" }
launch_of (some (_, p)) = record {
  cultivar = trim_space (or_empty p.cultivar);
  escalation_rule = or_no_rule p.escalation_rule;
}

unfoldable pub work_item_launch_metadata : Uuid → List Event → Launch
unfolding launch_of
work_item_launch_metadata id log = launch_of (first_created id log)

-- childCountBudget, concurrentRunningBudget and eventRateBudget
pub record Budget : Type 0 where
  pub max : ℕ
  pub source : String
  pub cultivar : String
  pub escalation_rule : EscalationRule

unfoldable pub resolve_rule : EscalationRule → Result EscalationRule
resolve_rule EscalationRule.hand_to_human = ok EscalationRule.hand_to_human
resolve_rule (EscalationRule.unknown s) =
    if str_eq s ""
    then ok EscalationRule.hand_to_human
    else err (invalid_request "invalid escalation_rule")

abbrev cultivar_label : Cultivar → String
cultivar_label c = concat (c.name ∷ "@" ∷ show_ℕ c.version ∷ [])

with_cultivar : String → Option Cultivar → (Cultivar → ℕ) → Budget → Result Budget
with_cultivar ref none limit b = err (unknown_cultivar ref)
with_cultivar ref (some c) limit b =
    let label = cultivar_label c in
    if ltb 0 (limit c)
    then ok
        (record b { max = limit c; source = concat ("cultivar:" ∷ label ∷ []); cultivar = label })
    else ok (record b { cultivar = label })

resolve_with : Env → ℕ → (Cultivar → ℕ) → String → Result EscalationRule → Result Budget
unfolding with_cultivar
resolve_with env default limit ref (err e) = err e
resolve_with env default limit ref (ok rule) =
    let budget : Budget = record {
      max = default;
      source = "safety_policy";
      cultivar = "";
      escalation_rule = rule;
    } in
    if str_eq ref "" then ok budget else with_cultivar ref (env.get_cultivar ref) limit budget

resolve : Env → ℕ → (Cultivar → ℕ) → Launch → Result Budget
unfolding resolve_with
resolve env default limit meta =
    resolve_with env default limit meta.cultivar (resolve_rule meta.escalation_rule)

-- The limits of safety.DefaultPolicy.
abbrev pub default_max_children_per_item : ℕ
default_max_children_per_item = 32

abbrev pub default_max_concurrent_running_per_token : ℕ
default_max_concurrent_running_per_token = 8

abbrev pub default_max_events_per_hour : KindClass → ℕ
default_max_events_per_hour KindClass.lifecycle = 120
default_max_events_per_hour KindClass.decision = 120
default_max_events_per_hour KindClass.progress = 240
default_max_events_per_hour _ = 0

abbrev pub class_text : KindClass → String
class_text KindClass.lifecycle = "lifecycle"
class_text KindClass.decision = "decision"
class_text KindClass.progress = "progress"
class_text KindClass.admin = "admin"
class_text (KindClass.unknown s) = s

unfoldable pub resolve_child_count_budget : Env → Uuid → List Event → Result Budget
unfolding resolve
resolve_child_count_budget env id log =
    resolve env default_max_children_per_item (λ c. c.max_children_per_item)
      (work_item_launch_metadata id log)

unfoldable pub resolve_concurrent_running_budget : Env → Uuid → List Event → Result Budget
unfolding resolve
resolve_concurrent_running_budget env id log =
    resolve env default_max_concurrent_running_per_token (λ c. c.max_concurrent_running_per_token)
      (work_item_launch_metadata id log)

-- The rule is checked before the class: no default for the class is an error.
unfoldable pub resolve_event_rate_budget : Env → Uuid → KindClass → List Event → Result Budget
unfolding resolve
resolve_event_rate_budget env id class log =
    let meta = work_item_launch_metadata id log in
    if default_max_events_per_hour class == 0
    then elim (resolve_rule meta.escalation_rule) [ ok _ ↦ err unclassified | err e ↦ err e ]
    else resolve env (default_max_events_per_hour class)
        (λ c. c.max_events_per_hour (class_text class)) meta
