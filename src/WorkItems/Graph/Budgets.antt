-- ===== src/WorkItems/Graph/Budgets.antt =====
-- The escalation of an exhausted budget keeps the graph of relations: its human work item is new.
use meristem.Base.{
  Bool, true, false, String, List, ◌≡◌, ◌≢◌, refl, sym, ◌∙◌, subst, any_prefix, ◌++◌, if◌then◌else◌,
  ap,
}
use mathlib.Core.Bool.{true≢false}
use meristem.Domain.{WorkItemState, state_eq, Uuid, Token, WorkItem, EscalationRule}
use meristem.Events.{Event, SubjectKind, relation_added, Exhaustion, xylem_exhausted, Spec}
use meristem.Store.{Tables, Store, pure, ◌>>◌}
use meristem.Store.Keeps.{Keeps, Keeps-bind, Keeps-if, Keeps-pure, After, keeps_rules}
use meristem.Store.Triples.{Triple, Triple-bind, Triple-weaken, Keeps-Triple}
use meristem.WorkItems.{Env}
use meristem.WorkItems.Writer.{append}
use meristem.WorkItems.Writer.Replay.{append-Keeps}
use meristem.WorkItems.Ancestry.{Ancestor, parent, above}
use meristem.WorkItems.Projectors.Rows.{exhausted-rows, has_item, IsNoRelation}
use meristem.WorkItems.Escalation.{
  blocked_payload, request_payload, human_item_payload, spec_of, append_escalation,
  request_xylem_escalation, escalation_exists,
}
use meristem.WorkItems.Enforce.{exhaust, check_rule}
use meristem.WorkItems.Graph.{IsGraph, IsOpenFor, IsReady}
use meristem.WorkItems.Graph.Appends.{append-IsOpenFor, relation-IsOpenFor}

-- A row that is no end of a relation is nobody's ancestor.
pub absent_no-Ancestor :
    {t : Tables} {c x : Uuid} → IsGraph t → has_item t.items c ≡ false → ¬ Ancestor t.relations c x
absent_no-Ancestor {c = c} g h (parent {x = x} r) = true≢false (sym (g.parent_row c x r) ∙ h)
absent_no-Ancestor {c = c} g h (above {b = b} r k) = true≢false (sym (g.parent_row c b r) ∙ h)

not_requested_before :
    (id : Uuid) (es fs : List Event)
    → escalation_exists id (es ++ fs) ≡ false
    → escalation_exists id es ≡ false
unfolding escalation_exists
not_requested_before id es fs h = any_prefix _ es fs h

module _ (env : Env) (w : WorkItem) where
  append_escalation-Keeps :
      {P : Store → Type 0} (reason summary : String) (actor : Token)
      → ((spec : Spec) → IsNoRelation spec.payload → Keeps P (append env spec))
      → Keeps P (
          append env (
            spec_of actor SubjectKind.work_item w.id
              (relation_added w.id (env.human_work_item_id (env.escalation_id w.id reason summary)))
              ""))
      → Keeps P (append_escalation env w reason summary actor)
  unfolding append_escalation request_payload human_item_payload
  append_escalation-Keeps reason summary actor keep relation = Keeps-bind _ _ (keep _ tt) λ _.
      Keeps-bind _ _ (keep _ tt) λ _. Keeps-bind _ _ relation λ _. Keeps-bind _ _ (keep _ tt) λ _.
        let blocked = spec_of actor SubjectKind.work_item w.id (blocked_payload w reason) "" in
        Keeps-if (state_eq w.state WorkItemState.blocked) (pure tt) (append env blocked >> pure tt)
          (Keeps-pure tt)
          (Keeps-bind (append env blocked) (λ _. pure tt) (keep blocked tt) λ _. Keeps-pure tt)

  append_escalation-IsOpenFor :
      (reason summary : String) (actor : Token)
      → w.id ≢ env.human_work_item_id (env.escalation_id w.id reason summary)
      → Keeps
          (λ s.
            IsOpenFor w.id
              (env.human_work_item_id (env.escalation_id w.id reason summary))
              s.tables)
          (append_escalation env w reason summary actor)
  append_escalation-IsOpenFor reason summary actor ne =
      append_escalation-Keeps reason summary actor (λ spec. append-IsOpenFor env spec w.id _)
        (relation-IsOpenFor env _ w.id _ ne refl)

  not_human :
      (s : Store) (id : Uuid)
      → IsReady env w.id s
      → escalation_exists id s.events ≡ false
      → w.id ≢ env.human_work_item_id id
  not_human s id r e i = true≢false (sym r.there ∙ ap (has_item s.items) i ∙ r.humans id e)

  IsOpenFor-human :
      (s : Store) (id : Uuid)
      → IsReady env w.id s
      → escalation_exists id s.events ≡ false
      → IsOpenFor w.id (env.human_work_item_id id) s.tables
  IsOpenFor-human s id r e = record {
    graph = r.graph;
    no_cycle = absent_no-Ancestor r.graph (r.humans id e);
  }

  escalation_if-IsGraph :
      (reason summary : String) (actor : Token) (s : Store) (b : Bool)
      → IsReady env w.id s
      → escalation_exists (env.escalation_id w.id reason summary) s.events ≡ b
      → After
          (λ s'. IsGraph s'.tables)
          ((if b then pure tt else append_escalation env w reason summary actor) s)
  escalation_if-IsGraph reason summary actor s true r e = r.graph
  escalation_if-IsGraph reason summary actor s false r e =
      (Triple-weaken _ (λ s' o. o.graph)
          (append_escalation-IsOpenFor reason summary actor (not_human s _ r e))).at
        s (IsOpenFor-human s _ r e)

  escalation-IsGraph :
      (reason summary : String) (actor : Token)
      → Triple
          (IsReady env w.id)
          (request_xylem_escalation env w reason summary actor)
          (λ s. IsGraph s.tables)
  unfolding request_xylem_escalation
  escalation-IsGraph reason summary actor = record {
    at = λ s r. escalation_if-IsGraph reason summary actor s _ r refl;
  }

  exhausted-IsReady :
      (x : Exhaustion) (actor : Token)
      → Keeps
          (IsReady env w.id)
          (append env (spec_of actor SubjectKind.work_item w.id (xylem_exhausted x) ""))
  exhausted-IsReady x actor = append-Keeps _ env _ λ s t r n v e.
      let same = exhausted-rows _ s.tables t x refl e in
      record {
        graph = subst IsGraph (sym same) r.graph;
        there = ap (λ y. has_item y.items w.id) same ∙ r.there;
        humans = λ id a.
            ap (λ y. has_item y.items (env.human_work_item_id id)) same
            ∙ r.humans id (not_requested_before id s.events _ a);
      }

  check_rule-IsReady : (r : EscalationRule) → Keeps (IsReady env w.id) (check_rule r)
  unfolding check_rule
  check_rule-IsReady EscalationRule.hand_to_human = search keeps_rules
  check_rule-IsReady _ = search keeps_rules

  pub exhaust-IsGraph :
      (x : Exhaustion) (r : EscalationRule) (reason summary : String) (actor : Token)
      → Triple (IsReady env w.id) (exhaust env w x r reason summary actor) (λ s. IsGraph s.tables)
  unfolding exhaust
  exhaust-IsGraph x r reason summary actor =
      Triple-bind _ _ (Keeps-Triple (exhausted-IsReady x actor)) λ _.
        Triple-bind _ _ (Keeps-Triple (check_rule-IsReady r)) λ _.
          Triple-bind _ _ (escalation-IsGraph reason summary actor)
            λ _. Keeps-Triple (search keeps_rules)
