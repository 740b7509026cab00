-- ===== src/WorkItems/Graph/Calls.antt =====
-- The operations of internal/workitems/service.go keep work_item_relations a graph without cycles.
use meristem.Base.{
  [], ◌∷◌, subst, Bool, true, false, ◌||◌, String, Option, none, some, List, ◌≡◌, ◌≢◌, refl, sym,
  ◌∙◌, arith, ◌==◌, if◌then◌else◌, ap,
}
use mathlib.Core.Bool.{true≢false}
use meristem.Domain.{Uuid, Token, WorkItem, WorkItemState, HumanReviewStatus}
use meristem.Events.{Spec, Payload, Created}
use meristem.Feed.Taxonomy.{KindClass}
use meristem.Store.{
  Store, Error, Result, Tx, ok, err, pure, fail, relation_cycle, gets, lift, find_item, ◌>>=◌,
}
use meristem.Store.Keeps.{After, Keeps, Keeps-lift, Keeps-bind, Keeps-gets, Keeps-pure, keeps_rules}
use meristem.Store.Quiet.{Reads, Quiet-if, Quiet-pure, reads_rules}
use meristem.Store.Triples.{
  Triple, Triple-bind, Triple-weaken, Triple-fail, Triple-if, Triple-then, Triple-gets, Triple-pre,
  Triple-test, Triple-quiet, Keeps-Triple, Reads-Keeps,
}
use meristem.WorkItems.{Env, Context}
use meristem.WorkItems.Projectors.{has_relation}
use meristem.WorkItems.Projectors.Rows.{has_item, IsNoRelation}
use meristem.WorkItems.Ancestry.{child_is_ancestor_of}
use meristem.WorkItems.Ancestry.Decides.{child_is_ancestor_of_iff}
use meristem.WorkItems.Enforce.{
  enforce_child_count_budget, enforce_concurrent_running_budget, enforce_event_rate_budget,
  lock_actor_token, append_unless, append_classified, check_spec, append_with_rate_budget,
}
use meristem.WorkItems.Quiet.{child_budget-Quiet, running_budget-Quiet}
use meristem.WorkItems.Service.{
  CreateInput, prepare, build_created_payload, found, get_item, for_update, settle, create,
  add_child, spawn_child_with_id, with_fresh, update_metadata, move, transition, append_event,
  done_unless,
}
use meristem.WorkItems.Graph.{IsGraph, IsOpenFor, IsReady, HumansAreFresh}
use meristem.WorkItems.Graph.Appends.{append-IsGraph, append-IsOpenFor, relation-IsOpenFor}
use meristem.WorkItems.Graph.Budgets.{exhaust-IsGraph}

abbrev Graph : Store → Type 0
Graph s = IsGraph s.tables

found-id : (id : Uuid) (ws : List WorkItem) (w : WorkItem) → find_item id ws ≡ some w → w.id ≡ id
unfolding find_item
found-id id [] w h = absurd cc
found-id id (x ∷ ws) w h = ground (arith, found-id id ws w)

found-there :
    (id : Uuid) (ws : List WorkItem) (w : WorkItem)
    → find_item id ws ≡ some w
    → has_item ws id ≡ true
unfolding find_item
found-there id [] w h = absurd cc
found-there id (x ∷ ws) w h = ground (arith, found-there id ws w)

module _ (env : Env) where
  -- What a call starts from.
  pub record IsSound (s : Store) : Type 0 where
    pub graph : IsGraph s.tables
    pub humans : HumansAreFresh env s

  prepare-Reads : (input : CreateInput) → Reads (prepare env input)
  unfolding prepare build_created_payload
  prepare-Reads input = search reads_rules depth 12

  IsReady-Graph : (id : Uuid) (o : Option Error) → Triple (IsReady env id) (pure o) Graph
  IsReady-Graph id o = Triple-weaken (pure o) (λ s r. r.graph) (search keeps_rules)

  child_budget-Graph :
      (w : WorkItem) (child : Uuid) (title : String) (actor : Token)
      → Triple (IsReady env w.id) (enforce_child_count_budget env w child title actor) Graph
  unfolding enforce_child_count_budget
  child_budget-Graph w child title actor =
      search (Triple-then, keeps_rules, Triple-if, exhaust-IsGraph, IsReady-Graph) depth 12

  lock-Reads : (id : Uuid) → Reads (lock_actor_token id)
  unfolding lock_actor_token
  lock-Reads id = search reads_rules

  running_budget-Graph :
      (w : WorkItem) (actor : Token)
      → Triple (IsReady env w.id) (enforce_concurrent_running_budget env w actor) Graph
  unfolding enforce_concurrent_running_budget
  running_budget-Graph w actor =
      search
        (
          Triple-then, keeps_rules, Triple-if, exhaust-IsGraph, IsReady-Graph, lock-Reads,
          Reads-Keeps,
        )
        depth 12

  rate_budget-Graph :
      (w : WorkItem) (id : Uuid) (p : Payload) (inner : String) (c : KindClass) (actor : Token)
      → Triple (IsReady env w.id) (enforce_event_rate_budget env w id p inner c actor) Graph
  unfolding enforce_event_rate_budget
  rate_budget-Graph w id p inner c actor =
      search (Triple-then, keeps_rules, Triple-if, exhaust-IsGraph, IsReady-Graph) depth 12

  append_unless-Graph :
      (spec : Spec) (o : Option Error)
      → IsNoRelation spec.payload
      → Keeps Graph (append_unless env spec o)
  unfolding append_unless
  append_unless-Graph spec (some e) n = search keeps_rules
  append_unless-Graph spec none n = search (keeps_rules, append-IsGraph)

  append_classified-Graph :
      (w : WorkItem) (spec : Spec) (inner : String) (actor : Token) (c : Option KindClass)
      → IsNoRelation spec.payload
      → Triple (IsReady env w.id) (append_classified env w spec inner actor c) Graph
  unfolding append_classified
  append_classified-Graph w spec inner actor none n = Triple-fail _
  append_classified-Graph w spec inner actor (some c) n =
      Triple-bind _ _ (rate_budget-Graph w _ spec.payload inner c actor)
        λ o. Keeps-Triple (append_unless-Graph spec o n)

  check_spec-Reads : (o : Option Error) → Reads (check_spec o)
  unfolding check_spec
  check_spec-Reads none = search reads_rules
  check_spec-Reads (some e) = search reads_rules

  append_with_rate_budget-Graph :
      (w : WorkItem) (spec : Spec) (inner : String) (actor : Token)
      → IsNoRelation spec.payload
      → Triple (IsReady env w.id) (append_with_rate_budget env w spec inner actor) Graph
  unfolding append_with_rate_budget
  append_with_rate_budget-Graph w spec inner actor n =
      search
        (
          Triple-then, keeps_rules, Triple-if, Triple-fail, IsReady-Graph, append_classified-Graph,
          check_spec-Reads, Reads-Keeps,
        )
        depth 12

  After-found :
      {B : Type 0} (id : Uuid) (f : WorkItem → Tx B) (s : Store) (o : Option WorkItem)
      → ((w : WorkItem) → w.id ≡ id → Triple (IsReady env id) (f w) Graph)
      → IsSound s
      → find_item id s.items ≡ o
      → After Graph (elim (lift (found o) s) as (λ _. Result (B × Store)) [
        | ok (w, s') ↦ f w s'
        | err e ↦ err e
      ])
  unfolding found
  After-found id f s none k r e = tt
  After-found id f s (some w) k r e =
      (k w (found-id id s.items w e)).at s
        (record { graph = r.graph; there = found-there id s.items w e; humans = r.humans })

  for_update-Triple :
      {B : Type 0} (id : Uuid) (f : WorkItem → Tx B)
      → ((w : WorkItem) → w.id ≡ id → Triple (IsReady env id) (f w) Graph)
      → Triple IsSound (for_update id >>= f) Graph
  unfolding get_item
  for_update-Triple id f k = record { at = λ s r. After-found id f s _ k r refl }

  settle-Reads : (id : Uuid) (o : Option Error) → Reads (settle id o)
  unfolding settle
  settle-Reads id none = search reads_rules
  settle-Reads id (some e) = search reads_rules

  IsReady-at :
      {B : Type 0} {m : Tx B} (w : WorkItem) (id : Uuid)
      → w.id ≡ id
      → Triple (IsReady env w.id) m Graph
      → Triple (IsReady env id) m Graph
  IsReady-at {m = m} w id i k = subst (λ x. Triple (IsReady env x) m Graph) i k

  -- What update_metadata and append_event do with the item they found.
  append_settle-Graph :
      {B : Type 0} (w : WorkItem) (id : Uuid) (spec : Spec) (inner : String) (actor : Token)
      (f : Option Error → Tx B)
      → w.id ≡ id
      → IsNoRelation spec.payload
      → ((o : Option Error) → Reads (f o))
      → Triple (IsReady env id) (append_with_rate_budget env w spec inner actor >>= f) Graph
  append_settle-Graph w id spec inner actor f i n k = IsReady-at w id i (
      Triple-bind _ _ (append_with_rate_budget-Graph w spec inner actor n)
        λ o. Keeps-Triple (Reads-Keeps (k o)))

  pub update_metadata-Graph :
      (ctx : Context) (id : Uuid) (checks : List String) (review : HumanReviewStatus)
      (actor : Token)
      → Triple IsSound (update_metadata env ctx id checks review actor) Graph
  unfolding update_metadata
  update_metadata-Graph ctx id checks review actor =
      search (Triple-then, Keeps-lift, for_update-Triple, append_settle-Graph, settle-Reads) depth
        14

  done-Reads : (o : Option Error) → Reads (done_unless o)
  unfolding done_unless
  done-Reads none = search reads_rules
  done-Reads (some e) = search reads_rules

  pub append_event-Graph :
      (ctx : Context) (id : Uuid) (inner_kind inner : String) (actor : Token)
      → Triple IsSound (append_event env ctx id inner_kind inner actor) Graph
  unfolding append_event
  append_event-Graph ctx id inner_kind inner actor =
      Triple-if _ _ _ (Triple-fail _) (
        for_update-Triple id _ λ w i. append_settle-Graph w id _ inner_kind actor _ i tt done-Reads)

  pub IsSound-Graph : {A : Type 0} (m : Tx A) → Keeps Graph m → Triple IsSound m Graph
  IsSound-Graph m k = Triple-pre m (λ s r. r.graph) (Keeps-Triple k)

  pub create-Graph :
      (ctx : Context) (input : CreateInput) → Triple IsSound (create env ctx input) Graph
  unfolding create
  create-Graph ctx input = IsSound-Graph _ (
      Keeps-bind _ _ (Reads-Keeps (prepare-Reads input))
        λ payload. Keeps-bind _ _ (append-IsGraph env _ tt) λ _. Keeps-gets _)

  over-Graph :
      (b : Bool) (w : WorkItem) (actor : Token)
      → Triple
          (IsReady env w.id)
          (if b then enforce_concurrent_running_budget env w actor else pure none)
          Graph
  over-Graph b w actor = Triple-if b _ _ (running_budget-Graph w actor) (IsReady-Graph w.id none)

  move-Graph :
      (ctx : Context) (w : WorkItem) (id : Uuid) (to : WorkItemState) (reason : String)
      (actor : Token) (b : Bool)
      → Triple
          (IsReady env w.id)
          ((if b then enforce_concurrent_running_budget env w actor else pure none) >>= λ over.
            move env ctx w id to reason actor over >>= λ exhausted. settle id exhausted)
          Graph
  unfolding move
  move-Graph ctx w id to reason actor b =
      Triple-quiet _ _ (Quiet-if b _ _ (running_budget-Quiet env w actor) (Quiet-pure none))
        (over-Graph b w actor)
        (Triple-bind _ _ (append_with_rate_budget-Graph w _ "" actor tt)
          λ o. Keeps-Triple (Reads-Keeps (settle-Reads id o)))
        λ e.
          Keeps-Triple (Keeps-bind _ _ (Keeps-pure (some e)) λ o. Reads-Keeps (settle-Reads id o))

  move_at-Graph :
      (ctx : Context) (w : WorkItem) (id : Uuid) (to : WorkItemState) (reason : String)
      (actor : Token) (b : Bool)
      → w.id ≡ id
      → Triple
          (IsReady env id)
          ((if b then enforce_concurrent_running_budget env w actor else pure none) >>= λ over.
            move env ctx w id to reason actor over >>= λ exhausted. settle id exhausted)
          Graph
  move_at-Graph ctx w id to reason actor b i =
      IsReady-at w id i (move-Graph ctx w id to reason actor b)

  pub transition-Graph :
      (ctx : Context) (id : Uuid) (to : WorkItemState) (reason : String) (actor : Token)
      → Triple IsSound (transition env ctx id to reason actor) Graph
  unfolding transition
  transition-Graph ctx id to reason actor =
      search (Triple-if, Triple-fail, for_update-Triple, move_at-Graph) depth 14

  add_child-Graph :
      (p c : Uuid) (input : CreateInput) (payload : Created)
      → p ≢ c
      → Triple (λ s. IsOpenFor p c s.tables) (add_child env p c input payload none) Graph
  unfolding add_child
  add_child-Graph p c input payload ne =
      Triple-weaken _ (λ s o. o.graph)
        (Keeps-bind _ _ (append-IsOpenFor env _ p c tt) λ a.
          Keeps-bind _ _ (relation-IsOpenFor env _ p c ne refl) λ b.
            Keeps-bind _ _ (Keeps-gets (get_item c))
              λ item. Keeps-pure (with_fresh (a.1 || b.1) item))

  refused-Graph :
      (p c : Uuid) (input : CreateInput) (payload : Created) (e : Error)
      → Triple Graph (add_child env p c input payload (some e)) Graph
  unfolding add_child
  refused-Graph p c input payload e = Keeps-Triple (Keeps-pure _)

  -- What SpawnChildWithID has past its test for a cycle.
  abbrev IsTested : Uuid → Uuid → Store → Type 0
  IsTested p c s = IsReady env p s × IsOpenFor p c s.tables

  tested :
      (p c : Uuid) (s : Store)
      → IsReady env p s
      → (c == p || child_is_ancestor_of s.relations c p) ≡ false
      → (p ≢ c) × IsTested p c s
  tested p c s r t = (
    λ e. true≢false (sym (ground (arith, e)) ∙ t),
    (
      r,
      record {
        graph = r.graph;
        no_cycle = λ a.
            true≢false (sym ((child_is_ancestor_of_iff s.relations c p).1 a) ∙ ground (arith, t));
      },
    ),
  )

  spawn_budget-Graph :
      (w : WorkItem) (c : Uuid) (b : Bool) (input : CreateInput) (payload : Created)
      → w.id ≢ c
      → Triple
          (IsTested w.id c)
          ((if b then pure none else enforce_child_count_budget env w c input.title input.actor)
            >>= λ exhausted. add_child env w.id c input payload exhausted)
          Graph
  spawn_budget-Graph w c b input payload ne =
      Triple-quiet _ _
        (Quiet-if b _ _ (Quiet-pure none) (child_budget-Quiet env w c input.title input.actor))
        (Triple-pre _ (λ s r. r.0)
          (Triple-if b _ _ (IsReady-Graph w.id none)
            (child_budget-Graph w c input.title input.actor)))
        (Triple-pre _ (λ s r. r.1) (add_child-Graph w.id c input payload ne))
        λ e. refused-Graph w.id c input payload e

  spawn_tested-Graph :
      (w : WorkItem) (c : Uuid) (input : CreateInput) (payload : Created) (rel : List (Uuid × Uuid))
      → Triple
          (λ s. IsReady env w.id s × (s.relations ≡ rel))
          (if c == w.id || child_is_ancestor_of rel c w.id
            then fail relation_cycle
            else (if has_relation rel w.id c
                then pure none
                else enforce_child_count_budget env w c input.title input.actor)
              >>= λ exhausted. add_child env w.id c input payload exhausted)
          Graph
  spawn_tested-Graph w c input payload rel =
      Triple-test _ _ _ (λ _. Triple-fail _)
        λ t. record {
          at = λ s r.
              let x =
                tested w.id c s r.0
                  (ap (λ y. c == w.id || child_is_ancestor_of y c w.id) r.1 ∙ t) in
              (spawn_budget-Graph w c _ input payload x.0).at s x.1;
        }

  spawn_read-Graph :
      (w : WorkItem) (p c : Uuid) (input : CreateInput) (payload : Created)
      → w.id ≡ p
      → Triple
          (IsReady env p)
          (gets (λ s. s.relations) >>= λ rel.
            if c == p || child_is_ancestor_of rel c p
            then fail relation_cycle
            else (if has_relation rel p c
                then pure none
                else enforce_child_count_budget env w c input.title input.actor)
              >>= λ exhausted. add_child env p c input payload exhausted)
          Graph
  spawn_read-Graph w p c input payload i =
      subst
        (λ x.
          Triple (IsReady env x)
            (gets (λ s. s.relations) >>= λ rel.
              if c == x || child_is_ancestor_of rel c x
              then fail relation_cycle
              else (if has_relation rel x c
                  then pure none
                  else enforce_child_count_budget env w c input.title input.actor)
                >>= λ exhausted. add_child env x c input payload exhausted)
            Graph)
        i (Triple-gets _ _ λ rel. spawn_tested-Graph w c input payload rel)

  pub spawn_child_with_id-Graph :
      (p c : Uuid) (input : CreateInput) → Triple IsSound (spawn_child_with_id env p c input) Graph
  unfolding spawn_child_with_id
  spawn_child_with_id-Graph p c input =
      search
        (
          Triple-then, prepare-Reads, Reads-Keeps, Triple-if, Triple-fail, for_update-Triple,
          spawn_read-Graph,
        )
        depth 14
