-- ===== src/WorkItems/Projectors/Rows.antt =====
-- The relations and the rows that an event adds; none goes.
use meristem.Base.{
  String, Bool-cases, Bool, true, List, [], ◌∷◌, ◌++◌, ◌≡◌, ◌⊎◌, inl, inr, refl, ◌==◌, arith, any,
  any-append,
}
use meristem.Domain.{Uuid, WorkItem, WorkItemState, HumanReviewStatus}
use meristem.Events.{
  Event, Exhaustion, xylem_exhausted, SubjectKind, Created, Metadata, Payload, created,
  transitioned, event_appended, relation_added, metadata_updated, checks_proposed,
}
use meristem.Store.{Result, Tables, ok, err, find_item}
use meristem.WorkItems.Projectors.{
  project, project_payload, update_item, has_relation, is_some_item, apply_created, insert_item,
  apply_transitioned, apply_relation_added, apply_metadata_updated, apply_checks_proposed,
  move_item, touch_item, describe_item, ◌>>=◌, normalize_checks, normalize_review, new_item,
  default_state,
}

abbrev pub has_item : List WorkItem → Uuid → Bool
has_item ws id = any (λ w. w.id == id) ws

pub find_item-has :
    (id : Uuid) (ws : List WorkItem) → is_some_item (find_item id ws) ≡ has_item ws id
unfolding find_item
find_item-has id [] = refl
find_item-has id (w ∷ ws) = ground (arith, find_item-has id ws)

has_item-update :
    (f : WorkItem → WorkItem) (id k : Uuid) (ws : List WorkItem)
    → ((w : WorkItem) → (f w).id ≡ w.id)
    → has_item (update_item id f ws) k ≡ has_item ws k
unfolding update_item
has_item-update f id k [] h = refl
has_item-update f id k (w ∷ ws) h = ground (arith, h w, has_item-update f id k ws h)

abbrev pub IsNoRelation : Payload → Type 0
IsNoRelation (relation_added _ _) = ⊥
IsNoRelation _ = Unit

-- From `t` to `t'` no relation comes or goes, and no item goes.
pub record KeepsRows (t t' : Tables) : Type 0 where
  pub relations : t'.relations ≡ t.relations
  pub kept : (k : Uuid) → has_item t.items k ≡ true → has_item t'.items k ≡ true

module _ (e : Event) (t t' : Tables) where
  insert_item-rows : (w : WorkItem) → insert_item w t ≡ ok t' → KeepsRows t t'
  unfolding insert_item
  insert_item-rows w h = record {
    relations = ground arith;
    kept = λ k i. ground (arith, any-append (λ x. x.id == k) t.items (w ∷ []));
  }

  update_item-rows :
      (f : WorkItem → WorkItem)
      → ((w : WorkItem) → (f w).id ≡ w.id)
      → record t { items = update_item e.subject_id f t.items } ≡ t'
      → KeepsRows t t'
  update_item-rows f i h = record {
    relations = ground (arith, h);
    kept = λ k j. ground (arith, h, has_item-update f e.subject_id k t.items i);
  }

  created-rows :
      (c : Created) (a : Result (List String)) (b : Result HumanReviewStatus)
      → (a >>= λ checks.
          b >>= λ review. insert_item (new_item e c (default_state c.state) checks review) t)
        ≡ ok t'
      → KeepsRows t t'
  created-rows c (ok checks) (ok review) h = insert_item-rows _ h
  created-rows c (ok checks) (err x) h = absurd cc
  created-rows c (err x) b h = absurd cc

  created_payload-rows : (c : Created) → apply_created e c t ≡ ok t' → KeepsRows t t'
  unfolding apply_created
  created_payload-rows c h =
      created-rows c (normalize_checks c.checks) (normalize_review c.human_review_status)
        (ground (arith, h))

  metadata-rows :
      (a : Result (List String)) (b : Result HumanReviewStatus)
      → (a >>= λ checks. b >>= λ review. ok (record t {
        items = update_item e.subject_id (describe_item checks review e.occurred_at) t.items;
      }))
        ≡ ok t'
      → KeepsRows t t'
  metadata-rows (ok checks) (ok review) h =
      update_item-rows (describe_item checks review e.occurred_at) (λ w. refl) cc
  metadata-rows (ok checks) (err x) h = absurd cc
  metadata-rows (err x) b h = absurd cc

  metadata_updated-rows : (to : Metadata) → apply_metadata_updated e to t ≡ ok t' → KeepsRows t t'
  unfolding apply_metadata_updated
  metadata_updated-rows to h =
      metadata-rows (normalize_checks to.checks) (normalize_review to.human_review_status) h

  checks_proposed-rows : (k : SubjectKind) → apply_checks_proposed e k t ≡ ok t' → KeepsRows t t'
  unfolding apply_checks_proposed
  checks_proposed-rows SubjectKind.work_item h =
      update_item-rows (touch_item e.occurred_at) (λ w. refl) cc
  checks_proposed-rows _ h = absurd cc

  project_payload-rows :
      (p : Payload) → IsNoRelation p → project_payload e p t ≡ ok t' → KeepsRows t t'
  unfolding project_payload apply_transitioned
  project_payload-rows (created c) n h = created_payload-rows c h
  project_payload-rows (transitioned from to reason) n h =
      update_item-rows (move_item from to reason e.occurred_at) (λ w. refl) (ground arith)
  project_payload-rows (event_appended _ _) n h =
      update_item-rows (touch_item e.occurred_at) (λ w. refl) cc
  project_payload-rows (relation_added _ _) n h = absurd n
  project_payload-rows (metadata_updated _ to) n h = metadata_updated-rows to h
  project_payload-rows (checks_proposed _) n h = checks_proposed-rows e.subject_kind h
  project_payload-rows _ n h = record { relations = ground arith; kept = λ k i. ground arith }

  pub project-rows : IsNoRelation e.payload → project e t ≡ ok t' → KeepsRows t t'
  unfolding project
  project-rows n h = project_payload-rows e.payload n h

  relation_added-cases :
      (p c : Uuid)
      → apply_relation_added p c t ≡ ok t'
      → (t' ≡ t)
        ⊎ ((t' ≡ record t { relations = t.relations ++ (p, c) ∷ [] })
            × (has_item t.items p ≡ true)
            × (has_item t.items c ≡ true))
  unfolding apply_relation_added
  relation_added-cases p c h = elim (Bool-cases (has_relation t.relations p c)) [
    | inl e ↦ inl (ground (arith, e))
    | inr e ↦ inr (
      ground (arith, e),
      ground (arith, e, find_item-has p t.items),
      ground (arith, e, find_item-has c t.items),
    )
  ]

  -- A relation that comes is the event's, and both its items are there.
  pub relation-rows :
      (p c : Uuid)
      → e.payload ≡ relation_added p c
      → project e t ≡ ok t'
      → (t' ≡ t)
        ⊎ ((t' ≡ record t { relations = t.relations ++ (p, c) ∷ [] })
            × (has_item t.items p ≡ true)
            × (has_item t.items c ≡ true))
  unfolding project project_payload
  relation-rows p c i h = relation_added-cases p c (rw i at h)

  exhausted_payload-rows :
      (x : Exhaustion) → project_payload e (xylem_exhausted x) t ≡ ok t' → t' ≡ t
  unfolding project_payload
  exhausted_payload-rows x k = cc

  -- The event of an exhausted budget changes no row.
  pub exhausted-rows :
      (x : Exhaustion) → e.payload ≡ xylem_exhausted x → project e t ≡ ok t' → t' ≡ t
  unfolding project
  exhausted-rows x i h = exhausted_payload-rows x (rw i at h)

  transitioned_payload-rows :
      (from to : WorkItemState) (reason : String)
      → project_payload e (transitioned from to reason) t ≡ ok t'
      → t' ≡ record t {
        items = update_item e.subject_id (move_item from to reason e.occurred_at) t.items;
      }
  unfolding project_payload apply_transitioned
  transitioned_payload-rows from to reason k = ground arith

  -- A transition moves its item and changes nothing else.
  pub transitioned-rows :
      (from to : WorkItemState) (reason : String)
      → e.payload ≡ transitioned from to reason
      → project e t ≡ ok t'
      → t' ≡ record t {
        items = update_item e.subject_id (move_item from to reason e.occurred_at) t.items;
      }
  unfolding project
  transitioned-rows from to reason i h = transitioned_payload-rows from to reason (rw i at h)
