-- ===== src/WorkItems/Graph/Appends.antt =====
-- What one append does to the graph of relations.
use meristem.Base.{true, [], ◌∷◌, ◌++◌, ◌≡◌, ◌≢◌, inl, inr, sym, ◌∙◌, ap, subst}
use meristem.Domain.{Uuid}
use meristem.Events.{Spec, relation_added}
use meristem.Store.{Tables}
use meristem.Store.Keeps.{Keeps}
use meristem.WorkItems.{Env}
use meristem.WorkItems.Writer.{append}
use meristem.WorkItems.Writer.Replay.{append-Keeps}
use meristem.WorkItems.Projectors.{has_relation}
use meristem.WorkItems.Projectors.Rows.{
  has_item, IsNoRelation, KeepsRows, project-rows, relation-rows,
}
use meristem.WorkItems.Ancestry.{Ancestor}
use meristem.WorkItems.Ancestry.Acyclic.{IsAcyclic, IsAcyclic-add, Ancestor-cases, added_cases}
use meristem.WorkItems.Graph.{IsGraph, IsOpenFor}

module _ (t t' : Tables) (k : KeepsRows t t') where
  rows-IsGraph : IsGraph t → IsGraph t'
  rows-IsGraph g = record {
    acyclic = subst IsAcyclic (sym k.relations) g.acyclic;
    parent_row = λ a x h. k.kept a (g.parent_row a x (rw k.relations at h));
    child_row = λ a x h. k.kept x (g.child_row a x (rw k.relations at h));
  }

  rows-IsOpenFor : (p c : Uuid) → IsOpenFor p c t → IsOpenFor p c t'
  rows-IsOpenFor p c o = record {
    graph = rows-IsGraph o.graph;
    no_cycle = λ h. o.no_cycle (subst (λ r. Ancestor r c p) k.relations h);
  }

module _ (p c : Uuid) (t : Tables) (ne : p ≢ c) (o : IsOpenFor p c t)
    (hp : has_item t.items p ≡ true) (hc : has_item t.items c ≡ true) where
  no_cycle-add : ¬ Ancestor (t.relations ++ (p, c) ∷ []) c p
  no_cycle-add h = elim (Ancestor-cases t.relations p c h) [
    | inl old ↦ o.no_cycle old
    | inr (inl e, _) ↦ ne (sym e)
    | inr (inr a, _) ↦ o.no_cycle a
  ]

  parent_row-add :
      (a x : Uuid)
      → has_relation (t.relations ++ (p, c) ∷ []) a x ≡ true
      → has_item t.items a ≡ true
  parent_row-add a x h = elim (added_cases t.relations p c a x h) [
    | inl old ↦ o.graph.parent_row a x old
    | inr (e, _) ↦ ap (has_item t.items) e ∙ hp
  ]

  child_row-add :
      (a x : Uuid)
      → has_relation (t.relations ++ (p, c) ∷ []) a x ≡ true
      → has_item t.items x ≡ true
  child_row-add a x h = elim (added_cases t.relations p c a x h) [
    | inl old ↦ o.graph.child_row a x old
    | inr (_, e) ↦ ap (has_item t.items) e ∙ hc
  ]

  IsOpenFor-add : IsOpenFor p c (record t { relations = t.relations ++ (p, c) ∷ [] })
  IsOpenFor-add = record {
    graph = record {
      acyclic = IsAcyclic-add t.relations p c o.graph.acyclic ne o.no_cycle;
      parent_row = parent_row-add;
      child_row = child_row-add;
    };
    no_cycle = no_cycle-add;
  }

module _ (env : Env) (spec : Spec) where
  pub append-IsGraph : IsNoRelation spec.payload → Keeps (λ s. IsGraph s.tables) (append env spec)
  append-IsGraph n =
      append-Keeps _ env spec
        λ s t h _ v e. rows-IsGraph s.tables t (project-rows _ s.tables t n e) h

  pub append-IsOpenFor :
      (p c : Uuid)
      → IsNoRelation spec.payload
      → Keeps (λ s. IsOpenFor p c s.tables) (append env spec)
  append-IsOpenFor p c n =
      append-Keeps _ env spec
        λ s t h _ v e. rows-IsOpenFor s.tables t (project-rows _ s.tables t n e) p c h

  pub relation-IsOpenFor :
      (p c : Uuid)
      → p ≢ c
      → spec.payload ≡ relation_added p c
      → Keeps (λ s. IsOpenFor p c s.tables) (append env spec)
  relation-IsOpenFor p c ne i = append-Keeps _ env spec λ s t h _ v e.
      elim (relation-rows _ s.tables t p c i e) [
        | inl same ↦ subst (IsOpenFor p c) (sym same) h
        | inr (new, hp, hc) ↦
            subst (IsOpenFor p c) (sym new) (IsOpenFor-add p c s.tables ne h hp hc)
      ]
