-- ===== src/Crossnode/Selected.antt =====
-- What Select of internal/crossnode/select.go leaves out of all routes.
use meristem.Base.{
  ℕ, ◌+◌, ◌<◌, ◌≤◌, suc, String, Bool, true, false, ◌&&◌, ◌||◌, not, Option, none, some, List, [],
  ◌∷◌, ◌++◌, ◌≡◌, ◌⊎◌, inl, inr, refl, sym, ◌∙◌, ap, arith, any, str_eq, eq_iff, eq_refl,
  if◌then◌else◌, Bool-cases, leb,
}
use meristem.Base as Base
use meristem.Crossnode.{
  Node, Candidate, CandidateKind, relay, queue, ok, Cooldowns, failed_at, cooling, by_id, add, hop,
  hops, direct_route, found_routes, select_from, select,
}

abbrev pub has_key : List Candidate → String → Bool
has_key cs key = any (λ c. str_eq c.route_key key) cs

-- The routes with no regard to cooldowns.
abbrev all_hops : List Node → CandidateKind → String → List String → List Candidate
all_hops nodes kind target vias = hops nodes [] 0 kind target vias

abbrev pub open_at : Cooldowns → ℕ → List Candidate → List Candidate
open_at cooldowns now cs = Base.select (λ c. not (cooling cooldowns c.route_key now)) cs

never_cooling : (key : String) (now : ℕ) → cooling [] key now ≡ false
unfolding cooling failed_at
never_cooling key now = refl

select-append {ℓ} :
    {A : Type ℓ} (p : A → Bool) (xs ys : List A)
    → Base.select p (xs ++ ys) ≡ Base.select p xs ++ Base.select p ys
select-append p [] ys = refl
select-append p (x ∷ xs) ys = ground (arith, select-append p xs ys)

module _ (cooldowns : Cooldowns) (now : ℕ) where
  add_lem :
      (c : Candidate) (rest : List Candidate)
      → add cooldowns now c (open_at cooldowns now rest) ≡ open_at cooldowns now (add [] 0 c rest)
  add_lem c rest = rw (never_cooling c.route_key 0) (ground arith)

  with_url :
      (b : Bool) (c : Candidate) (rest : List Candidate)
      → (if b then open_at cooldowns now rest else add cooldowns now c (open_at cooldowns now rest))
        ≡ open_at cooldowns now (if b then rest else add [] 0 c rest)
  with_url true c rest = refl
  with_url false c rest = add_lem c rest

  hop_lem :
      (kind : CandidateKind) (target via : String) (o : Option Node) (rest : List Candidate)
      → hop cooldowns now kind target via o (open_at cooldowns now rest)
        ≡ open_at cooldowns now (hop [] 0 kind target via o rest)
  hop_lem kind target via none rest = refl
  hop_lem kind target via (some peer) rest = with_url (str_eq _ "") _ rest

  hops_lem :
      (nodes : List Node) (kind : CandidateKind) (target : String) (vias : List String)
      → hops nodes cooldowns now kind target vias
        ≡ open_at cooldowns now (all_hops nodes kind target vias)
  unfolding hops
  hops_lem nodes kind target [] = refl
  hops_lem nodes kind target (via ∷ vias) =
      ap (hop cooldowns now kind target via (by_id via nodes)) (hops_lem nodes kind target vias)
      ∙ hop_lem kind target via (by_id via nodes) (all_hops nodes kind target vias)

  direct_lem :
      (target : String) (node : Node)
      → direct_route cooldowns now target node
        ≡ open_at cooldowns now (direct_route [] 0 target node)
  unfolding direct_route
  direct_lem target node = with_url (str_eq _ "") _ []

-- All routes to a node, open or not.
pub all_routes : List Node → String → Node → List Candidate
all_routes nodes target node =
    direct_route [] 0 target node
    ++ (all_hops nodes relay target node.relay_via ++ all_hops nodes queue target node.relay_via)

pub select_found :
    (nodes : List Node) (target : String) (cooldowns : Cooldowns) (now : ℕ) (node : Node)
    → by_id target nodes ≡ some node
    → select nodes target cooldowns now
      ≡ found_routes (open_at cooldowns now (all_routes nodes target node))
unfolding select select_from all_routes
select_found nodes target cooldowns now node h = rw h (
    ap found_routes (
      sym (
        select-append _ (direct_route [] 0 target node) _
        ∙ (rw (
          select-append (λ c. not (cooling cooldowns c.route_key now))
              (all_hops nodes relay target node.relay_via)
              (all_hops nodes queue target node.relay_via),
          ← direct_lem cooldowns now target node,
          ← hops_lem cooldowns now nodes relay target node.relay_via,
          ← hops_lem cooldowns now nodes queue target node.relay_via,
        )))))

refused :
    (nodes : List Node) (target : String) (cooldowns : Cooldowns) (now : ℕ) {cs : List Candidate}
    → select_from nodes target cooldowns now none ≡ ok cs
    → ⊥
unfolding select_from
refused nodes target cooldowns now h = cc

pub select_known :
    (nodes : List Node) (target : String) (cooldowns : Cooldowns) (now : ℕ) {cs : List Candidate}
    → select nodes target cooldowns now ≡ ok cs
    → (node : Node) × (by_id target nodes ≡ some node)
unfolding select
select_known nodes target cooldowns now h = known (by_id target nodes) h
  where
    known :
        (o : Option Node) {cs : List Candidate}
        → select_from nodes target cooldowns now o ≡ ok cs
        → (node : Node) × (o ≡ some node)
    known none h = absurd (refused nodes target cooldowns now h)
    known (some node) h = (node, refl)
