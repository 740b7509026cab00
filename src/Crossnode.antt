-- ===== src/Crossnode.antt =====
-- internal/crossnode: which routes a command takes to its home node (select.go), the walk over them
-- (deliver.go), and what a node does with a command that it receives (internal/api/crossnode.go).
-- Times are nanoseconds.
pub mod Deliver
pub mod Selected
pub mod Retry
pub mod Answers
pub mod Queue
pub mod Examples
use meristem.Base.{
  ℕ, ◌+◌, ◌*◌, String, Bool, true, false, ◌&&◌, ◌||◌, not, Option, none, some, List, [], ◌∷◌, ◌++◌,
  ltb, str_eq, if◌then◌else◌, is_empty, concat,
}

-- domain.Node, as far as the routes read it.
pub record Node : Type 0 where
  pub node_id : String
  pub direct_url : Option String
  pub relay_via : List String

pub data CandidateKind : Type 0 where
  direct relay queue : CandidateKind

abbrev kind_name : CandidateKind → String
kind_name direct = "direct"
kind_name relay = "relay"
kind_name queue = "queue"

pub record Candidate : Type 0 where
  pub kind : CandidateKind
  pub url : String
  pub via : String
  pub route_key : String

pub data RouteError : Type 0 where
  unknown_target no_route : RouteError

pub data Routes : Type 0 where
  ok : List Candidate → Routes
  err : RouteError → Routes

-- When each route failed last, the latest entry first.
abbrev pub Cooldowns : Type 0
Cooldowns = List (String × ℕ)

unfoldable pub failed_at : String → Cooldowns → Option ℕ
failed_at key [] = none
failed_at key ((k, at) ∷ rest) = if str_eq k key then some at else failed_at key rest

abbrev pub cooldown_window : ℕ
cooldown_window = 60 * 1_000_000_000

abbrev pub before_end : ℕ → Option ℕ → Bool
before_end now none = false
before_end now (some at) = ltb now (at + cooldown_window)

unfoldable pub cooling : Cooldowns → String → ℕ → Bool
cooling cooldowns key now = before_end now (failed_at key cooldowns)

unfoldable pub route_key : CandidateKind → String → String → String
route_key kind target via =
    if str_eq via ""
    then concat (kind_name kind ∷ "|" ∷ target ∷ [])
    else concat (kind_name kind ∷ "|" ∷ target ∷ "|" ∷ via ∷ [])

-- byID[id]: a later node of the same id takes the place of an earlier one.
abbrev later : Option Node → Option Node → Option Node
later (some m) earlier = some m
later none earlier = earlier

unfoldable pub by_id : String → List Node → Option Node
by_id id [] = none
by_id id (n ∷ ns) = later (by_id id ns) (if str_eq n.node_id id then some n else none)

abbrev deref : Option String → String
deref none = ""
deref (some s) = s

-- The add of Select.
abbrev pub add : Cooldowns → ℕ → Candidate → List Candidate → List Candidate
add cooldowns now c rest = if cooling cooldowns c.route_key now then rest else c ∷ rest

abbrev pub hop :
    Cooldowns → ℕ → CandidateKind → String → String → Option Node → List Candidate → List Candidate
hop cooldowns now kind target via none rest = rest
hop cooldowns now kind target via (some peer) rest =
    let url = deref peer.direct_url in
    if str_eq url ""
    then rest
    else add cooldowns now
        (record { kind = kind; url = url; via = via; route_key = route_key kind target via }) rest

-- The loops of Select over relay_via.
unfoldable pub hops :
    List Node → Cooldowns → ℕ → CandidateKind → String → List String → List Candidate
hops nodes cooldowns now kind target [] = []
hops nodes cooldowns now kind target (via ∷ vias) =
    hop cooldowns now kind target via (by_id via nodes) (hops nodes cooldowns now kind target vias)

unfoldable pub direct_route : Cooldowns → ℕ → String → Node → List Candidate
direct_route cooldowns now target node =
    let url = deref node.direct_url in
    if str_eq url ""
    then []
    else add cooldowns now
        (record { kind = direct; url = url; via = ""; route_key = route_key direct target "" }) []

abbrev pub found_routes : List Candidate → Routes
found_routes [] = err no_route
found_routes (c ∷ cs) = ok (c ∷ cs)

unfoldable pub select_from : List Node → String → Cooldowns → ℕ → Option Node → Routes
select_from nodes target cooldowns now none = err unknown_target
select_from nodes target cooldowns now (some node) = found_routes (
    direct_route cooldowns now target node
    ++ (hops nodes cooldowns now relay target node.relay_via
        ++ hops nodes cooldowns now queue target node.relay_via))

-- Select
unfoldable pub select : List Node → String → Cooldowns → ℕ → Routes
unfolding select_from
select nodes target cooldowns now = select_from nodes target cooldowns now (by_id target nodes)
