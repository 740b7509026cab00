-- ===== src/Crossnode/Deliver.antt =====
-- internal/crossnode/deliver.go: the walk over the routes. What the network answers is given: the
-- answer to the request of each attempt, by its number.
use meristem.Base.{
  ℕ, suc, String, Bool, true, false, ◌&&◌, not, Option, none, some, List, [], ◌∷◌, ◌++◌, leb,
  str_eq, if◌then◌else◌, ◌==◌,
}
use meristem.Crossnode.{CandidateKind, relay, queue, Candidate, Cooldowns}
use Prim.Native.String as Str
use Prim.Native.Char.{code}

pub record Command : Type 0 where
  pub target_node_id : String
  pub idempotency_key : String
  pub path : String
  pub body : String

-- What post sends: the headers that are set, and the body.
pub record Post : Type 0 where
  pub url : String
  pub idempotency_key : String
  pub relayed : Bool
  pub queue_for : Option String
  pub body : String

-- A transport failure, or a status with the body as read.
pub data Response : Type 0 where
  failed : Response
  answered : ℕ → String → Response

abbrev is_slash : ℕ → Bool
is_slash c = c == b'/'

-- strings.TrimRight(url, "/")
unfoldable pub trim_slashes : String → String
trim_slashes Str.[] = ""
trim_slashes (Str.◌∷◌ c s) =
    let rest = trim_slashes s in if is_slash (code c) && str_eq rest "" then "" else Str.◌∷◌ c rest

abbrev is_relay : CandidateKind → Bool
is_relay relay = true
is_relay _ = false

abbrev queue_target : CandidateKind → String → Option String
queue_target queue target = some target
queue_target _ target = none

unfoldable pub post_of : Candidate → Command → String → Post
unfolding trim_slashes
post_of c req body = record {
  url = Str.◌++◌ (trim_slashes c.url) "/v1/crossnode/commands";
  idempotency_key = req.idempotency_key;
  relayed = is_relay c.kind;
  queue_for = queue_target c.kind req.target_node_id;
  body = body;
}

pub record Attempt : Type 0 where
  pub candidate : Candidate
  pub response : Response
  pub cooled_down : Bool

pub record Outcome : Type 0 where
  pub delivered : Bool
  pub terminal : Option Candidate
  pub status_code : ℕ
  pub body : String
  pub cooldowns : Cooldowns
  pub attempts : List Attempt

pub data DeliverError : Type 0 where
  marshal_failed all_routes_failed : DeliverError

-- A transport failure or a status from 500 on.
abbrev pub gives_up : Response → Bool
gives_up failed = true
gives_up (answered status body) = leb 500 status

abbrev pub status_of : Response → ℕ
status_of failed = 0
status_of (answered status body) = status

abbrev pub body_of : Response → String
body_of failed = ""
body_of (answered status body) = body

-- The answer that ends the walk: a status below 400 is a success.
abbrev pub finish : Outcome → Candidate → Response → Outcome
finish out c r = record out {
  delivered = not (leb 400 (status_of r));
  terminal = some c;
  status_code = status_of r;
  body = body_of r;
  attempts = out.attempts ++ (record { candidate = c; response = r; cooled_down = false }) ∷ [];
}

abbrev pub cool : Outcome → Candidate → Response → ℕ → Outcome
cool out c r now = record out {
  cooldowns = (c.route_key, now) ∷ out.cooldowns;
  attempts = out.attempts ++ (record { candidate = c; response = r; cooled_down = true }) ∷ [];
}

module _ (network : ℕ → Post → Response) where
  -- The loop, from the attempt of a number on.
  unfoldable pub walk :
      ℕ → List Candidate → Command → String → ℕ → Outcome → Outcome × Option DeliverError
  walk n [] req body now out = (out, some all_routes_failed)
  walk n (c ∷ cs) req body now out =
      let r = network n (post_of c req body) in
      let rest = walk (suc n) cs req body now (cool out c r now) in
      if gives_up r then rest else (finish out c r, none)

  -- Deliver. The body is the command as marshalled, if json.Marshal does not fail on it.
  unfoldable pub deliver :
      List Candidate → Command → Option String → Cooldowns → ℕ → Outcome × Option DeliverError
  deliver candidates req body cooldowns now =
      let start : Outcome = record {
        delivered = false;
        terminal = none;
        status_code = 0;
        body = "";
        cooldowns = cooldowns;
        attempts = [];
      } in
      elim body [
        | none ↦ (start, some marshal_failed)
        | some text ↦ walk 0 candidates req text now start
      ]
