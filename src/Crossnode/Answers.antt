-- ===== src/Crossnode/Answers.antt =====
-- How the walk of internal/crossnode/deliver.go ends.
use meristem.Base.{
  ℕ, ◌+◌, suc, String, true, false, not, Option, none, some, List, [], ◌∷◌, ◌++◌, ◌≡◌, ◌⊎◌, inl,
  inr, refl, sym, ap, arith, leb, length, Bool-cases, subst,
}
use meristem.Crossnode.{Candidate, Cooldowns}
use meristem.Crossnode.Deliver.{
  Command, Post, Response, Outcome, DeliverError, all_routes_failed, gives_up, status_of, walk,
  deliver, post_of, cool, finish,
}
use meristem.Crossnode.Retry.{pushed}

module _ (network : ℕ → Post → Response) (req : Command) (text : String) (now : ℕ) where
  -- Each of the routes fails or answers with a status from 500 on.
  abbrev pub AllGiveUp : ℕ → List Candidate → Type 0
  AllGiveUp n [] = Unit {0}
  AllGiveUp n (c ∷ cs) = (gives_up (network n (post_of c req text)) ≡ true) × AllGiveUp (suc n) cs

  -- The first route that does not give up, and what its answer makes of the outcome.
  pub record Answered (n : ℕ) (cs : List Candidate) (cooldowns : Cooldowns)
      (end : Outcome × Option DeliverError) : Type 0 where
    pub before : List Candidate
    pub answering : Candidate
    pub rest : List Candidate
    pub attempt : ℕ
    pub split : cs ≡ before ++ answering ∷ rest
    pub at : attempt ≡ n + length before
    pub given_up : AllGiveUp n before
    pub definitive : gives_up (network attempt (post_of answering req text)) ≡ false
    pub no_error : end.1 ≡ none
    pub terminal : end.0.terminal ≡ some answering
    pub status : end.0.status_code ≡ status_of (network attempt (post_of answering req text))
    pub delivered :
        end.0.delivered ≡ not (leb 400 (status_of (network attempt (post_of answering req text))))
    pub cooled : end.0.cooldowns ≡ pushed now before cooldowns

  abbrev Ends : ℕ → List Candidate → Outcome → Outcome × Option DeliverError → Type 0
  Ends n cs out end =
      (AllGiveUp n cs
        × (end.1 ≡ some all_routes_failed)
        × (end.0.delivered ≡ out.delivered)
        × (end.0.cooldowns ≡ pushed now cs out.cooldowns))
      ⊎ Answered n cs out.cooldowns end

  longer :
      (n : ℕ) (c : Candidate) (cs : List Candidate) (out : Outcome)
      (end : Outcome × Option DeliverError)
      → gives_up (network n (post_of c req text)) ≡ true
      → Ends (suc n) cs (cool out c (network n (post_of c req text)) now) end
      → Ends n (c ∷ cs) out end
  unfolding pushed
  longer n c cs out end e (inl (g, f, d, k)) = inl ((e, g), f, d, k)
  longer n c cs out end e (inr a) = inr (record {
    before = c ∷ a.before;
    answering = a.answering;
    rest = a.rest;
    attempt = a.attempt;
    split = ap (◌∷◌ c) a.split;
    at = omega (arith, a.at);
    given_up = (e, a.given_up);
    definitive = a.definitive;
    no_error = a.no_error;
    terminal = a.terminal;
    status = a.status;
    delivered = a.delivered;
    cooled = a.cooled;
  })

  module _ (n : ℕ) (c : Candidate) (cs : List Candidate) (out : Outcome) where
    walk-on :
        gives_up (network n (post_of c req text)) ≡ true
        → walk network n (c ∷ cs) req text now out
          ≡ walk network (suc n) cs req text now (cool out c (network n (post_of c req text)) now)
    unfolding walk
    walk-on e = rw e

    walk-end :
        gives_up (network n (post_of c req text)) ≡ false
        → walk network n (c ∷ cs) req text now out
          ≡ (finish out c (network n (post_of c req text)), none)
    unfolding walk
    walk-end e = rw e

    ended :
        gives_up (network n (post_of c req text)) ≡ false
        → Answered n (c ∷ cs) out.cooldowns (finish out c (network n (post_of c req text)), none)
    unfolding pushed
    ended e = record {
      before = [];
      answering = c;
      rest = cs;
      attempt = n;
      split = refl;
      at = omega arith;
      given_up = tt;
      definitive = e;
      no_error = refl;
      terminal = refl;
      status = refl;
      delivered = refl;
      cooled = refl;
    }

  walk_ends :
      (n : ℕ) (cs : List Candidate) (out : Outcome)
      → Ends n cs out (walk network n cs req text now out)
  unfolding walk pushed
  walk_ends n [] out = inl (tt, refl, refl, refl)
  walk_ends n (c ∷ cs) out = elim (Bool-cases (gives_up (network n (post_of c req text)))) [
    | inl e ↦ subst (Ends n (c ∷ cs) out) (sym (walk-on n c cs out e)) (
        longer n c cs out _ e
          (walk_ends (suc n) cs (cool out c (network n (post_of c req text)) now)))
    | inr e ↦ subst (Ends n (c ∷ cs) out) (sym (walk-end n c cs out e)) (inr (ended n c cs out e))
  ]

  -- Deliver either exhausts the routes, each of which failed or answered with a status from 500 on,
  -- and then it returns the error, has not delivered and has cooled them all down; or it ends at
  -- the first route with another answer, has cooled down exactly the routes before it, returns no
  -- error, and has delivered exactly if that status is below 400.
  pub deliver_ends :
      (cs : List Candidate) (cooldowns : Cooldowns)
      → let end = deliver network cs req (some text) cooldowns now in
        (AllGiveUp 0 cs
          × (end.1 ≡ some all_routes_failed)
          × (end.0.delivered ≡ false)
          × (end.0.cooldowns ≡ pushed now cs cooldowns))
        ⊎ Answered 0 cs cooldowns end
  unfolding deliver
  deliver_ends cs cooldowns = walk_ends 0 cs _
