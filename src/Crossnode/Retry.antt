-- ===== src/Crossnode/Retry.antt =====
-- Select and Deliver of internal/crossnode together.
use meristem.Base.{
  ℕ, ◌+◌, ◌<◌, ◌≤◌, suc, String, Bool, true, false, ◌&&◌, ◌||◌, not, Option, none, some, List, [],
  ◌∷◌, ◌++◌, ◌≡◌, ◌⊎◌, inl, inr, refl, sym, ◌∙◌, ap, arith, any, str_eq, eq_iff, eq_refl,
  if◌then◌else◌, Bool-cases, leb,
}
use meristem.Base as Base
use meristem.Crossnode.{
  Node, Candidate, ok, err, no_route, Cooldowns, failed_at, cooling, cooldown_window, found_routes,
  select,
}
use meristem.Crossnode.Deliver.{
  Command, Post, Response, Outcome, all_routes_failed, gives_up, walk, deliver, post_of, cool,
}
use meristem.Crossnode.Selected.{has_key, open_at, all_routes, select_found, select_known}

-- The cooldowns after each of some routes failed.
unfoldable pub pushed : ℕ → List Candidate → Cooldowns → Cooldowns
pushed now [] cooldowns = cooldowns
pushed now (c ∷ cs) cooldowns = pushed now cs ((c.route_key, now) ∷ cooldowns)

failed_at-pushed :
    (now : ℕ) (cs : List Candidate) (cooldowns : Cooldowns) (key : String)
    → failed_at key (pushed now cs cooldowns)
      ≡ (if has_key cs key then some now else failed_at key cooldowns)
unfolding pushed failed_at
failed_at-pushed now [] cooldowns key = refl
failed_at-pushed now (c ∷ cs) cooldowns key =
    ground (arith, failed_at-pushed now cs ((c.route_key, now) ∷ cooldowns) key)

cooling-pushed :
    (now : ℕ) (cs : List Candidate) (cooldowns : Cooldowns) (key : String) (later : ℕ)
    → cooling (pushed now cs cooldowns) key later ≡ (
        if has_key cs key
        then Base.ltb later (now + cooldown_window)
        else cooling cooldowns key later)
unfolding cooling
cooling-pushed now cs cooldowns key later = ground (arith, failed_at-pushed now cs cooldowns key)

module _ (network : ℕ → Post → Response) (req : Command) (text : String) (now : ℕ) where
  -- The walk that exhausts the routes has cooled each of them.
  walk-exhausted :
      (n : ℕ) (cs : List Candidate) (out : Outcome)
      → (walk network n cs req text now out).1 ≡ some all_routes_failed
      → (walk network n cs req text now out).0.cooldowns ≡ pushed now cs out.cooldowns
  unfolding walk pushed
  walk-exhausted n [] out h = refl
  walk-exhausted n (c ∷ cs) out h = elim (Bool-cases (gives_up (network n (post_of c req text)))) [
    | inl e ↦
        rw e
          (walk-exhausted (suc n) cs (cool out c (network n (post_of c req text)) now) (rw e at h))
    | inr e ↦ cc (rw e at h)
  ]

  deliver-exhausted :
      (cs : List Candidate) (cooldowns : Cooldowns)
      → (deliver network cs req (some text) cooldowns now).1 ≡ some all_routes_failed
      → (deliver network cs req (some text) cooldowns now).0.cooldowns ≡ pushed now cs cooldowns
  unfolding deliver
  deliver-exhausted cs cooldowns h = walk-exhausted 0 cs _ h

found_open : (cs ds : List Candidate) → found_routes cs ≡ ok ds → cs ≡ ds
found_open [] ds h = cc
found_open (c ∷ cs) ds h = ground arith

-- A key is among the routes that a test keeps if and only if a kept route has it.
has_key-select :
    (p : String → Bool) (cs : List Candidate) (key : String)
    → has_key (Base.select (λ c. p c.route_key) cs) key ≡ (has_key cs key && p key)
has_key-select p [] key = refl
has_key-select p (c ∷ cs) key = elim (Bool-cases (str_eq c.route_key key)) [
  | inl e ↦ ground (arith, e, has_key-select p cs key, ap p ((eq_iff c.route_key key).0 e))
  | inr e ↦ ground (arith, e, has_key-select p cs key)
]

no_key :
    (p : String → Bool) (cs : List Candidate)
    → ((key : String) → has_key cs key ≡ true → p key ≡ false)
    → Base.select (λ c. p c.route_key) cs ≡ []
no_key p [] h = refl
no_key p (c ∷ cs) h =
    rw (h c.route_key (ground (arith, eq_refl c.route_key)))
      (no_key p cs (λ key k. h key (ground (arith, k))))

some_key : (cs : List Candidate) (key : String) → has_key cs key ≡ true → found_routes cs ≡ ok cs
some_key [] key h = cc
some_key (c ∷ cs) key h = refl

first_key :
    (cs ds : List Candidate) → found_routes cs ≡ ok ds → (key : String) × (has_key ds key ≡ true)
first_key [] ds h = absurd cc
first_key (c ∷ cs) [] h = absurd cc
first_key (c ∷ cs) (d ∷ ds) h = (d.route_key, ground (arith, eq_refl d.route_key))

module _ (nodes : List Node) (target : String) (cooldowns : Cooldowns) (now : ℕ)
    (cs : List Candidate) (selected : select nodes target cooldowns now ≡ ok cs) where
  abbrev the_node : Node
  the_node = (select_known nodes target cooldowns now selected).0

  abbrev routes : List Candidate
  routes = all_routes nodes target the_node

  selected_at :
      (cd : Cooldowns) (later : ℕ)
      → select nodes target cd later ≡ found_routes (open_at cd later routes)
  selected_at cd later =
      select_found nodes target cd later the_node
        (select_known nodes target cooldowns now selected).1

  chosen : open_at cooldowns now routes ≡ cs
  chosen = found_open _ cs (sym (selected_at cooldowns now) ∙ selected)

  chosen_key :
      (key : String) → has_key cs key ≡ (has_key routes key && not (cooling cooldowns key now))
  chosen_key key =
      ap (λ ds. has_key ds key) (sym chosen)
      ∙ has_key-select (λ k. not (cooling cooldowns k now)) routes key

  abbrev after : Cooldowns
  after = pushed now cs cooldowns

  none_now : select nodes target after now ≡ err no_route
  none_now =
      selected_at after now
      ∙ ap found_routes (
          no_key (λ k. not (cooling after k now)) routes
            (λ key k. ground (arith, cooling-pushed now cs cooldowns key now, chosen_key key, k)))

  rests :
      (later : ℕ) (ds : List Candidate) (key : String)
      → later < now + cooldown_window
      → select nodes target after later ≡ ok ds
      → has_key cs key ≡ true
      → has_key ds key ≡ false
  rests later ds key l s k =
      ap (λ es. has_key es key) (sym (found_open _ ds (sym (selected_at after later) ∙ s)))
      ∙ (has_key-select (λ k. not (cooling after k later)) routes key
          ∙ ground (arith, cooling-pushed now cs cooldowns key later, k, l))

  back_key :
      (later : ℕ) (key : String)
      → now + cooldown_window ≤ later
      → has_key cs key ≡ true
      → has_key (open_at after later routes) key ≡ true
  back_key later key l k =
      has_key-select (λ k. not (cooling after k later)) routes key
      ∙ ground (arith, cooling-pushed now cs cooldowns key later, chosen_key key, k, l)

  back :
      (later : ℕ)
      → now + cooldown_window ≤ later
      → (ds : List Candidate) × (select nodes target after later ≡ ok ds)
        × ((key : String) → has_key cs key ≡ true → has_key ds key ≡ true)
  back later l =
      let (key, k) = first_key _ cs (sym (selected_at cooldowns now) ∙ selected) in
      (
        open_at after later routes,
        selected_at after later ∙ some_key _ key (back_key later key l k),
        λ key' k'. back_key later key' l k',
      )

-- When Deliver has exhausted the routes that Select gave it, an immediate Select finds no route;
-- until 60 seconds have passed, no route that Select finds is one of those that failed; and from
-- then on Select finds a route again, and each of those that failed is among what it finds.
pub select-deliver :
    (network : ℕ → Post → Response) (nodes : List Node) (target : String) (cooldowns : Cooldowns)
    (now : ℕ) (cs : List Candidate) (req : Command) (text : String)
    → select nodes target cooldowns now ≡ ok cs
    → (deliver network cs req (some text) cooldowns now).1 ≡ some all_routes_failed
    → let after = (deliver network cs req (some text) cooldowns now).0.cooldowns in
      (select nodes target after now ≡ err no_route)
      × ((later : ℕ) (ds : List Candidate) (key : String)
          → later < now + cooldown_window
          → select nodes target after later ≡ ok ds
          → has_key cs key ≡ true
          → has_key ds key ≡ false)
      × ((later : ℕ)
          → now + cooldown_window ≤ later
          → (ds : List Candidate) × (select nodes target after later ≡ ok ds)
            × ((key : String) → has_key cs key ≡ true → has_key ds key ≡ true))
select-deliver network nodes target cooldowns now cs req text s f =
    rw (deliver-exhausted network req text now cs cooldowns f) (
      none_now nodes target cooldowns now cs s,
      rests nodes target cooldowns now cs s,
      back nodes target cooldowns now cs s,
    )
