-- ===== src/Domain/QualifiedRef.antt =====
-- internal/domain/qualifiedref.go: names of nodes and references across nodes. Parsing and printing
-- an identifier (uuid.Parse, uuid.UUID.String) are parameters.
use Prim.Native.String as Str
use text.Mathlib.TextLemmas.{cons-append, nil-append, append_cancel_left}
use meristem.Base.{
  ℕ, String, Bool, true, false, ◌&&◌, ◌||◌, not, Option, none, some, List, [], ◌∷◌, ◌≡◌, ◌↔◌, ◌⊎◌,
  inl, inr, refl, sym, ◌∙◌, ap, arith, ◌==◌, ltb, leb, str_eq, eq_iff, eq_refl, if◌then◌else◌,
  is_empty, all, length, codes, cut, cut_sound, Bool-cases,
}
use meristem.Domain.{Uuid}

abbrev max_node_id_len : ℕ
max_node_id_len = 32

-- A lowercase letter, a digit or a hyphen.
abbrev label_char : ℕ → Bool
label_char c = (leb b'a' c && leb c b'z') || (leb b'0' c && leb c b'9') || c == b'-'

abbrev starts_with_hyphen : List ℕ → Bool
starts_with_hyphen [] = false
starts_with_hyphen (c ∷ cs) = c == b'-'

abbrev ends_with_hyphen : List ℕ → Bool
ends_with_hyphen [] = false
ends_with_hyphen (c ∷ []) = c == b'-'
ends_with_hyphen (c ∷ d ∷ cs) = ends_with_hyphen (d ∷ cs)

-- The program counts bytes; where they are more than the code points, the text is not ASCII, and
-- both refuse it.
unfoldable pub valid_node_id : String → Bool
valid_node_id s =
    let cs = codes s in
    if is_empty cs || ltb max_node_id_len (length cs)
    then false
    else if starts_with_hyphen cs || ends_with_hyphen cs
    then false
    else all label_char cs

module _ (uuid_text : Uuid → String) where
  unfoldable pub format_qualified_ref : String → Uuid → String
  format_qualified_ref node id =
      if str_eq node "" then uuid_text id else Str.◌++◌ node (Str.◌++◌ ":" (uuid_text id))

  format-qualified :
      (node : String) (id : Uuid)
      → str_eq node "" ≡ false
      → format_qualified_ref node id ≡ Str.◌++◌ node (Str.◌++◌ ":" (uuid_text id))
  unfolding format_qualified_ref
  format-qualified node id v = ground (arith, v)

unfoldable pub read_bare : Option Uuid → Option (String × Uuid)
read_bare none = none
read_bare (some id) = some ("", id)

unfoldable pub read_named : String → Option Uuid → Option (String × Uuid)
read_named prefix none = none
read_named prefix (some id) = if not (valid_node_id prefix) then none else some (prefix, id)

module _ (parse : String → Option Uuid) where
  unfoldable pub read_cut : String → Option (String × String) → Option (String × Uuid)
  unfolding read_bare read_named
  read_cut ref (some (prefix, rest)) = read_named prefix (parse rest)
  read_cut ref none = read_bare (parse ref)

  -- The node and the identifier, where ok is true.
  unfoldable pub parse_qualified_ref : String → Option (String × Uuid)
  unfolding read_cut
  parse_qualified_ref ref = read_cut ref (cut b':' ref)

abbrev pub part_of : String → Option (String × String) → String
part_of ref none = ref
part_of ref (some (prefix, rest)) = rest

-- The part of a reference that uuid.Parse is given.
abbrev pub uuid_part : String → String
uuid_part ref = part_of ref (cut b':' ref)

cut-append :
    (node rest : String)
    → all label_char (codes node) ≡ true
    → cut b':' (Str.◌++◌ node (Str.◌++◌ ":" rest)) ≡ some (node, rest)
unfolding cut
cut-append String.[] rest h =
    rw (nil-append (Str.◌++◌ ":" rest))
      (rw (cons-append _ "" rest) (ap (λ r. some ("", r)) (nil-append rest)))
cut-append (String.◌∷◌ c s) rest h =
    rw (cons-append c s (Str.◌++◌ ":" rest)) (ground (arith, cut-append s rest))

cut_at_colon :
    (s before after : String)
    → cut b':' s ≡ some (before, after)
    → s ≡ Str.◌++◌ before (Str.◌++◌ ":" after)
cut_at_colon s before after h =
    cut_sound ":" s before after h
    ∙ sym (rw (cons-append ":" "" after) (rw (nil-append after) refl))

valid-label_chars : (s : String) → valid_node_id s ≡ true → all label_char (codes s) ≡ true
unfolding valid_node_id
valid-label_chars s h = ground arith

valid-ne-empty : (s : String) → valid_node_id s ≡ true → str_eq s "" ≡ false
unfolding valid_node_id
valid-ne-empty s h = elim (Bool-cases (str_eq s "")) [
  | inl e ↦ cc (h, ap valid_node_id ((eq_iff s "").0 e))
  | inr e ↦ e
]

module _ (parse : String → Option Uuid) (uuid_text : Uuid → String) where
  parse-named :
      (node : String) (id : Uuid)
      → valid_node_id node ≡ true
      → parse (uuid_text id) ≡ some id
      → parse_qualified_ref parse (format_qualified_ref uuid_text node id) ≡ some (node, id)
  unfolding parse_qualified_ref
  parse-named node id v p =
      rw (format-qualified uuid_text node id (valid-ne-empty node v))
        (ground (arith, cut-append node (uuid_text id) (valid-label_chars node v), v, p))

  parse-bare :
      (id : Uuid)
      → parse (uuid_text id) ≡ some id
      → cut b':' (uuid_text id) ≡ none
      → parse_qualified_ref parse (uuid_text id) ≡ some ("", id)
  unfolding parse_qualified_ref
  parse-bare id p c = ground (arith, p, c)

  bare_node :
      (o : Option Uuid) {node : String} {id : Uuid} → read_bare o ≡ some (node, id) → node ≡ ""
  unfolding read_bare
  bare_node o h = ground arith

  -- What a reference that parses is made of.
  parsed_parts :
      (ref node : String) (id : Uuid) (o : Option (String × String))
      → ((b a : String)
          → ◌≡◌ {A = Option (String × String)} o (some (b, a))
          → ref ≡ Str.◌++◌ b (Str.◌++◌ ":" a))
      → read_cut parse ref o ≡ some (node, id)
      → ((str_eq node "" ≡ true) × (ref ≡ part_of ref o))
        ⊎ ((str_eq node "" ≡ false) × (ref ≡ Str.◌++◌ node (Str.◌++◌ ":" (part_of ref o))))
  unfolding read_cut read_bare read_named
  parsed_parts ref node id none f h = inl ((eq_iff node "").1 (bare_node _ h), refl)
  parsed_parts ref node id (some (b, a)) f h =
      let n : node ≡ b = ground (arith, h) in
      let v : valid_node_id b ≡ true = ground (arith, h) in
      rw n (inr (valid-ne-empty b v, f b a refl))

  formatted_bare :
      (node : String) (id : Uuid)
      → str_eq node "" ≡ true
      → format_qualified_ref uuid_text node id ≡ uuid_text id
  unfolding format_qualified_ref
  formatted_bare node id h = ground arith

  spelt :
      (ref node part : String) (id : Uuid)
      → ((str_eq node "" ≡ true) × (ref ≡ part))
        ⊎ ((str_eq node "" ≡ false) × (ref ≡ Str.◌++◌ node (Str.◌++◌ ":" part)))
      → (format_qualified_ref uuid_text node id ≡ ref) ↔ (uuid_text id ≡ part)
  spelt ref node part id (inl (n, r)) = rw (formatted_bare node id n) (λ h. h ∙ r, λ h. h ∙ sym r)
  spelt ref node part id (inr (n, r)) = rw (format-qualified uuid_text node id n) (
    λ h. append_cancel_left ":" (uuid_text id) part (append_cancel_left node _ _ (h ∙ r)),
    λ h. ap (λ t. Str.◌++◌ node (Str.◌++◌ ":" t)) h ∙ sym r,
  )

  by_cut :
      (ref node : String) (id : Uuid)
      → parse_qualified_ref parse ref ≡ some (node, id)
      → read_cut parse ref (cut b':' ref) ≡ some (node, id)
  unfolding parse_qualified_ref
  by_cut ref node id h = h

  -- A reference formatted from a valid node id, or from none for this node, parses back to the two,
  -- where uuid.Parse reads what String prints and that has no colon. And a reference that parses is
  -- formatted back to itself exactly if its identifier is spelt as String prints it.
  pub parse-format_iff :
      ((node : String) (id : Uuid)
        → (node ≡ "") ⊎ (valid_node_id node ≡ true)
        → parse (uuid_text id) ≡ some id
        → cut b':' (uuid_text id) ≡ none
        → parse_qualified_ref parse (format_qualified_ref uuid_text node id) ≡ some (node, id))
      × ((ref node : String) (id : Uuid)
          → parse_qualified_ref parse ref ≡ some (node, id)
          → (format_qualified_ref uuid_text node id ≡ ref) ↔ (uuid_text id ≡ uuid_part ref))
  parse-format_iff = (
    λ node id n p c. elim n [
      | inl e ↦ rw (e, formatted_bare "" id (eq_refl "")) (parse-bare id p c)
      | inr v ↦ parse-named node id v p
    ],
    λ ref node id h.
        spelt ref node (uuid_part ref) id
          (parsed_parts ref node id (cut b':' ref) (cut_at_colon ref) (by_cut ref node id h)),
  )
