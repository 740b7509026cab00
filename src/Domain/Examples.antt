-- ===== src/Domain/Examples.antt =====
-- The references of internal/domain/qualifiedref.go on concrete inputs.
use meristem.Base.{
  String, Option, none, some, true, ◌≡◌, ◌↔◌, ◌⊎◌, refl, str_eq, if◌then◌else◌, cut,
}
use meristem.Domain.{Uuid}
use meristem.Domain.QualifiedRef.{
  valid_node_id, parse_qualified_ref, read_cut, read_named, format_qualified_ref, uuid_part,
  parse-format_iff,
}

-- Two spellings of the one identifier.
abbrev parse : String → Option Uuid
parse s = if str_eq s "a1" then some 161 else if str_eq s "A1" then some 161 else none

abbrev uuid_text : Uuid → String
uuid_text id = "a1"

parse_named : parse_qualified_ref parse "node-2:a1" ≡ some ("node-2", 161)
unfolding parse_qualified_ref read_cut read_named valid_node_id cut
parse_named = refl

-- A reference that is not spelt as String prints it is formatted otherwise.
other_spelling :
    (parse_qualified_ref parse "node-2:A1" ≡ some ("node-2", 161))
    × (format_qualified_ref uuid_text "node-2" 161 ≡ "node-2:a1")
unfolding parse_qualified_ref read_cut read_named valid_node_id cut format_qualified_ref
other_spelling = (refl, refl)

parse-format_iff_example :
    ((node : String) (id : Uuid)
      → (node ≡ "") ⊎ (valid_node_id node ≡ true)
      → parse (uuid_text id) ≡ some id
      → cut b':' (uuid_text id) ≡ none
      → parse_qualified_ref parse (format_qualified_ref uuid_text node id) ≡ some (node, id))
    × ((ref node : String) (id : Uuid)
        → parse_qualified_ref parse ref ≡ some (node, id)
        → (format_qualified_ref uuid_text node id ≡ ref) ↔ (uuid_text id ≡ uuid_part ref))
parse-format_iff_example = parse-format_iff parse uuid_text
