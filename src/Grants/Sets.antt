-- ===== src/Grants/Sets.antt =====
-- sameScopeSet, which compares sizes and then one inclusion, decides equality of sets.
use meristem.Base.{
  suc, ◌≤◌, String, Bool, true, false, ◌&&◌, not, List, [], ◌∷◌, ◌≡◌, ◌↔◌, refl, arith, sym, ◌∙◌,
  all, all_at, contains, length, str_eq, eq_iff, eq_refl, Bool-cases, inl, inr, if◌then◌else◌,
}
use meristem.Grants.{scope_set, same_scope_set}
use meristem.Grants.Safety.{contains-scope_set}

abbrev distinct : List String → Bool
distinct [] = true
distinct (x ∷ xs) = not (contains xs x) && distinct xs

distinct-scope_set : (ss : List String) → distinct (scope_set ss) ≡ true
unfolding scope_set
distinct-scope_set [] = refl
distinct-scope_set (s ∷ ss) = ground (arith, distinct-scope_set ss)

abbrev remove_one : String → List String → List String
remove_one x [] = []
remove_one x (y ∷ ys) = let rest = remove_one x ys in if str_eq y x then ys else y ∷ rest

length-remove_one :
    (x : String) (ys : List String)
    → contains ys x ≡ true
    → length ys ≡ suc (length (remove_one x ys))
length-remove_one x [] h = cc
length-remove_one x (y ∷ ys) h = ground (arith, length-remove_one x ys)

contains-remove_one :
    (x z : String) (ys : List String)
    → str_eq x z ≡ false
    → contains ys z ≡ true
    → contains (remove_one x ys) z ≡ true
contains-remove_one x z [] h k = cc
contains-remove_one x z (y ∷ ys) h k =
    ground (arith, eq_iff y x, eq_iff y z, eq_iff x z, contains-remove_one x z ys)

all-remove_one :
    (x : String) (xs ys : List String)
    → contains xs x ≡ false
    → all (contains ys) xs ≡ true
    → all (contains (remove_one x ys)) xs ≡ true
all-remove_one x [] ys h k = refl
all-remove_one x (z ∷ zs) ys h k =
    ground (arith, eq_iff x z, eq_iff z x, contains-remove_one x z ys, all-remove_one x zs ys)

length-le_of_all :
    (xs ys : List String) → distinct xs ≡ true → all (contains ys) xs ≡ true → length xs ≤ length ys
length-le_of_all [] ys d h = omega arith
length-le_of_all (x ∷ xs) ys d h =
    ground
      (arith, length-remove_one x ys, all-remove_one x xs ys, length-le_of_all xs (remove_one x ys))

-- Names that are in a list as long as theirs fill it.
filled :
    (xs ys : List String) (s : String)
    → distinct xs ≡ true
    → all (contains ys) xs ≡ true
    → length xs ≡ length ys
    → contains ys s ≡ true
    → contains xs s ≡ true
filled xs ys s d h e k = elim (Bool-cases (contains xs s)) [
  | inl t ↦ t
  | inr f ↦
      absurd (omega (arith, length-le_of_all (s ∷ xs) ys (ground (arith, f)) (ground arith), e))
]

all_of :
    (xs ys : List String)
    → ((s : String) → contains xs s ≡ true → contains ys s ≡ true)
    → all (contains ys) xs ≡ true
all_of [] ys h = refl
all_of (x ∷ xs) ys h = ground (arith, h x, eq_refl x, all_of xs ys (λ s k. h s (ground arith)))

same_sound :
    (a b : List String) (s : String)
    → same_scope_set a b ≡ true
    → contains (scope_set a) s ≡ contains (scope_set b) s
unfolding same_scope_set
same_sound a b s h = ground (
  arith,
  distinct-scope_set a,
  filled (scope_set a) (scope_set b) s,
  all_at (contains (scope_set b)) (scope_set a) s,
)

same_complete :
    (a b : List String)
    → ((s : String) → contains (scope_set a) s ≡ contains (scope_set b) s)
    → same_scope_set a b ≡ true
unfolding same_scope_set
same_complete a b h = ground (
  arith,
  length-le_of_all (scope_set a) (scope_set b) (distinct-scope_set a),
  length-le_of_all (scope_set b) (scope_set a) (distinct-scope_set b),
  all_of (scope_set a) (scope_set b) (λ s k. sym (h s) ∙ k),
  all_of (scope_set b) (scope_set a) (λ s k. h s ∙ k),
)

-- sameScopeSet holds of two lists exactly when they contain the same scopes, whatever the order
-- and the repetitions.
pub same_scope_set_iff :
    (a b : List String) → (same_scope_set a b ≡ true) ↔ ((s : String) → contains a s ≡ contains b s)
same_scope_set_iff a b = (
  λ h s. sym (contains-scope_set a s) ∙ (same_sound a b s h ∙ contains-scope_set b s),
  λ h. same_complete a b (λ s. contains-scope_set a s ∙ (h s ∙ sym (contains-scope_set b s))),
)
