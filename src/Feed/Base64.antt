-- ===== src/Feed/Base64.antt =====
-- The base64url encoding without padding of Go's encoding/base64 (RawURLEncoding), on bytes.
use meristem.Base.{
  ℕ, ◌+◌, ◌-◌, ◌*◌, ◌/◌, ◌%◌, ◌<◌, true, ◌&&◌, ◌||◌, not, Option, none, some, List, [], ◌∷◌, ◌≡◌,
  refl, arith, ◌==◌, ltb, leb, if◌then◌else◌, select, map,
}

-- The character of six bits.
unfoldable pub symbol : ℕ → ℕ
symbol n =
    if ltb n 26
    then b'A' + n
    else if ltb n 52
    then b'a' + (n - 26)
    else if ltb n 62
    then b'0' + (n - 52)
    else if n == 62
    then b'-'
    else b'_'

unfoldable pub sextet : ℕ → Option ℕ
sextet c =
    if leb b'A' c && leb c b'Z'
    then some (c - b'A')
    else if leb b'a' c && leb c b'z'
    then some (c - b'a' + 26)
    else if leb b'0' c && leb c b'9'
    then some (c - b'0' + 52)
    else if c == b'-'
    then some 62
    else if c == b'_'
    then some 63
    else none

sextet-symbol : (n : ℕ) → n < 64 → sextet (symbol n) ≡ some n
unfolding sextet symbol
sextet-symbol n h = ground arith

-- Three bytes as four times six bits, and what is left as two or three.
unfoldable pub sixes : List ℕ → List ℕ
sixes [] = []
sixes (a ∷ []) = (a / 4) ∷ (a % 4 * 16) ∷ []
sixes (a ∷ b ∷ []) = (a / 4) ∷ (a % 4 * 16 + b / 16) ∷ (b % 16 * 4) ∷ []
sixes (a ∷ b ∷ c ∷ rest) =
    (a / 4) ∷ (a % 4 * 16 + b / 16) ∷ (b % 16 * 4 + c / 64) ∷ (c % 64) ∷ sixes rest

-- EncodeToString
unfoldable pub encode : List ℕ → List ℕ
unfolding sixes
encode bytes = map symbol (sixes bytes)

abbrev with_rest : ℕ → Option (List ℕ) → Option (List ℕ)
with_rest x none = none
with_rest x (some xs) = some (x ∷ xs)

abbrev both : Option ℕ → Option (List ℕ) → Option (List ℕ)
both none rest = none
both (some n) rest = with_rest n rest

-- The six bits of each character, if each has them.
unfoldable pub sextets : List ℕ → Option (List ℕ)
sextets [] = some []
sextets (c ∷ cs) = both (sextet c) (sextets cs)

-- Four characters give three bytes; two or three at the end give one or two, whatever their last
-- bits; one at the end is an error.
unfoldable pub regroup : List ℕ → Option (List ℕ)
regroup [] = some []
regroup (s ∷ []) = none
regroup (s ∷ t ∷ []) = some ((s * 4 + t / 16) ∷ [])
regroup (s ∷ t ∷ u ∷ []) = some ((s * 4 + t / 16) ∷ (t % 16 * 16 + u / 4) ∷ [])
regroup (s ∷ t ∷ u ∷ v ∷ rest) =
    with_rest (s * 4 + t / 16)
      (with_rest (t % 16 * 16 + u / 4) (with_rest (u % 4 * 64 + v) (regroup rest)))

abbrev regrouped : Option (List ℕ) → Option (List ℕ)
regrouped none = none
regrouped (some ss) = regroup ss

-- DecodeString passes over the ends of lines.
unfoldable pub decode : List ℕ → Option (List ℕ)
unfolding sextets regroup
decode cs = regrouped (sextets (select (λ c. not (c == 10 || c == 13)) cs))

abbrev pub AllBelow : ℕ → List ℕ → Type 0
AllBelow n [] = Unit {0}
AllBelow n (x ∷ xs) = (x < n) × AllBelow n xs

sixes_below : (bytes : List ℕ) → AllBelow 256 bytes → AllBelow 64 (sixes bytes)
unfolding sixes
sixes_below [] h = tt
sixes_below (a ∷ []) h = (omega arith, (omega arith, tt))
sixes_below (a ∷ b ∷ []) h = (omega arith, (omega arith, (omega arith, tt)))
sixes_below (a ∷ b ∷ c ∷ rest) h =
    (omega arith, (omega arith, (omega arith, (omega arith, sixes_below rest h.1.1.1))))

regroup-sixes : (bytes : List ℕ) → AllBelow 256 bytes → regroup (sixes bytes) ≡ some bytes
unfolding regroup sixes
regroup-sixes [] h = refl
regroup-sixes (a ∷ []) h = ground arith
regroup-sixes (a ∷ b ∷ []) h = ground arith
regroup-sixes (a ∷ b ∷ c ∷ rest) h = ground (arith, regroup-sixes rest h.1.1.1)

sextets-symbols : (ss : List ℕ) → AllBelow 64 ss → sextets (map symbol ss) ≡ some ss
unfolding sextets
sextets-symbols [] h = refl
sextets-symbols (s ∷ ss) h = rw (sextet-symbol s h.0, sextets-symbols ss h.1)

no_line_end : (n : ℕ) → n < 64 → not (symbol n == 10 || symbol n == 13) ≡ true
unfolding symbol
no_line_end n h = ground arith

select-symbols :
    (ss : List ℕ)
    → AllBelow 64 ss
    → select (λ c. not (c == 10 || c == 13)) (map symbol ss) ≡ map symbol ss
select-symbols [] h = refl
select-symbols (s ∷ ss) h = rw (no_line_end s h.0, select-symbols ss h.1)

-- What EncodeToString writes, DecodeString reads.
pub decode-encode : (bytes : List ℕ) → AllBelow 256 bytes → decode (encode bytes) ≡ some bytes
unfolding decode encode
decode-encode bytes h =
    let low = sixes_below bytes h in
    rw (select-symbols (sixes bytes) low, sextets-symbols (sixes bytes) low) (regroup-sixes bytes h)
