-- ===== src/Feed/Cursor.antt =====
-- internal/feed/cursor.go: the cursors of the feed. A cursor is the bytes of its text. JSON
-- (json.Marshal, json.Unmarshal of the envelope) is a parameter.
pub mod RoundTrip
pub mod Scoped
use meristem.Base.{
  ℕ, ◌+◌, ◌-◌, ◌*◌, ◌/◌, ◌%◌, ◌<◌, ◌≤◌, String, Bool, false, ◌||◌, not, Option, none, some, List,
  [], ◌∷◌, ◌≡◌, ◌≢◌, refl, sym, ◌∙◌, ap, arith, ◌==◌, ltb, leb, str_eq, eq_iff, eq_refl,
  if◌then◌else◌, length, is_empty, Bool-cases, inl, inr,
}
use meristem.Base.Int.{ℤ, pos, negsuc}
use meristem.Feed.Base64.{encode, decode, sixes, AllBelow, decode-encode}

pub data CursorError : Type 0 where
  invalid_cursor projection_mismatch : CursorError

pub data Decoded {ℓ} (A : Type ℓ) : Type ℓ where
  ok : A → Decoded A
  err : CursorError → Decoded A

-- The server's side of a cursor. The zero value is that of a feed without a projection.
pub record Cursor : Type 0 where
  pub seq : ℕ
  pub projection : String
  pub version : ℕ

abbrev pub int64_limit : ℕ
int64_limit = 9_223_372_036_854_775_808

abbrev uint64_limit : ℕ
uint64_limit = 18_446_744_073_709_551_616

-- uint64(seq)
abbrev to_word : ℤ → ℕ
to_word (pos n) = n % uint64_limit
to_word (negsuc n) = uint64_limit - 1 - n % uint64_limit

-- binary.BigEndian.PutUint64
unfoldable pub put_uint64 : ℕ → List ℕ
put_uint64 w =
    let w1 = w / 256 in
    let w2 = w1 / 256 in
    let w3 = w2 / 256 in
    let w4 = w3 / 256 in
    let w5 = w4 / 256 in
    let w6 = w5 / 256 in
    let w7 = w6 / 256 in
    (w7 % 256)
    ∷ (w6 % 256)
    ∷ (w5 % 256)
    ∷ (w4 % 256)
    ∷ (w3 % 256)
    ∷ (w2 % 256)
    ∷ (w1 % 256)
    ∷ (w % 256)
    ∷ []

-- binary.BigEndian.Uint64
unfoldable pub uint64_from : ℕ → List ℕ → ℕ
uint64_from acc [] = acc
uint64_from acc (b ∷ bs) = uint64_from (acc * 256 + b) bs

unfoldable pub encode_cursor : ℤ → List ℕ
encode_cursor seq = encode (put_uint64 (to_word seq))

-- From the raw bytes on. A word from 2 ^ 63 on is a negative int64.
unfoldable pub decode_raw : Option (List ℕ) → Decoded Cursor
decode_raw none = err invalid_cursor
decode_raw (some raw) =
    if not (length raw == 8)
    then err invalid_cursor
    else if leb int64_limit (uint64_from 0 raw)
    then err invalid_cursor
    else ok (record { seq = uint64_from 0 raw; projection = ""; version = 0 })

unfoldable pub decode_cursor : List ℕ → Decoded Cursor
unfolding decode_raw
decode_cursor s = if is_empty s then err invalid_cursor else decode_raw (decode s)

pub record Envelope : Type 0 where
  pub version : ℤ
  pub seq : ℤ
  pub projection : String
  pub definition : ℤ

abbrev at_least_one : ℤ → Option ℕ
at_least_one (pos n) = if ltb n 1 then none else some n
at_least_one (negsuc _) = none

abbrev not_negative : ℤ → Option ℕ
not_negative (pos n) = some n
not_negative (negsuc _) = none

abbrev is_one : ℤ → Bool
is_one (pos n) = n == 1
is_one (negsuc _) = false

abbrev scoped_cursor : Option ℕ → Option ℕ → String → Decoded Cursor
scoped_cursor none version projection = err invalid_cursor
scoped_cursor (some seq) none projection = err invalid_cursor
scoped_cursor (some seq) (some version) projection =
    if str_eq projection ""
    then err invalid_cursor
    else ok (record { seq = seq; projection = projection; version = version })

-- decodeProjectionCursor from the envelope on.
unfoldable pub check_envelope : Option Envelope → Decoded Cursor
check_envelope none = err invalid_cursor
check_envelope (some env) =
    if not (is_one env.version)
    then err invalid_cursor
    else scoped_cursor (not_negative env.seq) (at_least_one env.definition) env.projection

-- The two decoders are tried in the order of the code; the other one only explains the error.
abbrev plain_or_scoped : Decoded Cursor → Decoded Cursor → Decoded Cursor
plain_or_scoped (ok c) scoped = ok c
plain_or_scoped (err e) (ok c) =
    if not (str_eq c.projection "") then err projection_mismatch else err e
plain_or_scoped (err e) (err _) = err e

abbrev scoped_or_plain : String → ℕ → Decoded Cursor → Decoded Cursor → Decoded Cursor
scoped_or_plain projection version (ok c) plain =
    if not (str_eq c.projection projection) || not (c.version == version)
    then err projection_mismatch
    else ok c
scoped_or_plain projection version (err e) (ok _) = err projection_mismatch
scoped_or_plain projection version (err e) (err _) = err e

module _ (marshal : Envelope → List ℕ) (unmarshal : List ℕ → Option Envelope) where
  abbrev unmarshal_raw : Option (List ℕ) → Option Envelope
  unmarshal_raw none = none
  unmarshal_raw (some raw) = unmarshal raw

  unfoldable pub encode_projection_cursor : ℕ → String → ℕ → List ℕ
  encode_projection_cursor seq projection version = encode (
      marshal (record {
        version = pos 1;
        seq = pos seq;
        projection = projection;
        definition = pos version;
      }))

  unfoldable pub decode_projection_cursor : List ℕ → Decoded Cursor
  unfolding check_envelope
  decode_projection_cursor s =
      if is_empty s then err invalid_cursor else check_envelope (unmarshal_raw (decode s))

  unfoldable pub decode_cursor_for_projection : List ℕ → String → ℕ → Decoded Cursor
  decode_cursor_for_projection s projection version =
      if str_eq projection ""
      then plain_or_scoped (decode_cursor s) (decode_projection_cursor s)
      else scoped_or_plain projection version (decode_projection_cursor s) (decode_cursor s)

-- The envelope that EncodeProjectionCursor marshals.
abbrev pub envelope_of : ℕ → String → ℕ → Envelope
envelope_of seq projection version = record {
  version = pos 1;
  seq = pos seq;
  projection = projection;
  definition = pos version;
}
