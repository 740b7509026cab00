-- ===== src/Feed/Cursor/RoundTrip.antt =====
-- A cursor of internal/feed/cursor.go without a projection is read back.
use meristem.Base.{
  ℕ, ◌<◌, false, Option, some, List, [], ◌∷◌, ◌≡◌, refl, ◌∙◌, ap, arith, leb, if◌then◌else◌, length,
  is_empty,
}
use meristem.Base.Int.{ℤ, pos, negsuc}
use meristem.Feed.Base64.{encode, decode, sixes, AllBelow, decode-encode}
use meristem.Feed.Cursor.{
  ok, err, Cursor, int64_limit, uint64_limit, to_word, put_uint64, uint64_from, encode_cursor,
  decode_raw, decode_cursor, Envelope, plain_or_scoped, decode_projection_cursor,
  decode_cursor_for_projection, invalid_cursor,
}

pub put_uint64-below : (w : ℕ) → AllBelow 256 (put_uint64 w)
unfolding put_uint64
put_uint64-below w = omega arith

pub uint64-put : (w : ℕ) → w < uint64_limit → uint64_from 0 (put_uint64 w) ≡ w
unfolding put_uint64 uint64_from
uint64-put w h = omega arith

pub length-put_uint64 : (w : ℕ) → length (put_uint64 w) ≡ 8
unfolding put_uint64
length-put_uint64 w = refl

-- Every cursor without a projection has eleven characters.
pub length-encode_cursor : (seq : ℤ) → length (encode_cursor seq) ≡ 11
unfolding encode_cursor encode put_uint64 sixes
length-encode_cursor seq = refl

abbrev pub plain_cursor : ℕ → Cursor
plain_cursor n = record { seq = n; projection = ""; version = 0 }

pub decode_raw-put :
    (w : ℕ)
    → w < uint64_limit
    → decode_raw (some (put_uint64 w))
      ≡ (if leb int64_limit w then err invalid_cursor else ok (plain_cursor w))
unfolding decode_raw
decode_raw-put w h = rw (uint64-put w h, length-put_uint64 w)

pub nonempty : (seq : ℤ) → is_empty (encode_cursor seq) ≡ false
unfolding encode_cursor encode put_uint64 sixes
nonempty seq = refl

pub raw_back : (seq : ℤ) → decode (encode_cursor seq) ≡ some (put_uint64 (to_word seq))
unfolding encode_cursor
raw_back seq = decode-encode (put_uint64 (to_word seq)) (put_uint64-below (to_word seq))

pub decode-word :
    (seq : ℤ) → decode_cursor (encode_cursor seq) ≡ decode_raw (some (put_uint64 (to_word seq)))
unfolding decode_cursor
decode-word seq = rw (nonempty seq) (ap decode_raw (raw_back seq))

pub word_pos : (n : ℕ) → n < int64_limit → to_word (pos n) ≡ n
word_pos n h = omega arith

-- A cursor without a projection decodes to the sequence number it was made of, and a negative one
-- is refused; its text has eleven characters.
pub decode-encode_cursor :
    (n : ℕ)
    → n < int64_limit
    → (decode_cursor (encode_cursor (pos n)) ≡ ok (plain_cursor n))
      × (decode_cursor (encode_cursor (negsuc n)) ≡ err invalid_cursor)
      × (length (encode_cursor (pos n)) ≡ 11)
decode-encode_cursor n h = (
  decode-word (pos n)
      ∙ (decode_raw-put (to_word (pos n)) (omega arith) ∙ (rw (word_pos n h) (ground (arith, h)))),
  decode-word (negsuc n) ∙ (decode_raw-put (to_word (negsuc n)) (omega arith) ∙ ground (arith, h)),
  length-encode_cursor (pos n),
)

-- The feed without a projection reads its own cursors.
pub decode_plain :
    (marshal : Envelope → List ℕ) (unmarshal : List ℕ → Option Envelope) (n v : ℕ)
    → n < int64_limit
    → decode_cursor_for_projection marshal unmarshal (encode_cursor (pos n)) "" v
      ≡ ok (plain_cursor n)
unfolding decode_cursor_for_projection
decode_plain marshal unmarshal n v h =
    ap (λ d. plain_or_scoped d (decode_projection_cursor marshal unmarshal (encode_cursor (pos n))))
      (decode-encode_cursor n h).0

pub is_empty-encode : (bytes : List ℕ) → 8 < length bytes → is_empty (encode bytes) ≡ false
unfolding encode sixes
is_empty-encode [] h = absurd (omega arith)
is_empty-encode (a ∷ []) h = refl
is_empty-encode (a ∷ b ∷ []) h = refl
is_empty-encode (a ∷ b ∷ c ∷ rest) h = refl
