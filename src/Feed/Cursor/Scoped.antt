-- ===== src/Feed/Cursor/Scoped.antt =====
-- The cursors of internal/feed/cursor.go are read by their own feed alone.
use meristem.Base.{
  ℕ, ◌<◌, ◌≤◌, String, false, Option, none, some, List, ◌∷◌, ◌≡◌, ◌≢◌, sym, ap, arith, str_eq,
  eq_iff, eq_refl, length, is_empty, Bool-cases, inl, inr,
}
use meristem.Base.Int.{pos}
use meristem.Feed.Base64.{decode, AllBelow, decode-encode}
use meristem.Feed.Cursor.{
  ok, err, Cursor, int64_limit, put_uint64, encode_cursor, decode_raw, decode_cursor, Envelope,
  check_envelope, encode_projection_cursor, decode_projection_cursor, decode_cursor_for_projection,
  invalid_cursor, projection_mismatch, envelope_of,
}
use meristem.Feed.Cursor.RoundTrip.{
  plain_cursor, nonempty, raw_back, decode-encode_cursor, decode_plain, is_empty-encode,
}

-- What a cursor needs of JSON: Unmarshal reads what Marshal wrote of its envelope, which is bytes, and
-- longer than a sequence number; and no JSON text begins with a zero byte.
pub record IsJson (marshal : Envelope → List ℕ) (unmarshal : List ℕ → Option Envelope)
    (e : Envelope) : Type 0 where
  pub reads : unmarshal (marshal e) ≡ some e
  pub bytes : AllBelow 256 (marshal e)
  pub long : 8 < length (marshal e)
  pub no_zero : (rest : List ℕ) → unmarshal (0 ∷ rest) ≡ none

module _ (marshal : Envelope → List ℕ) (unmarshal : List ℕ → Option Envelope) (seq : ℕ)
    (projection : String) (version : ℕ)
    (json : IsJson marshal unmarshal (envelope_of seq projection version)) (named : projection ≢ "")
    (defined : 1 ≤ version) where
  abbrev envelope : Envelope
  envelope = envelope_of seq projection version

  abbrev own : Cursor
  own = record { seq = seq; projection = projection; version = version }

  unnamed : str_eq projection "" ≡ false
  unnamed = elim (Bool-cases (str_eq projection "")) [
    | inl e ↦ absurd (named ((eq_iff projection "").0 e))
    | inr e ↦ e
  ]

  own_back :
      decode (encode_projection_cursor marshal unmarshal seq projection version)
      ≡ some (marshal envelope)
  unfolding encode_projection_cursor
  own_back = decode-encode (marshal envelope) (json.bytes)

  own_nonempty :
      is_empty (encode_projection_cursor marshal unmarshal seq projection version) ≡ false
  unfolding encode_projection_cursor
  own_nonempty = is_empty-encode (marshal envelope) (json.long)

  own_scoped :
      decode_projection_cursor marshal unmarshal
        (encode_projection_cursor marshal unmarshal seq projection version)
      ≡ ok own
  unfolding decode_projection_cursor
  own_scoped = rw (own_nonempty, own_back, json.reads) (ground (arith, unnamed, defined))

  own_plain :
      decode_cursor (encode_projection_cursor marshal unmarshal seq projection version)
      ≡ err invalid_cursor
  unfolding decode_cursor decode_raw
  own_plain = rw (own_nonempty, own_back) (ground (arith, json.long))

  no_json : (x : ℕ) (rest : List ℕ) → x ≡ 0 → unmarshal (x ∷ rest) ≡ none
  no_json x rest h = rw h (json.no_zero rest)

  plain_scoped :
      (n : ℕ)
      → n < 72_057_594_037_927_936
      → decode_projection_cursor marshal unmarshal (encode_cursor (pos n)) ≡ err invalid_cursor
  unfolding decode_projection_cursor put_uint64 check_envelope
  plain_scoped n h =
      rw (nonempty (pos n), raw_back (pos n)) (ap check_envelope (no_json _ _ (omega arith)))

  -- A cursor of a projection, at version 1 or later, decodes for that projection and version to its
  -- sequence number, and every other projection or version and the feed without one refuse it as a
  -- mismatch. A cursor without a projection whose sequence number is below 2 ^ 56 is refused so for
  -- every projection, and decodes for the feed without one.
  pub cursors_scoped :
      (decode_cursor_for_projection marshal unmarshal
          (encode_projection_cursor marshal unmarshal seq projection version)
          projection
          version
        ≡ ok own)
      × ((other : String) (v : ℕ)
          → (other ≡ projection → v ≢ version)
          → decode_cursor_for_projection marshal unmarshal
              (encode_projection_cursor marshal unmarshal seq projection version)
              other
              v
            ≡ err projection_mismatch)
      × ((n : ℕ)
          → n < 72_057_594_037_927_936
          → decode_cursor_for_projection marshal unmarshal
              (encode_cursor (pos n))
              projection
              version
            ≡ err projection_mismatch)
      × ((n v : ℕ)
          → n < int64_limit
          → decode_cursor_for_projection marshal unmarshal (encode_cursor (pos n)) "" v
            ≡ ok (plain_cursor n))
  unfolding decode_cursor_for_projection
  cursors_scoped = (
    rw (own_scoped, unnamed) (ground (arith, eq_refl projection)),
    λ other v d.
        rw (own_scoped, own_plain)
          (elim (Bool-cases (str_eq projection other)) [
            | inl e ↦
                let q : other ≡ projection = sym ((eq_iff projection other).0 e) in
                ground (arith, d q, unnamed, ap (λ s. str_eq s "") q, e)
            | inr e ↦ ground (arith, unnamed, e)
          ]),
    λ n h.
        rw (plain_scoped n h, unnamed) (ground (arith, (decode-encode_cursor n (omega arith)).0)),
    λ n v h. decode_plain marshal unmarshal n v h,
  )
