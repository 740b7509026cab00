-- ===== src/Feed/Examples.antt =====
-- The pages of internal/feed/feed.go and the cursors of cursor.go on concrete sequence numbers, with a JSON that holds the
-- sequence number alone.
use meristem.Base.{
  ◌++◌, inl, leb, Bool, true, false, ℕ, ◌<◌, ◌==◌, if◌then◌else◌, String, Option, none, some, List,
  [], ◌∷◌, ◌≡◌, ◌≢◌, refl, arith, length,
}
use meristem.Base.Int.{pos, negsuc}
use meristem.Feed.Base64.{encode, decode, sixes, symbol, sextet, sextets, regroup}
use meristem.Feed.Read.{Row, rows_after, scan, query, query_after}
use meristem.Feed.Read.Whole.{IsPage, shown, query_after-IsPage}
use meristem.Feed.Read.Sorted.{after, drop}
use meristem.Feed.Read.Start.{start_seq, encode_cursor_for}
use meristem.Feed.Read.Resume.{start_seq-query_after}
use meristem.Feed.Cursor.{
  Envelope, ok, err, invalid_cursor, projection_mismatch, envelope_of, put_uint64, uint64_from,
  encode_cursor, decode_cursor, decode_raw, encode_projection_cursor, decode_cursor_for_projection,
  int64_limit,
}
use meristem.Feed.Cursor.RoundTrip.{plain_cursor, decode-encode_cursor}
use meristem.Feed.Cursor.Scoped.{IsJson, cursors_scoped}

-- The text of the cursor at 42.
cursor_text :
    encode_cursor (pos 42)
    ≡ (b'A' ∷ b'A' ∷ b'A' ∷ b'A' ∷ b'A' ∷ b'A' ∷ b'A' ∷ b'A' ∷ b'A' ∷ b'C' ∷ b'o' ∷ [])
unfolding encode_cursor encode sixes symbol put_uint64
cursor_text = refl

-- A text of ten characters is refused.
short_is_refused :
    decode_cursor (b'A' ∷ b'A' ∷ b'A' ∷ b'A' ∷ b'A' ∷ b'A' ∷ b'A' ∷ b'A' ∷ b'A' ∷ b'C' ∷ [])
    ≡ err invalid_cursor
unfolding decode_cursor decode_raw decode sextets sextet regroup
short_is_refused = refl

decode-encode_cursor_example :
    (decode_cursor (encode_cursor (pos 42)) ≡ ok (plain_cursor 42))
    × (decode_cursor (encode_cursor (negsuc 42)) ≡ err invalid_cursor)
    × (length (encode_cursor (pos 42)) ≡ 11)
decode-encode_cursor_example = decode-encode_cursor 42 (omega arith)

abbrev marshal : Envelope → List ℕ
unfolding put_uint64
marshal e = elim e.seq [ pos n ↦ b'{' ∷ put_uint64 n | negsuc n ↦ [] ]

abbrev unmarshal : List ℕ → Option Envelope
unfolding uint64_from
unmarshal [] = none
unmarshal (c ∷ cs) = if c == b'{' then some (envelope_of (uint64_from 0 cs) "operator" 2) else none

json : IsJson marshal unmarshal (envelope_of 42 "operator" 2)
unfolding put_uint64 uint64_from
json = record { reads = refl; bytes = omega arith; long = omega arith; no_zero = λ rest. refl }

cursors_scoped_example :
    (decode_cursor_for_projection marshal unmarshal
        (encode_projection_cursor marshal unmarshal 42 "operator" 2)
        "operator"
        2
      ≡ ok (record { seq = 42; projection = "operator"; version = 2 }))
    × ((other : String) (v : ℕ)
        → (other ≡ "operator" → v ≢ 2)
        → decode_cursor_for_projection marshal unmarshal
            (encode_projection_cursor marshal unmarshal 42 "operator" 2)
            other
            v
          ≡ err projection_mismatch)
    × ((n : ℕ)
        → n < 72_057_594_037_927_936
        → decode_cursor_for_projection marshal unmarshal (encode_cursor (pos n)) "operator" 2
          ≡ err projection_mismatch)
    × ((n v : ℕ)
        → n < int64_limit
        → decode_cursor_for_projection marshal unmarshal (encode_cursor (pos n)) "" v
          ≡ ok (plain_cursor n))
cursors_scoped_example =
    cursors_scoped marshal unmarshal 42 "operator" 2 json (λ e. cc) (omega arith)

-- Rows of the kinds 1, 2 and 3; the feed queries 1 and 2, and its filter passes over 2.
abbrev row : ℕ → ℕ → Row ℕ
row seq kind = record { seq = seq; item = kind }

abbrev log : List (Row ℕ)
log = row 2 1 ∷ row 3 2 ∷ row 5 1 ∷ row 6 3 ∷ row 8 1 ∷ []

abbrev queried : ℕ → Bool
queried kind = leb kind 2

abbrev matches : ℕ → Bool
matches kind = kind == 1

first_page :
    query_after queried matches log 0 1
    ≡ record { items = row 2 1 ∷ []; has_more = true; next_seq = 2 }
unfolding query_after query scan rows_after
first_page = refl

-- After the first page, with room for two, the rest is shown and nothing is left.
last_page :
    query_after queried matches log 2 2
    ≡ record { items = row 5 1 ∷ row 8 1 ∷ []; has_more = false; next_seq = 8 }
unfolding query_after query scan rows_after
last_page = refl

below : (query_after queried matches log 0 1).next_seq < int64_limit
unfolding query_after query scan rows_after
below = omega arith

query_after-IsPage_example : IsPage queried matches log 0 1 (query_after queried matches log 0 1)
query_after-IsPage_example =
    query_after-IsPage queried matches log 0 0 1 (omega arith) (omega arith)

-- The cursor of the first page, where a row was added since.
start_seq-query_after_example :
    (start_seq marshal unmarshal
        (log ++ row 9 1 ∷ [])
        (encode_cursor_for marshal unmarshal (query_after queried matches log 0 1).next_seq "" 0)
        ""
        0
      ≡ ok (query_after queried matches log 0 1).next_seq)
    × (after (shown queried matches) (query_after queried matches log 0 1).next_seq log
        ≡ drop 1 (after (shown queried matches) 0 log))
start_seq-query_after_example =
    start_seq-query_after marshal unmarshal log (row 9 1 ∷ []) queried matches 0 1 0 0 (inl refl)
      (omega arith) (omega arith) below
