-- ===== src/Wire/Packet.antt =====
-- The header packet: its size, its buffer, and its reading.
use coraza_node.Base.{
  ℕ, ◌+◌, ◌^◌, ◌≤◌, ◌<◌, ◌≡◌, refl, List, [], ◌∷◌, ◌++◌, Option, some, length, leb, max, arith,
  length-append, take_append, drop_append, Bool-cases, inl, inr, ◌∙◌, ap,
}
use native.Mathlib.Nat.{mod-eq_of_lt}
use coraza_node.Base.Text.{Text}
use coraza_node.Base.Words.{u32}
use coraza_node.Wire.Headers.{
  Entry, encode_entries, packet_size, write_entries, grow, encode_headers,
}
use coraza_node.Wire.Decode.{
  Bytes, parsed, piece, slice_piece, word, read_field, parse_entries, parse_header_packet,
}

packet_size-length :
    (total : ℕ) (entries : List Entry)
    → packet_size total entries ≡ total + length (write_entries entries)
unfolding packet_size write_entries u32
packet_size-length total [] = omega arith
packet_size-length total ((n, v) ∷ entries) = omega (
  arith,
  packet_size-length (total + (4 + length n + 4 + length v)) entries,
  length-append n (u32 (length v) ++ (v ++ write_entries entries)),
  length-append v (write_entries entries),
)

encode_headers-length :
    (headers : List (Text × Text)) (current : Option ℕ)
    → packet_size 4 (encode_entries headers) ≡ length (encode_headers headers current).0
unfolding encode_headers u32
encode_headers-length headers current = packet_size-length 4 (encode_entries headers) ∙ omega arith

grow_lem : (current total : ℕ) → grow (some current) total ≡ some (max current total)
unfolding grow
grow_lem current total = elim (Bool-cases (leb total current)) [
  | inl e ↦ rw e (ap some (ground (arith, e)))
  | inr e ↦ rw e (ap some (ground (arith, e)))
]

encode_headers-buffer :
    (headers : List (Text × Text)) (current : Option ℕ)
    → (encode_headers headers current).1 ≡ grow current (length (encode_headers headers current).0)
unfolding encode_headers
encode_headers-buffer headers current = ap (grow current) (encode_headers-length headers current)

-- The first pass, which starts at the four bytes of the count, counts exactly the bytes that the
-- second one writes. The capacity of the buffer that is kept for the next call is the greater of the
-- former one and the packet's length, so the packet fits it and it never shrinks.
pub encode_headers-grow :
    (headers : List (Text × Text)) (current : ℕ)
    → let packet = (encode_headers headers (some current)).0 in
      (packet_size 4 (encode_entries headers) ≡ length packet)
      × ((encode_headers headers (some current)).1 ≡ some (max current (length packet)))
encode_headers-grow headers current = (
  encode_headers-length headers (some current),
  encode_headers-buffer headers (some current) ∙ grow_lem current _,
)

-- The bytes at hand are the rest of a packet that 32 bits can count.
abbrev At : (total i : ℕ) → Bytes → Type 0
At total i rest = (i + length rest ≡ total) × (total < 2 ^ 32)

slice_piece-append :
    (total i : ℕ) (bytes rest : Bytes)
    → At total i (bytes ++ rest)
    → slice_piece total i (length bytes) (bytes ++ rest) ≡ piece bytes (i + length bytes) rest
unfolding slice_piece
slice_piece-append total i bytes rest at = ground (
  arith,
  length-append bytes rest,
  take_append bytes rest,
  drop_append bytes rest,
  mod-eq_of_lt {n = i + length bytes} {m = 2 ^ 32} (omega (arith, length-append bytes rest)),
)

word-u32 : (v : ℕ) → v < 2 ^ 32 → word (u32 v) ≡ v
unfolding u32
word-u32 v h = omega arith

length-u32 : (v : ℕ) (rest : Bytes) → length (u32 v ++ rest) ≡ 4 + length rest
unfolding u32
length-u32 v rest = omega arith

slice_piece-u32 :
    (total i v : ℕ) (rest : Bytes)
    → At total i (u32 v ++ rest)
    → slice_piece total i 4 (u32 v ++ rest) ≡ piece (u32 v) (i + 4) rest
slice_piece-u32 total i v rest at = unfold u32 in slice_piece-append total i (u32 v) rest at

read_field-append :
    (total i : ℕ) (bytes rest : Bytes)
    → At total i (u32 (length bytes) ++ (bytes ++ rest))
    → read_field total i (u32 (length bytes) ++ (bytes ++ rest))
      ≡ piece bytes (i + 4 + length bytes) rest
unfolding read_field
read_field-append total i bytes rest at =
    let sizes = length-u32 (length bytes) (bytes ++ rest) in
    rw
      (
        slice_piece-u32 total i (length bytes) (bytes ++ rest) at,
        word-u32 (length bytes) (omega (arith, sizes, length-append bytes rest)),
      )
      (slice_piece-append total (i + 4) bytes rest (omega (arith, sizes)))

parse_entries-write :
    (entries : List Entry) (total i : ℕ)
    → At total i (write_entries entries)
    → parse_entries (length entries) total i (write_entries entries) ≡ parsed entries
unfolding parse_entries write_entries
parse_entries-write [] total i at = refl
parse_entries-write ((n, v) ∷ entries) total i at =
    let tail = write_entries entries in
    let second = u32 (length v) ++ (v ++ tail) in
    let at₁ : At total (i + 4 + length n) second =
      omega (arith, length-u32 (length n) (n ++ second), length-append n second) in
    let at₂ : At total (i + 4 + length n + 4 + length v) tail =
      omega (arith, at₁, length-u32 (length v) (v ++ tail), length-append v tail) in
    rw (
      read_field-append total i n second at,
      read_field-append total (i + 4 + length n) v tail at₁,
      parse_entries-write entries total (i + 4 + length n + 4 + length v) at₂,
    )

parse_header_packet-u32 :
    (count : ℕ) (rest : Bytes)
    → count < 2 ^ 32
    → parse_header_packet (u32 count ++ rest) ≡ parse_entries count (4 + length rest) 4 rest
unfolding parse_header_packet u32
parse_header_packet-u32 count rest h = ground (arith, word-u32 count h)

length-le-write_entries : (entries : List Entry) → length entries ≤ length (write_entries entries)
unfolding write_entries
length-le-write_entries [] = omega arith
length-le-write_entries ((n, v) ∷ entries) = omega (
  arith,
  length-le-write_entries entries,
  length-u32 (length n) (n ++ (u32 (length v) ++ (v ++ write_entries entries))),
  length-append n (u32 (length v) ++ (v ++ write_entries entries)),
  length-u32 (length v) (v ++ write_entries entries),
  length-append v (write_entries entries),
)

-- A header packet shorter than 2^32 bytes is parsed into the encoded names and values, in order.
pub parse_header_packet-encode :
    (headers : List (Text × Text)) (current : Option ℕ)
    → length (encode_headers headers current).0 < 2 ^ 32
    → parse_header_packet (encode_headers headers current).0 ≡ parsed (encode_entries headers)
parse_header_packet-encode headers current h =
    let es = encode_entries headers in
    let packet : (encode_headers headers current).0 ≡ u32 (length es) ++ write_entries es =
      unfold encode_headers in refl in
    let sizes = length-u32 (length es) (write_entries es) in
    let short : 4 + length (write_entries es) < 2 ^ 32 = omega (arith, rw packet at h, sizes) in
    rw packet (
      parse_header_packet-u32 (length es) (write_entries es)
        (omega (arith, short, length-le-write_entries es))
      ∙ parse_entries-write es _ 4 (refl, short))
