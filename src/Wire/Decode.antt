-- ===== src/Wire/Decode.antt =====
-- The reading side: `txProcessRequestBundle` of wasm/bundle.go up to its first phase, and
-- `parseHeaderPacket` of wasm/encoding.go. The list is what the offset has not reached.
use coraza_node.Base.{
  ℕ, zero, suc, ◌+◌, ◌*◌, ◌%◌, ◌^◌, List, [], ◌∷◌, Option, none, some, length, ltb, take, drop,
  if◌then◌else◌,
}
use coraza_node.Wire.Headers.{Entry}

infixl 5 ◌>>=◌
abbrev pub ◌>>=◌ {ℓ κ} : {A : Type ℓ} {B : Type κ} → Option A → (A → Option B) → Option B
none >>= k = none
some a >>= k = k a

abbrev pub Bytes : Type 0
Bytes = List ℕ

unfoldable pub read_u8 : Bytes → Option (ℕ × Bytes)
read_u8 (a ∷ rest) = some (a, rest)
read_u8 [] = none

unfoldable pub read_u16 : Bytes → Option (ℕ × Bytes)
read_u16 (a ∷ b ∷ rest) = some (a + b * 256, rest)
read_u16 _ = none

unfoldable pub read_u32 : Bytes → Option (ℕ × Bytes)
read_u32 (a ∷ b ∷ c ∷ d ∷ rest) = some (a + b * 256 + c * 65536 + d * 16777216, rest)
read_u32 _ = none

unfoldable pub read_blob : ℕ → Bytes → Option (Bytes × Bytes)
read_blob n pkt = if ltb (length pkt) n then none else some (take n pkt, drop n pkt)

pub record Bundle : Type 0 where
  pub addr : Bytes
  pub cport : ℕ
  pub sport : ℕ
  pub method : Bytes
  pub proto : Bytes
  pub url : Bytes
  pub hdr : Bytes
  pub body : Bytes

-- `none` is the answer "malformed bundle".
unfoldable pub decode_bundle : Bytes → Option Bundle
decode_bundle pkt = do
  (addr_len, pkt) ← read_u16 pkt
  (addr, pkt) ← read_blob addr_len pkt
  (cport, pkt) ← read_u16 pkt
  (sport, pkt) ← read_u16 pkt
  (method_len, pkt) ← read_u8 pkt
  (method, pkt) ← read_blob method_len pkt
  (proto_len, pkt) ← read_u8 pkt
  (proto, pkt) ← read_blob proto_len pkt
  (url_len, pkt) ← read_u32 pkt
  (url, pkt) ← read_blob url_len pkt
  (hdr_len, pkt) ← read_u32 pkt
  (hdr, pkt) ← read_blob hdr_len pkt
  (body_len, pkt) ← read_u32 pkt
  (body, pkt) ← read_blob body_len pkt
  some (record {
    addr = addr;
    cport = cport;
    sport = sport;
    method = method;
    proto = proto;
    url = url;
    hdr = hdr;
    body = body;
  })

-- Go's error, or a slice out of range.
pub data Parsed : Type 0 where
  parsed : List Entry → Parsed
  too_short truncated panic : Parsed

-- `pkt[i : i+n]` with the test before it, and `i += n`, all on 32-bit numbers. The list is
-- `pkt[i:]`.
pub data Piece : Type 0 where
  piece : (bytes : Bytes) (next : ℕ) (rest : Bytes) → Piece
  ends panics : Piece

unfoldable pub slice_piece : (total i n : ℕ) → Bytes → Piece
slice_piece total i n rest =
    if ltb total ((i + n) % 2 ^ 32)
    then ends
    else if ltb (length rest) n
    then panics
    else piece (take n rest) ((i + n) % 2 ^ 32) (drop n rest)

abbrev pub word : Bytes → ℕ
word (a ∷ b ∷ c ∷ d ∷ rest) = a + b * 256 + c * 65536 + d * 16777216
word _ = 0

abbrev then_piece : Piece → (Bytes → ℕ → Bytes → Piece) → Piece
then_piece (piece bytes next rest) k = k bytes next rest
then_piece ends k = ends
then_piece panics k = panics

-- A length and the bytes that it counts: a name or a value.
unfoldable pub read_field : (total i : ℕ) → Bytes → Piece
read_field total i rest =
    then_piece (slice_piece total i 4 rest)
      λ size next more. slice_piece total next (word size) more

abbrev pub then_parse : Piece → (Bytes → ℕ → Bytes → Parsed) → Parsed
then_parse (piece bytes next rest) k = k bytes next rest
then_parse ends k = truncated
then_parse panics k = panic

abbrev pub cons_entry : Entry → Parsed → Parsed
cons_entry e (parsed es) = parsed (e ∷ es)
cons_entry e other = other

-- The loop over `count`. Where it fails the callback has seen the entries before.
unfoldable pub parse_entries : (count total i : ℕ) → Bytes → Parsed
parse_entries zero total i rest = parsed []
parse_entries (suc k) total i rest = then_parse (read_field total i rest) λ name i' rest'.
    then_parse (read_field total i' rest')
      λ value i'' rest''. cons_entry (name, value) (parse_entries k total i'' rest'')

unfoldable pub parse_header_packet : Bytes → Parsed
parse_header_packet pkt =
    if ltb (length pkt) 4
    then too_short
    else parse_entries (word (take 4 pkt)) (length pkt) 4 (drop 4 pkt)
