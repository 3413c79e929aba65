-- ===== src/Wire/Headers.antt =====
-- `encodeHeaders` of packages/core/src/abi.ts. The packet is written front to back into a buffer of
-- exactly its size; `current` is the capacity of the reusable buffer.
use coraza_node.Base.{ℕ, ◌+◌, List, [], ◌∷◌, ◌++◌, length, leb, if◌then◌else◌, Option, none, some}
use coraza_node.Base.Text.{Text}
use coraza_node.Base.Words.{u32}
use coraza_node.Wire.Utf8.{utf8}

-- Name and value, encoded.
abbrev pub Entry : Type 0
Entry = List ℕ × List ℕ

unfoldable pub encode_entries : List (Text × Text) → List Entry
encode_entries [] = []
encode_entries ((name, value) ∷ headers) = (utf8 name, utf8 value) ∷ encode_entries headers

-- The first pass, which counts the bytes.
unfoldable pub packet_size : ℕ → List Entry → ℕ
packet_size total [] = total
packet_size total ((n, v) ∷ entries) = packet_size (total + (4 + length n + 4 + length v)) entries

-- The second pass.
unfoldable pub write_entries : List Entry → List ℕ
write_entries [] = []
write_entries ((n, v) ∷ entries) =
    u32 (length n) ++ (n ++ (u32 (length v) ++ (v ++ write_entries entries)))

-- The capacity of the buffer behind the packet: kept if it is large enough, else replaced.
unfoldable pub grow : Option ℕ → ℕ → Option ℕ
grow none total = none
grow (some current) total = if leb total current then some current else some total

unfoldable pub encode_headers : List (Text × Text) → Option ℕ → List ℕ × Option ℕ
unfolding encode_entries packet_size write_entries grow
encode_headers headers current =
    let entries = encode_entries headers in
    (u32 (length entries) ++ write_entries entries, grow current (packet_size 4 entries))
