-- ===== src/WasmPatch/Grow.antt =====
-- What `patchInitialMemory` of packages/core/src/wasmPatch.ts does to a module, as a change of its
-- memory section.
use coraza_node.Base.{
  ℕ, suc, ◌-◌, ◌%◌, ◌≤◌, ◌≡◌, ◌≢◌, ◌⊎◌, refl, ap₂, ◌∙◌, Bool, true, false, ◌&&◌, List, [], ◌∷◌,
  ◌++◌, some, length, length-append, append_assoc, All, ◌==◌, le→leb, arith,
}
use coraza_node.WasmPatch.{
  has_magic, is_memory, memory_section, section_memory, find_section_id_index,
}
use coraza_node.WasmPatch.Uleb.{write_uleb}
use coraza_node.WasmPatch.Sections.{Section, find_section}
use coraza_node.WasmPatch.Layout.{
  Reads, Part, IsSized, bytes_of, encode, placed, section_at-placed, find_section-hit,
  find_section-skip, inside, length-bytes_of,
}

-- A memory section: its size and count as written, the limits, and what follows the least size.
pub record Memory : Type 0 where
  pub size : List ℕ
  pub count_bytes : List ℕ
  pub flags : ℕ
  pub min_bytes : List ℕ
  pub min : ℕ
  pub rest : List ℕ

abbrev pub content_of : Memory → List ℕ
content_of m = m.count_bytes ++ (m.flags ∷ (m.min_bytes ++ m.rest))

abbrev pub part_of : Memory → Part
part_of m = record { id = section_memory; size = m.size; content = content_of m }

-- The bytes are read as the numbers they stand for, and something follows the least size only where
-- the flags announce a largest one.
abbrev pub IsMemory : Memory → Type 0
IsMemory m =
    Reads m.size (length (content_of m))
    × Reads m.count_bytes 1
    × Reads m.min_bytes m.min
    × ((m.flags % 2 ≡ 1) ⊎ (m.rest ≡ []))

-- The section that the code writes: a count of one byte, the same flags, and what followed.
abbrev pub grow : Memory → ℕ → Memory
grow m pages = record {
  size = write_uleb (length (1 ∷ m.flags ∷ (write_uleb pages ++ m.rest)));
  count_bytes = 1 ∷ [];
  flags = m.flags;
  min_bytes = write_uleb pages;
  min = pages;
  rest = m.rest;
}

abbrev pub header : ℕ × ℕ × ℕ × ℕ → List ℕ
header (a, b, c, d) = 0x00 ∷ 0x61 ∷ 0x73 ∷ 0x6d ∷ a ∷ b ∷ c ∷ d ∷ []

abbrev pub IsOther : Part → Type 0
IsOther part = part.id ≢ section_memory

-- The sections before the memory section, and the bytes after it.
module _ (version : ℕ × ℕ × ℕ × ℕ) (before : List Part) (after : List ℕ) where
  abbrev pub module_with : Part → List ℕ
  module_with part = header version ++ (encode before ++ (bytes_of part ++ after))

  abbrev pub start_of_memory : ℕ
  start_of_memory = length (header version ++ encode before)

  pub magic : (part : Part) → has_magic (module_with part) ≡ true
  unfolding has_magic
  magic part = rw (le→leb 8 (length (module_with part)) (omega arith)) refl

length-encode : (parts : List Part) → length parts ≤ length (encode parts)
length-encode [] = omega arith
length-encode (part ∷ parts) =
    omega (
      arith,
      length-encode parts,
      length-append (bytes_of part) (encode parts),
      length-bytes_of part,
    )

-- The walk of the code finds the memory section, for a test that the sections before it fail.
module _ (p : Section → Bool) (version : ℕ × ℕ × ℕ × ℕ) (before : List Part) (after : List ℕ)
    (part : Part) (sized : All IsSized before)
    (misses : All (λ part. (i : ℕ) → p (placed part i) ≡ false) before) (part_sized : IsSized part)
    (hits : p (placed part (start_of_memory version before after)) ≡ true) where
  found :
      find_section p
        (length (module_with version before after part))
        (module_with version before after part)
        8
      ≡ some (some (placed part (start_of_memory version before after)))
  found =
      let wasm : List ℕ = module_with version before after part in
      let pre : List ℕ = header version ++ encode before in
      let moved : wasm ≡ pre ++ (bytes_of part ++ after) = simp append_assoc refl in
      let n : ℕ = length wasm - suc (length before) in
      find_section-skip p before (length wasm) (suc n) (header version) (bytes_of part ++ after)
        sized misses
        (omega
          (arith, length-encode before, length-append (encode before) (bytes_of part ++ after)))
      ∙ ap₂ (λ (w : List ℕ) (i : ℕ). find_section p (suc n) w i) moved (omega arith)
      ∙ find_section-hit p (pre ++ (bytes_of part ++ after)) (length pre)
          (inside pre ((part.size ++ part.content) ++ after) part.id) n (placed part (length pre))
          (section_at-placed part pre after part_sized) hits

differs : (a b : ℕ) → a ≢ b → (a == b) ≡ false
differs a b h = ground (arith, h)

other-misses :
    (parts : List Part)
    → All IsOther parts
    → All (λ part. (i : ℕ) → is_memory (placed part i) ≡ false) parts
other-misses [] h = tt
other-misses (part ∷ parts) (h, hs) =
    ((λ i. differs part.id section_memory h), other-misses parts hs)

-- The test of `findSectionIdIndex`.
abbrev starts_at : ℕ → Section → Bool
starts_at start s = s.id == section_memory && s.start == start

index-misses :
    (start : ℕ) (parts : List Part)
    → All IsOther parts
    → All (λ part. (i : ℕ) → starts_at start (placed part i) ≡ false) parts
index-misses start [] h = tt
index-misses start (part ∷ parts) (h, hs) =
    ((λ i. rw (differs part.id section_memory h) refl), index-misses start parts hs)

module _ (version : ℕ × ℕ × ℕ × ℕ) (before : List Part) (after : List ℕ) (m : Memory)
    (sized : All IsSized before) (others : All IsOther before)
    (is_sized : IsSized (part_of m)) where
  abbrev pub memory_placed : Section
  memory_placed = placed (part_of m) (start_of_memory version before after)

  pub memory_section-found :
      memory_section (module_with version before after (part_of m)) ≡ some (some memory_placed)
  unfolding memory_section
  memory_section-found =
      found is_memory version before after (part_of m) sized (other-misses before others) is_sized
        refl

  pub index-found :
      find_section_id_index
        (module_with version before after (part_of m))
        memory_placed.start
        section_memory
      ≡ some (some memory_placed)
  unfolding find_section_id_index
  index-found =
      found (starts_at memory_placed.start) version before after (part_of m) sized
        (index-misses memory_placed.start before others) is_sized (same memory_placed.start)
    where
      same : (a : ℕ) → (a == a) ≡ true
      same a = ground arith
