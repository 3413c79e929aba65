-- ===== src/WasmPatch/Patched.antt =====
-- `readInitialMemoryPages` and `patchInitialMemory` of packages/core/src/wasmPatch.ts on a module
-- that has a memory section.
use coraza_node.Base.{
  ℕ, suc, ◌+◌, ◌-◌, ◌%◌, ◌≤◌, ◌≡◌, inl, inr, refl, sym, ap, ap₂, ◌∙◌, Bool, true, false, List, [],
  ◌∷◌, ◌++◌, some, get_or, length, length-append, append_assoc, All, leb, ◌==◌, le→leb,
  if◌then◌else◌, arith, Bool-cases, take, drop,
}
use coraza_node.WasmPatch.{
  section_memory, read_initial_memory_pages, padded, new_content, splice, spliced, rebuilt, grown,
  counted, patch_initial_memory, patch_memory_section, patched_at,
}
use coraza_node.WasmPatch.Uleb.{read_uleb, write_uleb}
use coraza_node.WasmPatch.Layout.{
  Part, IsSized, bytes_of, encode, Reads-at, byte-at, take-at, drop-at,
}
use coraza_node.WasmPatch.Grow.{
  Memory, grow, content_of, part_of, IsMemory, IsOther, header, module_with, magic, memory_placed,
  memory_section-found, index-found,
}

padded-append : (xs ys : List ℕ) → padded (length xs) (xs ++ ys) ≡ xs
unfolding padded
padded-append [] ys = refl
padded-append (x ∷ xs) ys = ap (◌∷◌ x) (padded-append xs ys)

module _ (version : ℕ × ℕ × ℕ × ℕ) (before : List Part) (after : List ℕ) (m : Memory)
    (sized : All IsSized before) (others : All IsOther before) (is_memory : IsMemory m) where
  abbrev wasm : List ℕ
  wasm = module_with version before after (part_of m)

  abbrev start : ℕ
  start = (memory_placed version before after m sized others is_memory.0).start

  abbrev pre : List ℕ
  pre = header version ++ encode before

  -- The indices of the parts of the section.
  abbrev after_count : ℕ
  after_count = start + length m.count_bytes

  count-read : read_uleb wasm start ≡ some (1, after_count)
  count-read =
      Reads-at wasm (pre ++ (section_memory ∷ m.size)) start (simp length-append (omega arith))
        m.count_bytes ((m.flags ∷ (m.min_bytes ++ m.rest)) ++ after) 1 is_memory.1
        (simp append_assoc refl)

  flags-read : get_or wasm after_count 0 ≡ m.flags
  flags-read =
      byte-at wasm (pre ++ (section_memory ∷ (m.size ++ m.count_bytes))) after_count
        (simp length-append (omega arith)) m.flags ((m.min_bytes ++ m.rest) ++ after)
        (simp append_assoc refl)

  min-read : read_uleb wasm (suc after_count) ≡ some (m.min, suc after_count + length m.min_bytes)
  min-read =
      Reads-at wasm (pre ++ (section_memory ∷ (m.size ++ (m.count_bytes ++ (m.flags ∷ [])))))
        (suc after_count) (simp length-append (omega arith)) m.min_bytes (m.rest ++ after) m.min
        is_memory.2 (simp append_assoc refl)

  abbrev stop : ℕ
  stop = (memory_placed version before after m sized others is_memory.0).stop

  abbrev after_min : ℕ
  after_min = suc after_count + length m.min_bytes

  stop-drop : drop stop wasm ≡ after
  stop-drop =
      drop-at wasm (pre ++ bytes_of (part_of m)) stop (simp length-append (omega arith)) after
        (simp append_assoc refl)

  rest-drop : drop after_min wasm ≡ m.rest ++ after
  rest-drop =
      drop-at wasm
        (pre ++ (section_memory ∷ (m.size ++ (m.count_bytes ++ (m.flags ∷ m.min_bytes))))) after_min
        (simp length-append (omega arith)) (m.rest ++ after) (simp append_assoc refl)

  id-take : take (suc (length pre)) wasm ≡ pre ++ (section_memory ∷ [])
  id-take =
      take-at wasm (pre ++ (section_memory ∷ [])) (suc (length pre))
        (simp length-append (omega arith)) ((m.size ++ content_of m) ++ after)
        (simp append_assoc refl)

  rest-length : stop - after_min ≡ length m.rest
  rest-length = omega (
    arith,
    length-append m.count_bytes (m.flags ∷ (m.min_bytes ++ m.rest)),
    length-append m.min_bytes m.rest,
  )

  rest-le : after_min ≤ stop
  rest-le = omega (
    arith,
    length-append m.count_bytes (m.flags ∷ (m.min_bytes ++ m.rest)),
    length-append m.min_bytes m.rest,
  )

  module _ (pages : ℕ) where
    abbrev new_bytes : List ℕ
    new_bytes = 1 ∷ m.flags ∷ (write_uleb pages ++ m.rest)

    abbrev result : List ℕ
    result = module_with version before after (part_of (grow m pages))

    splice-grow : splice wasm start stop pages new_bytes ≡ some result
    splice-grow =
        ap (spliced wasm start stop pages new_bytes)
          (index-found version before after m sized others is_memory.0)
        ∙ ap₂ (λ (t d : List ℕ). some (t ++ (write_uleb (length new_bytes) ++ (new_bytes ++ d))))
            id-take stop-drop
        ∙ ap some (simp append_assoc refl)

    kept : new_content wasm m.flags after_min (stop - after_min) pages ≡ new_bytes
    unfolding new_content
    kept = rw rest-length (rw rest-drop (rw (padded-append m.rest after) refl))

    dropped : m.rest ≡ [] → new_content wasm m.flags after_min 0 pages ≡ new_bytes
    unfolding new_content padded
    dropped e = ap (λ (r : List ℕ). 1 ∷ m.flags ∷ (write_uleb pages ++ r)) (sym e)

    rebuilt-grow : rebuilt wasm start stop pages m.flags after_min ≡ some result
    rebuilt-grow = elim (Bool-cases (m.flags % 2 == 1)) [
      | inl odd ↦ rw odd (
          rw (le→leb after_min stop rest-le) (ap (splice wasm start stop pages) kept ∙ splice-grow))
      | inr even ↦ rw even (
          ap (splice wasm start stop pages) (
            dropped (elim is_memory.3 [
              | inl odd ↦ absurd (ground (arith, odd, even))
              | inr empty ↦ empty
            ]))
          ∙ splice-grow)
    ]

    patch-grow :
        patch_memory_section wasm start stop pages
        ≡ some (
            module_with version before after
              (part_of (if leb pages m.min then m else grow m pages)))
    unfolding patch_memory_section
    patch-grow =
        ap (counted wasm start stop pages) count-read
        ∙ ap₂ (grown wasm start stop pages) flags-read min-read
        ∙ chosen (leb pages m.min)
      where
        chosen :
            (b : Bool)
            → (if b then some wasm else rebuilt wasm start stop pages m.flags after_min)
              ≡ some (module_with version before after (part_of (if b then m else grow m pages)))
        chosen true = refl
        chosen false = rebuilt-grow

-- The code reads the least number of pages that the memory section states.
pub read_initial_memory_pages-min :
    (version : ℕ × ℕ × ℕ × ℕ) (before : List Part) (after : List ℕ) (m : Memory)
    → All IsSized before
    → All IsOther before
    → IsMemory m
    → read_initial_memory_pages (module_with version before after (part_of m)) ≡ some (some m.min)
unfolding read_initial_memory_pages
read_initial_memory_pages-min version before after m sized others h =
    rw (magic version before after (part_of m)) (
      rw (memory_section-found version before after m sized others h.0) (
        rw (count-read version before after m sized others h)
          (rw (min-read version before after m sized others h) refl)))

-- On a module whose sections before the memory section have the sizes that they state, and whose
-- memory section has one entry, with bytes after its least size only where the flags announce a
-- largest one, the patch succeeds and gives the same module, byte for byte, but for the memory
-- section: that stands as it was if its least size is at least `pages`, and else is written anew
-- with `pages`, its flags and its largest size. The sizes may be written in any number of bytes that
-- the reader takes, and what follows the memory section may be anything.
pub patch_initial_memory-grow :
    (version : ℕ × ℕ × ℕ × ℕ) (before : List Part) (after : List ℕ) (m : Memory) (pages : ℕ)
    → All IsSized before
    → All IsOther before
    → IsMemory m
    → patch_initial_memory (module_with version before after (part_of m)) pages
      ≡ some
          (module_with version before after (part_of (if leb pages m.min then m else grow m pages)))
unfolding patch_initial_memory
patch_initial_memory-grow version before after m pages sized others h =
    rw (magic version before after (part_of m)) (
      ap (patched_at (module_with version before after (part_of m)) pages)
        (memory_section-found version before after m sized others h.0)
      ∙ patch-grow version before after m sized others h pages)
