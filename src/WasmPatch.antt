-- ===== src/WasmPatch.antt =====
-- packages/core/src/wasmPatch.ts: the least size of a module's memory, read and raised. A module is
-- the list of its bytes; a read past its end gives undefined, which the code's operators take for 0.
-- Results are none where the code throws. An allocation of the stated size is taken to succeed.
pub mod Uleb
pub mod Sections
pub mod Layout
pub mod Grow
pub mod Patched
pub mod Ensure
mod Tests
use coraza_node.Base.{
  ℕ, zero, suc, ◌+◌, ◌-◌, ◌%◌, Bool, true, false, ◌&&◌, List, [], ◌∷◌, ◌++◌, Option, none, some,
  get_or, length, take, drop, ltb, leb, ◌==◌, if◌then◌else◌,
}
use coraza_node.WasmPatch.Uleb.{read_uleb, write_uleb}
use coraza_node.WasmPatch.Sections.{Section, find_section}

abbrev pub section_memory : ℕ
section_memory = 5

-- The four bytes of the magic number, and room for the version.
unfoldable pub has_magic : List ℕ → Bool
has_magic wasm =
    leb 8 (length wasm)
    && (get_or wasm 0 0 == 0x00
        && (get_or wasm 1 0 == 0x61 && (get_or wasm 2 0 == 0x73 && get_or wasm 3 0 == 0x6d)))

abbrev pub is_memory : Section → Bool
is_memory s = s.id == section_memory

-- The walk from byte 8. Each section takes a byte at least, so the length is fuel enough.
unfoldable pub memory_section : List ℕ → Option (Option Section)
memory_section wasm = find_section is_memory (length wasm) wasm 8

module _ (wasm : List ℕ) where
  abbrev pub min_pages : Option (ℕ × ℕ) → Option (Option ℕ)
  min_pages none = none
  min_pages (some (min, after_min)) = some (some min)

  abbrev pub counted_pages : Option (ℕ × ℕ) → Option (Option ℕ)
  counted_pages none = none
  counted_pages (some (count, after_count)) =
      if count == 1 then min_pages (read_uleb wasm (suc after_count)) else some none

  abbrev pub pages_of : Option (Option Section) → Option (Option ℕ)
  pages_of none = none
  pages_of (some none) = some none
  pages_of (some (some s)) = counted_pages (read_uleb wasm s.start)

  -- The pages, none inside for null.
  unfoldable pub read_initial_memory_pages : Option (Option ℕ)
  read_initial_memory_pages = if has_magic wasm then pages_of (memory_section wasm) else some none

-- The index of the id of the section whose content starts there; none inside for -1.
unfoldable pub find_section_id_index : List ℕ → (content_start id : ℕ) → Option (Option Section)
find_section_id_index wasm content_start id =
    find_section (λ s. s.id == id && s.start == content_start) (length wasm) wasm 8

-- `subarray` stops at the end of the array, and the rest of the new content keeps its zeros.
unfoldable pub padded : ℕ → List ℕ → List ℕ
padded zero bytes = []
padded (suc n) [] = 0 ∷ padded n []
padded (suc n) (b ∷ bytes) = b ∷ padded n bytes

-- `count`, `flags`, the new least size, and `max_bytes` bytes from `after_min` on.
unfoldable pub new_content : List ℕ → (flags after_min max_bytes pages : ℕ) → List ℕ
new_content wasm flags after_min max_bytes pages =
    1 ∷ flags ∷ (write_uleb pages ++ padded max_bytes (drop after_min wasm))

module _ (wasm : List ℕ) (start stop pages : ℕ) where
  abbrev pub spliced : List ℕ → Option (Option Section) → Option (List ℕ)
  spliced content none = none
  spliced content (some none) = some wasm
  spliced content (some (some s)) =
      some
        (take (suc s.id_byte) wasm ++ (write_uleb (length content) ++ (content ++ drop stop wasm)))

  abbrev pub splice : List ℕ → Option (List ℕ)
  splice content = spliced content (find_section_id_index wasm start section_memory)

  -- Bytes after the least size are kept where the flags announce a largest one. With less than none
  -- of them, the new array has no room for its parts, and `set` throws.
  abbrev pub rebuilt : (flags after_min : ℕ) → Option (List ℕ)
  rebuilt flags after_min =
      if flags % 2 == 1
      then (if leb after_min stop
          then splice (new_content wasm flags after_min (stop - after_min) pages)
          else none)
      else splice (new_content wasm flags after_min 0 pages)

  abbrev pub grown : (flags : ℕ) → Option (ℕ × ℕ) → Option (List ℕ)
  grown flags none = none
  grown flags (some (current_min, after_min)) =
      if leb pages current_min then some wasm else rebuilt flags after_min

  abbrev pub counted : Option (ℕ × ℕ) → Option (List ℕ)
  counted none = none
  counted (some (count, after_count)) =
      if count == 1
      then grown (get_or wasm after_count 0) (read_uleb wasm (suc after_count))
      else some wasm

  unfoldable pub patch_memory_section : Option (List ℕ)
  patch_memory_section = counted (read_uleb wasm start)

abbrev pub patched_at : List ℕ → ℕ → Option (Option Section) → Option (List ℕ)
patched_at wasm pages none = none
patched_at wasm pages (some none) = some wasm
patched_at wasm pages (some (some s)) = patch_memory_section wasm s.start s.stop pages

unfoldable pub patch_initial_memory : List ℕ → (pages : ℕ) → Option (List ℕ)
patch_initial_memory wasm pages =
    if has_magic wasm then patched_at wasm pages (memory_section wasm) else none
