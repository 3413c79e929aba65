-- ===== src/WasmPatch/Tests.antt =====
-- The walk, the readers and the patch on a small module: a header, a section with id 1, and a memory
-- section of 2 pages with a largest size.
use coraza_node.Base.{ℕ, ◌+◌, ◌≡◌, inl, refl, List, [], ◌∷◌, ◌++◌, none, some, length, arith}
use coraza_node.WasmPatch.{is_memory, patch_initial_memory}
use coraza_node.WasmPatch.Uleb.{read_uleb, read_loop, write_uleb, write_loop}
use coraza_node.WasmPatch.Uleb.RoundTrip.{read_uleb-write_uleb}
use coraza_node.WasmPatch.Sections.{find_section, find_section-enough}
use coraza_node.WasmPatch.Layout.{Part, IsSized}
use coraza_node.WasmPatch.Grow.{Memory, grow, part_of, IsMemory, IsOther, module_with}
use coraza_node.WasmPatch.Patched.{patch_initial_memory-grow}
use coraza_node.WasmPatch.Ensure.{ensure_initial_pages, pages_read, ensure_initial_pages-pages}

abbrev types : Part
types = record { id = 1; size = write_uleb 3; content = 7 ∷ 8 ∷ 9 ∷ [] }

abbrev two_pages : Memory
two_pages = record {
  size = write_uleb 4;
  count_bytes = write_uleb 1;
  flags = 1;
  min_bytes = write_uleb 2;
  min = 2;
  rest = 16 ∷ [];
}

abbrev version : ℕ × ℕ × ℕ × ℕ
version = (1, 0, 0, 0)

abbrev small_module : List ℕ
small_module = module_with version (types ∷ []) (10 ∷ 0 ∷ []) (part_of two_pages)

-- A sixth byte is read at a shift of 3.
sixth_byte : read_uleb (0x80 ∷ 0x80 ∷ 0x80 ∷ 0x80 ∷ 0x80 ∷ 1 ∷ []) 0 ≡ some (8, 6)
unfolding read_uleb read_loop
sixth_byte = refl

seven_bytes : read_uleb (0x80 ∷ 0x80 ∷ 0x80 ∷ 0x80 ∷ 0x80 ∷ 0x80 ∷ 1 ∷ []) 0 ≡ none
unfolding read_uleb read_loop
seven_bytes = refl

types-IsSized : IsSized types
types-IsSized pre post = read_uleb-write_uleb 3 pre post (omega arith)

types-IsOther : IsOther types
types-IsOther e = omega (arith, e)

two_pages-IsMemory : IsMemory two_pages
unfolding write_uleb write_loop
two_pages-IsMemory = (
  (λ pre post. read_uleb-write_uleb 4 pre post (omega arith)),
  (λ pre post. read_uleb-write_uleb 1 pre post (omega arith)),
  (λ pre post. read_uleb-write_uleb 2 pre post (omega arith)),
  inl refl,
)

read_uleb-write_uleb_example :
    read_uleb ((5 ∷ []) ++ (write_uleb 2100 ++ [])) 1 ≡ some (2100, 1 + length (write_uleb 2100))
read_uleb-write_uleb_example = read_uleb-write_uleb 2100 (5 ∷ []) [] (omega arith)

find_section-enough_example :
    find_section is_memory 40 small_module 8 ≡ find_section is_memory 13 small_module 8
unfolding write_uleb write_loop
find_section-enough_example =
    find_section-enough is_memory 13 40 small_module 8 (omega arith) (omega arith)

patch_initial_memory-grow_example :
    patch_initial_memory small_module 2100
    ≡ some (module_with version (types ∷ []) (10 ∷ 0 ∷ []) (part_of (grow two_pages 2100)))
patch_initial_memory-grow_example =
    patch_initial_memory-grow version (types ∷ []) (10 ∷ 0 ∷ []) two_pages 2100 (types-IsSized, tt)
      (types-IsOther, tt) two_pages-IsMemory

ensure_initial_pages-pages_example :
    pages_read (ensure_initial_pages small_module) ≡ some (some 2100)
ensure_initial_pages-pages_example =
    ensure_initial_pages-pages version (types ∷ []) (10 ∷ 0 ∷ []) two_pages (types-IsSized, tt)
      (types-IsOther, tt) two_pages-IsMemory (omega arith)
