-- ===== src/WasmPatch/Ensure.antt =====
-- `ensureInitialPages` of packages/core/src/wasm.ts: the bytes that are compiled.
use coraza_node.Base.{
  ℕ, ◌+◌, ◌<◌, ◌^◌, max, ◌≡◌, refl, ap, ◌∙◌, Bool, true, false, List, [], ◌∷◌, ◌++◌, Option, none,
  some, length, length-append, All, leb, if◌then◌else◌, arith,
}
use coraza_node.WasmPatch.{read_initial_memory_pages, patch_initial_memory}
use coraza_node.WasmPatch.Uleb.{write_uleb, write_loop}
use coraza_node.WasmPatch.Uleb.RoundTrip.{read_uleb-write_uleb, length-write_uleb}
use coraza_node.WasmPatch.Layout.{Reads, Part, IsSized}
use coraza_node.WasmPatch.Grow.{Memory, grow, part_of, IsMemory, IsOther, module_with}
use coraza_node.WasmPatch.Patched.{read_initial_memory_pages-min, patch_initial_memory-grow}

abbrev pub coraza_initial_pages : ℕ
coraza_initial_pages = 2100

abbrev pub ensured : List ℕ → Option (Option ℕ) → Option (List ℕ)
ensured bytes none = none
ensured bytes (some none) = patch_initial_memory bytes coraza_initial_pages
ensured bytes (some (some current)) =
    if leb coraza_initial_pages current
    then some bytes
    else patch_initial_memory bytes coraza_initial_pages

unfoldable pub ensure_initial_pages : List ℕ → Option (List ℕ)
ensure_initial_pages bytes = ensured bytes (read_initial_memory_pages bytes)

-- The pages of a module that another function returns or throws.
abbrev pub pages_read : Option (List ℕ) → Option (Option ℕ)
pages_read none = none
pages_read (some bytes) = read_initial_memory_pages bytes

one-Reads : Reads (1 ∷ []) 1
unfolding write_uleb write_loop
one-Reads pre post = read_uleb-write_uleb 1 pre post (omega arith)

grow-IsMemory :
    (m : Memory) (pages : ℕ)
    → IsMemory m
    → pages < 2 ^ 32
    → length m.rest + 7 < 2 ^ 32
    → IsMemory (grow m pages)
grow-IsMemory m pages h small short = (
  (λ pre post.
      read_uleb-write_uleb (length (1 ∷ m.flags ∷ (write_uleb pages ++ m.rest))) pre post
        (omega (arith, short, length-append (write_uleb pages) m.rest, length-write_uleb pages))),
  one-Reads,
  (λ pre post. read_uleb-write_uleb pages pre post small),
  h.3,
)

module _ (version : ℕ × ℕ × ℕ × ℕ) (before : List Part) (after : List ℕ) (m : Memory)
    (sized : All IsSized before) (others : All IsOther before) (is_memory : IsMemory m)
    (short : length m.rest + 7 < 2 ^ 32) where
  grown-pages :
      (b : Bool)
      → leb coraza_initial_pages m.min ≡ b
      → read_initial_memory_pages (
          module_with version before after (part_of (if b then m else grow m coraza_initial_pages)))
        ≡ some (some (max m.min coraza_initial_pages))
  grown-pages true e =
      read_initial_memory_pages-min version before after m sized others is_memory
      ∙ ap (λ (n : ℕ). some (some n)) (ground (arith, e))
  grown-pages false e =
      read_initial_memory_pages-min version before after (grow m coraza_initial_pages) sized others
        (grow-IsMemory m coraza_initial_pages is_memory (omega arith) short)
      ∙ ap (λ (n : ℕ). some (some n)) (ground (arith, e))

  patched-pages :
      pages_read
        (patch_initial_memory (module_with version before after (part_of m)) coraza_initial_pages)
      ≡ some (some (max m.min coraza_initial_pages))
  patched-pages =
      ap pages_read (
        patch_initial_memory-grow version before after m coraza_initial_pages sized others
          is_memory)
      ∙ grown-pages (leb coraza_initial_pages m.min) refl

-- Whatever least size a module states that is well formed up to its memory section, with fewer
-- than 2 ^ 32 - 7 bytes after that size in the section, the bytes that are handed to the compiler state
-- that size or 2100 pages, whichever is greater, and the code neither throws nor reads null.
pub ensure_initial_pages-pages :
    (version : ℕ × ℕ × ℕ × ℕ) (before : List Part) (after : List ℕ) (m : Memory)
    → All IsSized before
    → All IsOther before
    → IsMemory m
    → length m.rest + 7 < 2 ^ 32
    → pages_read (ensure_initial_pages (module_with version before after (part_of m)))
      ≡ some (some (max m.min coraza_initial_pages))
unfolding ensure_initial_pages
ensure_initial_pages-pages version before after m sized others h short =
    ap
      (λ (o : Option (Option ℕ)).
        pages_read (ensured (module_with version before after (part_of m)) o))
      (read_initial_memory_pages-min version before after m sized others h)
    ∙ chosen (leb coraza_initial_pages m.min) refl
  where
    chosen :
        (b : Bool)
        → leb coraza_initial_pages m.min ≡ b
        → pages_read (
            if b
            then some (module_with version before after (part_of m))
            else patch_initial_memory
                (module_with version before after (part_of m))
                coraza_initial_pages)
          ≡ some (some (max m.min coraza_initial_pages))
    chosen true e = grown-pages version before after m sized others h short true e
    chosen false e = patched-pages version before after m sized others h short
