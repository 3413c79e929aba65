-- ===== src/WasmPatch/Sections.antt =====
-- The walk over the sections of a module that `readInitialMemoryPages`, `patchInitialMemory` and
-- `findSectionIdIndex` of packages/core/src/wasmPatch.ts each make.
use coraza_node.Base.{
  ℕ, zero, suc, ◌+◌, ◌≤◌, ◌<◌, ◌≡◌, refl, ap, Bool, true, false, List, Option, none, some, get_or,
  length, ltb, if◌then◌else◌, arith,
}
use coraza_node.WasmPatch.Uleb.{read_uleb, read_loop, shifted}
use Prim.Native.Nat.{bit_or}

-- The index of the id, the index after the size, and the index after the content.
pub record Section : Type 0 where
  pub id : ℕ
  pub id_byte : ℕ
  pub start : ℕ
  pub stop : ℕ

abbrev pub sized : List ℕ → ℕ → Option (ℕ × ℕ) → Option Section
sized wasm i none = none
sized wasm i (some (size, after)) =
    some (record { id = get_or wasm i 0; id_byte = i; start = after; stop = after + size })

-- The id and the size of the section at an index.
unfoldable pub section_at : List ℕ → ℕ → Option Section
section_at wasm i = sized wasm i (read_uleb wasm (suc i))

-- One turn of the loop, with the turns after it as a function of the index.
abbrev pub visit :
    (Section → Bool) → (ℕ → Option (Option Section)) → Option Section → Option (Option Section)
visit p next none = none
visit p next (some s) = if p s then some (some s) else next s.stop

-- The first section that passes the test; none inside where there is none, none where a size is too
-- large.
unfoldable pub find_section : (Section → Bool) → (fuel : ℕ) → List ℕ → ℕ → Option (Option Section)
find_section p zero wasm i = some none
find_section p (suc fuel) wasm i =
    if ltb i (length wasm)
    then visit p (λ j. find_section p fuel wasm j) (section_at wasm i)
    else some none

-- A reader that moves on from an index, unless it throws.
abbrev Forward : ℕ → Option (ℕ × ℕ) → Type 0
Forward i none = Unit
Forward i (some (v, j)) = i < j

if-Forward :
    (i : ℕ) (b : Bool) (x y : Option (ℕ × ℕ))
    → Forward i x
    → Forward i y
    → Forward i (if b then x else y)
if-Forward i true x y h k = h
if-Forward i false x y h k = k

Forward-suc : (i : ℕ) (o : Option (ℕ × ℕ)) → Forward (suc i) o → Forward i o
Forward-suc i none h = tt
Forward-suc i (some (v, j)) h = omega (arith, h)

read_loop-Forward : (fuel : ℕ) (buf : List ℕ) (i s r : ℕ) → Forward i (read_loop fuel buf i s r)
unfolding read_loop
read_loop-Forward zero buf i s r = tt
read_loop-Forward (suc fuel) buf i s r =
    let t : ℕ = bit_or r (shifted (get_or buf i 0) s) in
    let rest : Option (ℕ × ℕ) = read_loop fuel buf (suc i) (s + 7) t in
    if-Forward i (ltb (get_or buf i 0) 128) (some (t, suc i))
      (if ltb 35 (s + 7) then none else rest) (omega arith)
      (if-Forward i (ltb 35 (s + 7)) none rest tt
        (Forward-suc i rest (read_loop-Forward fuel buf (suc i) (s + 7) t)))

read_uleb-Forward : (buf : List ℕ) (i : ℕ) → Forward i (read_uleb buf i)
unfolding read_uleb
read_uleb-Forward buf i = read_loop-Forward 6 buf i 0 0

find_section-end :
    (p : Section → Bool) (n : ℕ) (wasm : List ℕ) (i : ℕ)
    → length wasm ≤ i
    → find_section p n wasm i ≡ some none
unfolding find_section
find_section-end p zero wasm i h = refl
find_section-end p (suc n) wasm i h = rw (past i (length wasm) h) refl
  where
    past : (i l : ℕ) → l ≤ i → ltb i l ≡ false
    past i l h = ground arith

visit-enough :
    (p : Section → Bool) (n m : ℕ) (wasm : List ℕ) (i : ℕ) (o : Option (ℕ × ℕ))
    → ((j : ℕ) → i < j → find_section p m wasm j ≡ find_section p n wasm j)
    → Forward (suc i) o
    → visit p (λ j. find_section p m wasm j) (sized wasm i o)
      ≡ visit p (λ j. find_section p n wasm j) (sized wasm i o)
visit-enough p n m wasm i none same h = refl
visit-enough p n m wasm i (some (size, after)) same h =
    let s : Section = record {
      id = get_or wasm i 0;
      id_byte = i;
      start = after;
      stop = after + size;
    } in
    ap (λ (t : Option (Option Section)). if p s then some (some s) else t)
      (same (after + size) (omega (arith, h)))

-- The loops over the sections end: a walk whose fuel reaches from its index to the end of the module
-- answers what a walk with any more fuel answers.
pub find_section-enough :
    (p : Section → Bool) (n m : ℕ) (wasm : List ℕ) (i : ℕ)
    → length wasm ≤ i + n
    → n ≤ m
    → find_section p m wasm i ≡ find_section p n wasm i
unfolding find_section section_at
find_section-enough p zero m wasm i h le = find_section-end p m wasm i (omega (arith, h))
find_section-enough p (suc n) zero wasm i h le = absurd (omega (arith, le))
find_section-enough p (suc n) (suc m) wasm i h le =
    ap (λ (t : Option (Option Section)). if ltb i (length wasm) then t else some none)
      (visit-enough p n m wasm i (read_uleb wasm (suc i))
        (λ j lt. find_section-enough p n m wasm j (omega (arith, h, lt)) (omega (arith, le)))
        (read_uleb-Forward wasm (suc i)))
