-- ===== src/Wasi/Memory.antt =====
-- The words of the linear memory in packages/core/src/wasi.ts, read and written.
use coraza_node.Base.{
  ℕ, ◌+◌, ◌*◌, ◌/◌, ◌%◌, ◌^◌, ◌≤◌, ◌≡◌, refl, sym, ap, ◌∙◌, subst, Bool, true, false, List, [], ◌∷◌,
  ◌++◌, Option, none, some, some_eq, length, length-append, length-take, length-drop, append_assoc,
  take, drop, take_append, drop_append, leb, leb→le, le→leb, if◌then◌else◌, arith,
}
use coraza_node.Base.Words.{u32}
use coraza_node.Wasi.{word_of, get_uint32, set_uint32}

-- One memory is the other but for the word at an index, which holds a number modulo 2 ^ 32.
abbrev pub IsWritten : List ℕ → List ℕ → (p v : ℕ) → Type 0
IsWritten memory memory' p v =
    (get_uint32 memory' p ≡ some (v % 2 ^ 32))
    × (take p memory' ≡ take p memory)
    × (drop (p + 4) memory' ≡ drop (p + 4) memory)
    × (length memory' ≡ length memory)

word_of-u32 : (v : ℕ) (rest : List ℕ) → word_of (u32 v ++ rest) ≡ some (v % 2 ^ 32)
unfolding u32
word_of-u32 v rest = ap some (sum v)
  where
    sum :
        (v : ℕ)
        → v % 256
            + 256 * (v / 256 % 256)
            + 65536 * (v / 65536 % 256)
            + 16777216 * (v / 16777216 % 256)
          ≡ v % 2 ^ 32
    sum v = omega arith

length-u32 : (v : ℕ) → length (u32 v) ≡ 4
unfolding u32
length-u32 v = refl

module _ (memory : List ℕ) (p v : ℕ) (fits : p + 4 ≤ length memory) where
  abbrev written : List ℕ
  written = take p memory ++ (u32 v ++ drop (p + 4) memory)

  front : length (take p memory) ≡ p
  front = omega (arith, length-take p memory, fits)

  written-drop : drop p written ≡ u32 v ++ drop (p + 4) memory
  written-drop =
      subst (λ (k : ℕ). drop k written ≡ u32 v ++ drop (p + 4) memory) front
        (drop_append (take p memory) (u32 v ++ drop (p + 4) memory))

  written-take : take p written ≡ take p memory
  written-take =
      subst (λ (k : ℕ). take k written ≡ take p memory) front
        (take_append (take p memory) (u32 v ++ drop (p + 4) memory))

  written-after : drop (p + 4) written ≡ drop (p + 4) memory
  written-after =
      subst (λ (k : ℕ). drop k written ≡ drop (p + 4) memory)
        (length-append (take p memory) (u32 v) ∙ omega (arith, front, length-u32 v))
        (ap (drop (length (take p memory ++ u32 v)))
            (sym (append_assoc (take p memory) (u32 v) (drop (p + 4) memory)))
          ∙ drop_append (take p memory ++ u32 v) (drop (p + 4) memory))

  written-IsWritten : IsWritten memory written p v
  unfolding get_uint32
  written-IsWritten = (
    ap word_of written-drop ∙ word_of-u32 v (drop (p + 4) memory),
    written-take,
    written-after,
    omega (
      arith,
      length-append (take p memory) (u32 v ++ drop (p + 4) memory),
      length-append (u32 v) (drop (p + 4) memory),
      front,
      length-u32 v,
      length-drop (p + 4) memory,
      fits,
    ),
  )

pub set_uint32-IsWritten :
    (memory memory' : List ℕ) (p v : ℕ)
    → set_uint32 memory p v ≡ some memory'
    → IsWritten memory memory' p v
unfolding set_uint32
set_uint32-IsWritten memory memory' p v e = chosen (leb (p + 4) (length memory)) refl e
  where
    chosen :
        (b : Bool)
        → leb (p + 4) (length memory) ≡ b
        → (if b then some (take p memory ++ (u32 v ++ drop (p + 4) memory)) else none)
          ≡ some memory'
        → IsWritten memory memory' p v
    chosen true h q =
        subst (λ (m : List ℕ). IsWritten memory m p v) (some_eq q)
          (written-IsWritten memory p v (leb→le (p + 4) (length memory) h))
    chosen false h q = absurd cc

-- A result, which is there.
abbrev pub Returns : {A : Type 0} → Option A → Type 0
Returns {A} o = (a : A) × (o ≡ some a)

word_of-Returns : (bytes : List ℕ) → 4 ≤ length bytes → Returns (word_of bytes)
word_of-Returns [] h = absurd (omega (arith, h))
word_of-Returns (a ∷ []) h = absurd (omega (arith, h))
word_of-Returns (a ∷ b ∷ []) h = absurd (omega (arith, h))
word_of-Returns (a ∷ b ∷ c ∷ []) h = absurd (omega (arith, h))
word_of-Returns (a ∷ b ∷ c ∷ d ∷ rest) h = (a + 256 * b + 65536 * c + 16777216 * d, refl)

pub get_uint32-Returns :
    (memory : List ℕ) (p : ℕ) → p + 4 ≤ length memory → Returns (get_uint32 memory p)
unfolding get_uint32
get_uint32-Returns memory p h =
    word_of-Returns (drop p memory) (omega (arith, h, length-drop p memory))

pub set_uint32-Returns :
    (memory : List ℕ) (p v : ℕ) → p + 4 ≤ length memory → Returns (set_uint32 memory p v)
unfolding set_uint32
set_uint32-Returns memory p v h =
    (take p memory ++ (u32 v ++ drop (p + 4) memory), rw (le→leb (p + 4) (length memory) h) refl)
