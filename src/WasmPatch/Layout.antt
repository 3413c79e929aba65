-- ===== src/WasmPatch/Layout.antt =====
-- The binary format that packages/core/src/wasmPatch.ts reads: a header, and sections of an id, a
-- size and that many bytes. A size may be written in more bytes than it needs, as linkers do.
use coraza_node.Base.{
  ℕ, zero, suc, ◌+◌, ◌<◌, ◌≡◌, refl, sym, ap, ap₂, ◌∙◌, Bool, true, false, List, [], ◌∷◌, ◌++◌,
  Option, none, some, get_or, length, length-append, append_assoc, All, lt→ltb, arith, take, drop,
  take_append, drop_append,
}
use coraza_node.WasmPatch.Uleb.{read_uleb}
use coraza_node.WasmPatch.Sections.{Section, section_at, visit, find_section}

-- Wherever the bytes stand, they are read as the number, to their end.
abbrev pub Reads : List ℕ → ℕ → Type 0
Reads bytes n =
    (pre post : List ℕ)
    → read_uleb (pre ++ (bytes ++ post)) (length pre) ≡ some (n, length pre + length bytes)

pub record Part : Type 0 where
  pub id : ℕ
  pub size : List ℕ
  pub content : List ℕ

abbrev pub IsSized : Part → Type 0
IsSized part = Reads part.size (length part.content)

abbrev pub bytes_of : Part → List ℕ
bytes_of part = part.id ∷ (part.size ++ part.content)

abbrev pub encode : List Part → List ℕ
encode [] = []
encode (part ∷ parts) = bytes_of part ++ encode parts

module _ (wasm pre : List ℕ) (i : ℕ) (here : i ≡ length pre) where
  pub Reads-at :
      (bytes post : List ℕ) (n : ℕ)
      → Reads bytes n
      → wasm ≡ pre ++ (bytes ++ post)
      → read_uleb wasm i ≡ some (n, i + length bytes)
  Reads-at bytes post n reads e = rw e (rw here (reads pre post))

  pub byte-at : (x : ℕ) (post : List ℕ) → wasm ≡ pre ++ (x ∷ post) → get_or wasm i 0 ≡ x
  byte-at x post e = rw e (rw here (get_or-append pre post x))
    where
      get_or-append : (pre ys : List ℕ) (x : ℕ) → get_or (pre ++ x ∷ ys) (length pre) 0 ≡ x
      get_or-append [] ys x = refl
      get_or-append (p ∷ pre) ys x = get_or-append pre ys x

  pub take-at : (post : List ℕ) → wasm ≡ pre ++ post → take i wasm ≡ pre
  take-at post e = rw e (rw here (take_append pre post))

  pub drop-at : (post : List ℕ) → wasm ≡ pre ++ post → drop i wasm ≡ post
  drop-at post e = rw e (rw here (drop_append pre post))

abbrev pub placed : Part → ℕ → Section
placed part i = record {
  id = part.id;
  id_byte = i;
  start = suc i + length part.size;
  stop = suc i + length part.size + length part.content;
}

pub section_at-placed :
    (part : Part) (pre post : List ℕ)
    → IsSized part
    → section_at (pre ++ (bytes_of part ++ post)) (length pre) ≡ some (placed part (length pre))
unfolding section_at
section_at-placed part pre post h =
    let wasm : List ℕ = pre ++ (bytes_of part ++ post) in
    ap₂ (λ (x : ℕ) (o : Option (ℕ × ℕ)). sized_at x (length pre) o)
      (byte-at wasm pre (length pre) refl part.id ((part.size ++ part.content) ++ post) refl)
      (Reads-at wasm (pre ++ (part.id ∷ [])) (suc (length pre))
        (omega (arith, length-append pre (part.id ∷ []))) part.size (part.content ++ post)
        (length part.content) h (simp append_assoc refl))
  where
    sized_at : ℕ → ℕ → Option (ℕ × ℕ) → Option Section
    sized_at x i none = none
    sized_at x i (some (size, after)) =
        some (record { id = x; id_byte = i; start = after; stop = after + size })

module _ (p : Section → Bool) (wasm : List ℕ) (i : ℕ) (inside : i < length wasm) where
  pub find_section-hit :
      (n : ℕ) (s : Section)
      → section_at wasm i ≡ some s
      → p s ≡ true
      → find_section p (suc n) wasm i ≡ some (some s)
  unfolding find_section
  find_section-hit n s e h =
      rw (lt→ltb i (length wasm) inside) (ap (visit p (find_section p n wasm)) e ∙ hit)
    where
      hit : visit p (find_section p n wasm) (some s) ≡ some (some s)
      hit = rw h refl

  find_section-miss :
      (n : ℕ) (s : Section)
      → section_at wasm i ≡ some s
      → p s ≡ false
      → find_section p (suc n) wasm i ≡ find_section p n wasm s.stop
  unfolding find_section
  find_section-miss n s e h =
      rw (lt→ltb i (length wasm) inside) (ap (visit p (find_section p n wasm)) e ∙ miss)
    where
      miss : visit p (find_section p n wasm) (some s) ≡ find_section p n wasm s.stop
      miss = rw h refl

pub length-bytes_of :
    (part : Part) → length (bytes_of part) ≡ suc (length part.size + length part.content)
length-bytes_of part = ap suc (length-append part.size part.content)

pub inside : (pre post : List ℕ) (x : ℕ) → length pre < length (pre ++ (x ∷ post))
inside pre post x = omega (arith, length-append pre (x ∷ post))

-- The walk passes the sections that the test refuses.
pub find_section-skip :
    (p : Section → Bool) (parts : List Part) (m n : ℕ) (pre post : List ℕ)
    → All IsSized parts
    → All (λ part. (i : ℕ) → p (placed part i) ≡ false) parts
    → m ≡ length parts + n
    → find_section p m (pre ++ (encode parts ++ post)) (length pre)
      ≡ find_section p n (pre ++ (encode parts ++ post)) (length pre + length (encode parts))
find_section-skip p [] m n pre post h q e =
    ap₂ (λ k i. find_section p k (pre ++ post) i) (omega (arith, e)) (omega arith)
find_section-skip p (part ∷ parts) zero n pre post h q e = absurd (omega (arith, e))
find_section-skip p (part ∷ parts) (suc m) n pre post (h, hs) (q, qs) e =
    let wasm : List ℕ = pre ++ ((bytes_of part ++ encode parts) ++ post) in
    let pre' : List ℕ = pre ++ bytes_of part in
    let moved : wasm ≡ pre' ++ (encode parts ++ post) = simp append_assoc refl in
    let whole : wasm ≡ pre ++ (bytes_of part ++ (encode parts ++ post)) = simp append_assoc refl in
    let len : length pre' ≡ length pre + length (bytes_of part) =
      length-append pre (bytes_of part) in
    find_section-miss p wasm (length pre)
      (inside pre ((part.size ++ part.content ++ encode parts) ++ post) part.id) m
      (placed part (length pre))
      (ap (λ (w : List ℕ). section_at w (length pre)) whole
        ∙ section_at-placed part pre (encode parts ++ post) h)
      (q (length pre))
    ∙ ap₂ (find_section p m) moved (omega (arith, len, length-bytes_of part))
    ∙ find_section-skip p parts m n pre' post hs qs (omega (arith, e))
    ∙ ap₂ (find_section p n) (sym moved)
        (omega (arith, len, length-append (bytes_of part) (encode parts)))
