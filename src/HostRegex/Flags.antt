-- ===== src/HostRegex/Flags.antt =====
-- What a pattern with an inline flag block is translated to.
use coraza_node.Base.{
  ℕ, ◌≡◌, refl, ap, ◌∙◌, true, false, ◌||◌, [], ◌∷◌, ◌++◌, none, some, ◌==◌, if◌then◌else◌, all,
  arith, append_assoc, append-nil, ℕ_discrete, ◌⊎◌, Bool-cases, inl, inr,
}
use coraza_node.Base.Text.{Text}
use coraza_node.HostRegex.Translate.{
  is_letter, is_nil, letters, inline_flags, includes, is_supported, add_flags, with_flags,
  translate_pattern,
}

abbrev pub NoRepeat : Text → Type 0
NoRepeat [] = Unit {0}
NoRepeat (f ∷ fs) = (includes fs f ≡ false) × NoRepeat fs

includes-append : (xs ys : Text) (f : ℕ) → includes (xs ++ ys) f ≡ (includes xs f || includes ys f)
unfolding includes
includes-append [] ys f = refl
includes-append (x ∷ xs) ys f = ground (arith, includes-append xs ys f)

NoRepeat-snoc : (xs : Text) (f : ℕ) → NoRepeat xs → includes xs f ≡ false → NoRepeat (xs ++ f ∷ [])
unfolding includes
NoRepeat-snoc [] f n h = (refl, tt)
NoRepeat-snoc (x ∷ xs) f (m, n) h =
    (ground (arith, includes-append xs (f ∷ []) x), NoRepeat-snoc xs f n (ground arith))

includes-cons : (f : ℕ) (fs : Text) (x : ℕ) → includes (f ∷ fs) x ≡ (f == x || includes fs x)
unfolding includes
includes-cons f fs x = refl

-- Each flag once, and exactly the flags of both lists.
abbrev pub Collects : Text → Text → Text → Type 0
Collects js fs out = NoRepeat out × ((f : ℕ) → includes out f ≡ (includes js f || includes fs f))

push_flag : Text → ℕ → Text
push_flag js f = if includes js f then js else js ++ f ∷ []

includes-one : (g f : ℕ) → includes (g ∷ []) f ≡ (g == f)
unfolding includes
includes-one g f = ground arith

push_flag-Collects : (js : Text) (f : ℕ) → NoRepeat js → Collects js (f ∷ []) (push_flag js f)
push_flag-Collects js f n = elim (Bool-cases (includes js f)) [
  | inl old ↦
      let same : push_flag js f ≡ js = unfold push_flag in rw old in
      rw same (
        n,
        λ g. elim (ℕ_discrete f g) [
          | yes e ↦ ground (arith, ap (includes js) e, old, includes-one f g)
          | no m ↦ ground (arith, includes-one f g)
        ],
      )
  | inr new ↦
      let same : push_flag js f ≡ js ++ f ∷ [] = unfold push_flag in rw new in
      rw same (NoRepeat-snoc js f n new, λ g. includes-append js (f ∷ []) g)
]

push_flag_lem : (js : Text) (f : ℕ) → push_flag js f ≡ (if includes js f then js else js ++ f ∷ [])
unfolding push_flag
push_flag_lem js f = refl

add_flags-Collects :
    (fs js : Text)
    → NoRepeat js
    → all is_supported fs ≡ true
    → (out : Text) × (add_flags js fs ≡ some out) × Collects js fs out
unfolding add_flags
add_flags-Collects [] js n h = (js, refl, (n, λ f. unfold includes in ground arith))
add_flags-Collects (f ∷ fs) js n h =
    let (m, k) = push_flag-Collects js f n in
    let (out, e, (o, g)) = add_flags-Collects fs (push_flag js f) m (ground (arith, h)) in
    (
      out,
      ground (arith, h, e, push_flag_lem js f),
      (o, λ x. ground (arith, g x, k x, includes-one f x, includes-cons f fs x)),
    )

add_flags-none : (fs js : Text) → all is_supported fs ≡ false → add_flags js fs ≡ none
unfolding add_flags
add_flags-none [] js h = cc
add_flags-none (f ∷ fs) js h =
    ground (arith, add_flags-none fs (if includes js f then js else js ++ f ∷ []))

letters-close :
    (read rest : Text) → is_nil read ≡ false → letters read (b')' ∷ rest) ≡ some (read, rest)
unfolding letters is_letter
letters-close read rest n = ground (arith, n)

letters-more :
    (read s : Text) (f : ℕ) → is_letter f ≡ true → letters read (f ∷ s) ≡ letters (read ++ f ∷ []) s
unfolding letters
letters-more read s f h = rw h

letters-append :
    (fs read rest : Text)
    → all is_letter fs ≡ true
    → is_nil (read ++ fs) ≡ false
    → letters read (fs ++ b')' ∷ rest) ≡ some (read ++ fs, rest)
letters-append [] read rest h n = rw append-nil (letters-close read rest (rw append-nil at n))
letters-append (f ∷ fs) read rest h n =
    letters-more read (fs ++ b')' ∷ rest) f (ground (arith, h))
    ∙ rw append_assoc at
        (letters-append fs (read ++ f ∷ []) rest (ground (arith, h)) (rw append_assoc n))

inline_flags-block :
    (f : ℕ) (fs rest : Text)
    → all is_letter (f ∷ fs) ≡ true
    → inline_flags (b'(' ∷ b'?' ∷ f ∷ fs ++ b')' ∷ rest) ≡ some (f ∷ fs, rest)
unfolding inline_flags
inline_flags-block f fs rest h = letters-append (f ∷ fs) [] rest h refl

-- A pattern that begins with a block of letters `(?…)` is translated exactly when each letter is
-- one of s, m, i, u. Then the block is cut off, and the flags are those of the block, each once:
-- the engine is never given a repeated flag, which it would refuse.
pub translate_pattern-block :
    (f : ℕ) (fs rest : Text)
    → all is_letter (f ∷ fs) ≡ true
    → let t = translate_pattern (b'(' ∷ b'?' ∷ f ∷ fs ++ b')' ∷ rest) in
      (t.ok ≡ all is_supported (f ∷ fs))
      × (t.ok ≡ true → (t.source ≡ rest) × Collects [] (f ∷ fs) t.flags)
unfolding translate_pattern
translate_pattern-block f fs rest h =
    rw (inline_flags-block f fs rest h, translate_pattern)
      (go (Bool-cases (all is_supported (f ∷ fs))))
  where
    go :
        (all is_supported (f ∷ fs) ≡ true) ⊎ (all is_supported (f ∷ fs) ≡ false)
        → let t = with_flags rest (add_flags [] (f ∷ fs)) in
          (t.ok ≡ all is_supported (f ∷ fs))
          × (t.ok ≡ true → (t.source ≡ rest) × Collects [] (f ∷ fs) t.flags)
    go (inl e) =
        let (out, found, collected) = add_flags-Collects (f ∷ fs) [] tt e in
        rw (found, e) (refl, λ o. (refl, collected))
    go (inr e) = rw (add_flags-none (f ∷ fs) [] e, e) (refl, λ o. cc)
