-- ===== src/Ignore/Globs.antt =====
-- What a compiled glob accepts, against an inductive reading of globs.
use coraza_node.Base.{
  ℕ, true, false, ◌≡◌, ◌≢◌, refl, ◌↔◌, ◌⊎◌, inl, inr, List, [], ◌∷◌, ◌++◌, ◌==◌, if◌then◌else◌,
  arith, ℕ_discrete,
}
use coraza_node.Base.Text.{Text}
use coraza_node.Ignore.Glob.{
  glob, Atom, any_run, any_one, char, nothing, dot, escape, escape_all, is_line_terminator, parse,
  matches, compile_route,
}

-- The glob accepts a prefix of the path: `*` stands for any run of characters, none included, `?`
-- for one character, and all else for itself. Neither wildcard crosses a line terminator.
pub data Globs : Text → Text → Type 0 where
  all_read : {path : Text} → Globs [] path
  star_none :
      {star : ℕ} {spec path : Text} → star ≡ b'*' → Globs spec path → Globs (star ∷ spec) path
  star_more :
      {star c : ℕ} {spec path : Text}
      → star ≡ b'*'
      → is_line_terminator c ≡ false
      → Globs (star ∷ spec) path
      → Globs (star ∷ spec) (c ∷ path)
  one :
      {question c : ℕ} {spec path : Text}
      → question ≡ b'?'
      → is_line_terminator c ≡ false
      → Globs spec path
      → Globs (question ∷ spec) (c ∷ path)
  literal :
      {c d : ℕ} {spec path : Text}
      → c ≢ b'*'
      → c ≢ b'?'
      → c ≡ d
      → Globs spec path
      → Globs (c ∷ spec) (d ∷ path)

-- The atom that a character of the glob stands for.
atom_of : ℕ → Atom
atom_of c = if c == b'*' then any_run else if c == b'?' then any_one else char c

atoms_of : Text → List Atom
atoms_of [] = []
atoms_of (c ∷ spec) = atom_of c ∷ atoms_of spec

-- The parser undoes the escaping: each character of the glob is one atom. After a lone dot the next
-- character must not be a bare star, which `escape` never writes first.
mutual
  unfolding parse escape_all escape atoms_of atom_of

  parse-escape_all : (spec : Text) → parse nothing (escape_all spec) ≡ atoms_of spec
  parse-escape_all [] = refl
  parse-escape_all (c ∷ spec) = ground (arith, parse-escape_all spec, parse_dot-escape_all spec)

  parse_dot-escape_all : (spec : Text) → parse dot (escape_all spec) ≡ any_one ∷ atoms_of spec
  parse_dot-escape_all [] = refl
  parse_dot-escape_all (c ∷ spec) = ground (arith, parse-escape_all spec, parse_dot-escape_all spec)

Globs→matches : {spec path : Text} → Globs spec path → matches (atoms_of spec) path ≡ true
unfolding matches atoms_of atom_of
Globs→matches (all_read {path = []}) = refl
Globs→matches (all_read {path = _ ∷ _}) = refl
Globs→matches (star_none {path = []} e g) = ground (arith, Globs→matches g)
Globs→matches (star_none {path = _ ∷ _} e g) = ground (arith, Globs→matches g)
Globs→matches (star_more e l g) = ground (arith, Globs→matches g)
Globs→matches (one e l g) = ground (arith, Globs→matches g)
Globs→matches (literal p q e g) = ground (arith, Globs→matches g)

-- What a character of a glob is.
data Kind (c : ℕ) : Type 0 where
  is_star : c ≡ b'*' → Kind c
  is_question : c ≡ b'?' → c ≢ b'*' → Kind c
  is_plain : c ≢ b'*' → c ≢ b'?' → Kind c

kind : (c : ℕ) → Kind c
kind c = elim (ℕ_discrete c b'*') [
  | yes e ↦ is_star e
  | no n ↦ elim (ℕ_discrete c b'?') [ yes e ↦ is_question e n | no m ↦ is_plain n m ]
]

atom_of-star : {c : ℕ} → c ≡ b'*' → atom_of c ≡ any_run
unfolding atom_of
atom_of-star e = ground arith

atom_of-question : {c : ℕ} → c ≡ b'?' → atom_of c ≡ any_one
unfolding atom_of
atom_of-question e = ground arith

atom_of-plain : {c : ℕ} → c ≢ b'*' → c ≢ b'?' → atom_of c ≡ char c
unfolding atom_of
atom_of-plain n m = ground arith

-- A run that accepts reads nothing, or one more character.
any_run-cases :
    (atoms : List Atom) (d : ℕ) (path : Text)
    → matches (any_run ∷ atoms) (d ∷ path) ≡ true
    → (matches atoms (d ∷ path) ≡ true)
      ⊎ ((is_line_terminator d ≡ false) × (matches (any_run ∷ atoms) path ≡ true))
unfolding matches
any_run-cases atoms d path h = ground arith

matches→Globs : (spec path : Text) → matches (atoms_of spec) path ≡ true → Globs spec path
unfolding matches atoms_of
matches→Globs [] path h = all_read
matches→Globs (c ∷ spec) [] h = elim (kind c) [
  | is_star e ↦ star_none e (matches→Globs spec [] (rw (atom_of-star e) at h))
  | is_question e n ↦ cc (atom_of-question e)
  | is_plain n m ↦ cc (atom_of-plain n m)
]
matches→Globs (c ∷ spec) (d ∷ path) h = elim (kind c) [
  | is_star e ↦ elim (any_run-cases (atoms_of spec) d path (rw (atom_of-star e) at h)) [
    | inl now ↦ star_none e (matches→Globs spec (d ∷ path) now)
    | inr (l, later) ↦ star_more e l (matches→Globs (c ∷ spec) path (rw (atom_of-star e) later))
  ]
  | is_question e n ↦
      one e (ground (arith, atom_of-question e))
        (matches→Globs spec path (ground (arith, atom_of-question e)))
  | is_plain n m ↦
      literal n m (ground (arith, atom_of-plain n m))
        (matches→Globs spec path (ground (arith, atom_of-plain n m)))
]

-- A route that is a glob string accepts a path exactly when the glob describes a prefix of it: the
-- escaping and the engine's parsing change the meaning of no character.
pub compile_route-Globs :
    (spec path : Text) → (compile_route (glob spec) path ≡ true) ↔ Globs spec path
unfolding compile_route
compile_route-Globs spec path = (
  λ h. matches→Globs spec path (rw (parse-escape_all spec) at h),
  λ g. rw (parse-escape_all spec) (Globs→matches g),
)

-- So a glob that accepts a path accepts every longer path.
Globs-append : {spec path : Text} (more : Text) → Globs spec path → Globs spec (path ++ more)
Globs-append more all_read = all_read
Globs-append more (star_none e g) = star_none e (Globs-append more g)
Globs-append more (star_more e l g) = star_more e l (Globs-append more g)
Globs-append more (one e l g) = one e l (Globs-append more g)
Globs-append more (literal p q e g) = literal p q e (Globs-append more g)

-- A glob that accepts a path accepts every path that begins with it, with or without a `*` at its
-- end.
compile_route-append :
    (spec path more : Text)
    → compile_route (glob spec) path ≡ true
    → compile_route (glob spec) (path ++ more) ≡ true
compile_route-append spec path more h =
    (compile_route-Globs spec (path ++ more)).1
      (Globs-append more ((compile_route-Globs spec path).0 h))

-- Any glob reads itself, with any continuation behind a final star.
pub Globs-self : (p rest : Text) → Globs (p ++ b'*' ∷ []) (p ++ rest)
unfolding is_line_terminator
Globs-self [] rest = star_none refl all_read
Globs-self (c ∷ p) rest = elim (ℕ_discrete c b'*') [
  | yes e ↦ star_more e (ground (arith, e)) (star_none e (Globs-self p rest))
  | no n ↦ elim (ℕ_discrete c b'?') [
    | yes e ↦ one e (ground (arith, e)) (Globs-self p rest)
    | no m ↦ literal n m refl (Globs-self p rest)
  ]
]
