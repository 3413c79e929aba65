-- ===== src/Ignore/Suffixes.antt =====
-- What the extension test accepts.
use coraza_node.Base.{
  ℕ, true, false, ◌≡◌, ◌≢◌, refl, ap, ◌↔◌, ◌⊎◌, inl, inr, List, [], ◌∷◌, ◌++◌, none, some,
  if◌then◌else◌, Option-cases, arith, All,
}
use coraza_node.Base.Text.{Text, has, Casing}
use coraza_node.Ignore.Extension.{
  after_last_slash, basename, is_nonempty, suffix_in, extension_matches,
}

abbrev pub NoSlash : Text → Type 0
NoSlash = All (λ c. c ≢ b'/')

after_last_slash-none : (s : Text) → after_last_slash s ≡ none → NoSlash s
unfolding after_last_slash
after_last_slash-none [] h = tt
after_last_slash-none (c ∷ s) h = ground (arith, after_last_slash-none s)

after_last_slash-some :
    (s t : Text) → after_last_slash s ≡ some t → (dir : Text) × (s ≡ dir ++ b'/' ∷ t) × NoSlash t
unfolding after_last_slash
after_last_slash-some [] t h = cc
after_last_slash-some (c ∷ s) t h = elim (Option-cases (after_last_slash s)) [
  | inl e ↦ ([], ground (arith, e), ground (arith, after_last_slash-none s))
  | inr (u, e) ↦
      let (dir, p, q) = after_last_slash-some s t (ground (arith, e)) in (c ∷ dir, ap (◌∷◌ c) p, q)
]

-- A path is its basename, or a directory that ends with a slash and its basename, and no basename
-- holds a slash.
pub basename_lem :
    (path : Text)
    → NoSlash (basename path)
      × ((path ≡ basename path) ⊎ ((dir : Text) × (path ≡ dir ++ b'/' ∷ basename path)))
unfolding basename
basename_lem path = elim (Option-cases (after_last_slash path)) [
  | inl e ↦ rw (e, basename) (after_last_slash-none path e, inl refl)
  | inr (t, e) ↦
      let (dir, p, q) = after_last_slash-some path t e in rw (e, basename) (q, inr (dir, p))
]

abbrev pub EndsIn : List Text → Text → Type 0
EndsIn extensions name =
    (stem ext : Text) × (name ≡ stem ++ b'.' ∷ ext) × (ext ≢ []) × (has extensions ext ≡ true)

suffix_in-cases :
    (exts : List Text) (c : ℕ) (s : Text)
    → suffix_in exts (c ∷ s) ≡ true
    → ((c ≡ b'.') × (s ≢ []) × (has exts s ≡ true)) ⊎ (suffix_in exts s ≡ true)
unfolding suffix_in
suffix_in-cases exts c [] h = ground arith
suffix_in-cases exts c (d ∷ s) h = ground arith

suffix_in→EndsIn : (exts : List Text) (s : Text) → suffix_in exts s ≡ true → EndsIn exts s
suffix_in→EndsIn exts [] h = unfold suffix_in in cc
suffix_in→EndsIn exts (c ∷ s) h = elim (suffix_in-cases exts c s h) [
  | inl (e, n, m) ↦ ([], s, ap (λ x. x ∷ s) e, n, m)
  | inr later ↦
      let (stem, ext, e, n, m) = suffix_in→EndsIn exts s later in
      (c ∷ stem, ext, ap (◌∷◌ c) e, n, m)
]

EndsIn→suffix_in :
    (exts : List Text) (stem ext : Text)
    → ext ≢ []
    → has exts ext ≡ true
    → suffix_in exts (stem ++ b'.' ∷ ext) ≡ true
unfolding suffix_in
EndsIn→suffix_in exts [] [] n h = absurd (n refl)
EndsIn→suffix_in exts [] (d ∷ ext) n h = ground (arith, h)
EndsIn→suffix_in exts (c ∷ stem) ext n h = ground (arith, EndsIn→suffix_in exts stem ext n h)

EndsIn-ne-nil : (exts : List Text) → ¬ EndsIn exts []
EndsIn-ne-nil exts ([], ext, e, n, m) = cc
EndsIn-ne-nil exts (c ∷ stem, ext, e, n, m) = cc

suffix_in-EndsIn : (exts : List Text) (s : Text) → (suffix_in exts s ≡ true) ↔ EndsIn exts s
suffix_in-EndsIn exts s =
    (suffix_in→EndsIn exts s, λ (stem, ext, e, n, m). rw e (EndsIn→suffix_in exts stem ext n m))

-- For a lower-casing that keeps the empty string empty: a path passes exactly when the lower-cased
-- basename is a stem, a dot and a non-empty extension of the list, compound extensions included.
pub extension_matches-EndsIn :
    (casing : Casing) (path : Text) (exts : List Text)
    → casing.to_lower_case [] ≡ []
    → (extension_matches casing path exts ≡ true)
      ↔ EndsIn exts (casing.to_lower_case (basename path))
unfolding extension_matches
extension_matches-EndsIn casing path exts empty = go (basename path)
  where
    go :
        (base : Text)
        → ((if is_nonempty base then suffix_in exts (casing.to_lower_case base) else false) ≡ true)
          ↔ EndsIn exts (casing.to_lower_case base)
    go [] = (λ h. cc, λ k. absurd (EndsIn-ne-nil exts (rw empty at k)))
    go (c ∷ base) = suffix_in-EndsIn exts (casing.to_lower_case (c ∷ base))
