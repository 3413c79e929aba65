-- ===== src/Skip/PathOf.antt =====
-- `pathOf` of packages/core/src/skip.ts and the parts of a URL.
use coraza_node.Base.{
  ℕ, suc, ◌||◌, ◌≡◌, ◌≢◌, refl, ap, ◌⊎◌, inl, inr, [], ◌∷◌, ◌++◌, ◌==◌, if◌then◌else◌, Option, none,
  some, length, All, arith, ℕ_discrete,
}
use mathlib.Core.Option
use coraza_node.Base.Text.{Text}
use coraza_node.Skip.{position, end_of, path_of}

-- The plain reading: keep characters up to the first `?` or `#`.
cut : Text → Text
cut [] = []
cut (c ∷ s) = if c == b'?' || c == b'#' then [] else c ∷ cut s

end_of-suc :
    (q h : Option ℕ) (len : ℕ)
    → end_of (Option.map suc q) (Option.map suc h) (suc len) ≡ suc (end_of q h len)
end_of-suc none none len = refl
end_of-suc none (some h) len = refl
end_of-suc (some q) none len = refl
end_of-suc (some q) (some h) len = omega arith

end_of-zero : (o : Option ℕ) (len : ℕ) → (end_of (some 0) o len ≡ 0) × (end_of o (some 0) len ≡ 0)
end_of-zero none len = (refl, refl)
end_of-zero (some n) len = (omega arith, omega arith)

path_of-cut : (url : Text) → path_of url ≡ cut url
unfolding path_of cut
path_of-cut [] = refl
path_of-cut (c ∷ s) = ground (
  arith,
  path_of-cut s,
  end_of-suc (position b'?' s) (position b'#' s) (length s),
  end_of-zero (position b'?' (c ∷ s)) (suc (length s)),
  end_of-zero (position b'#' (c ∷ s)) (suc (length s)),
)

abbrev pub EndsPath : Text → Type 0
EndsPath [] = Unit {0}
EndsPath (c ∷ s) = (c ≡ b'?') ⊎ (c ≡ b'#')

cut-stop : (c : ℕ) (s : Text) → EndsPath (c ∷ s) → cut (c ∷ s) ≡ []
unfolding cut
cut-stop c s h = ground arith

cut-keep : (c : ℕ) (s : Text) → c ≢ b'?' → c ≢ b'#' → cut (c ∷ s) ≡ c ∷ cut s
unfolding cut
cut-keep c s n m = ground arith

abbrev pub IsCut : Text → Text → Type 0
IsCut url path =
    All (λ c. (c ≢ b'?') × (c ≢ b'#')) path × ((rest : Text) × (url ≡ path ++ rest) × EndsPath rest)

cut-IsCut : (url : Text) → IsCut url (cut url)
cut-IsCut [] = unfold cut in (tt, ([], refl, tt))
cut-IsCut (c ∷ s) = elim (ℕ_discrete c b'?') [
  | yes e ↦ rw (cut-stop c s (inl e)) (tt, (c ∷ s, refl, inl e))
  | no n ↦ elim (ℕ_discrete c b'#') [
    | yes e ↦ rw (cut-stop c s (inr e)) (tt, (c ∷ s, refl, inr e))
    | no m ↦
        let (clean, (rest, e, ends)) = cut-IsCut s in
        rw (cut-keep c s n m) (((n, m), clean), (rest, ap (◌∷◌ c) e, ends))
  ]
]

-- The path holds neither `?` nor `#`, and the URL is the path followed by nothing or by a rest that
-- begins with one of them.
pub path_of-IsCut : (url : Text) → IsCut url (path_of url)
path_of-IsCut url = rw (path_of-cut url) (cut-IsCut url)
