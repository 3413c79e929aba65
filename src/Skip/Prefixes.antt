-- ===== src/Skip/Prefixes.antt =====
-- The translation of a prefix to a route, for packages/core/src/skip.ts.
use coraza_node.Base.{true, false, ◌≡◌, ◌≢◌, refl, ◌↔◌, [], ◌∷◌, ◌++◌, All, arith}
use coraza_node.Base.Text.{Text}
use coraza_node.Ignore.Glob.{compile_route}
use coraza_node.Ignore.Globs.{
  Globs, Globs-self, star_none, star_more, one, literal, compile_route-Globs,
}
use coraza_node.Skip.{ends_with_star, prefix_route}

abbrev pub IsLiteral : Text → Type 0
IsLiteral = All (λ c. (c ≢ b'*') × (c ≢ b'?'))

-- A literal prefix is read back from any path that its glob accepts.
Globs-prefix :
    (p path : Text) → IsLiteral p → Globs (p ++ b'*' ∷ []) path → (rest : Text) × (path ≡ p ++ rest)
Globs-prefix [] path h g = (path, refl)
Globs-prefix (c ∷ p) path ((n, m), h) (star_none e g) = absurd (n e)
Globs-prefix (c ∷ p) path ((n, m), h) (star_more e l g) = absurd (n e)
Globs-prefix (c ∷ p) path ((n, m), h) (one e l g) = absurd (m e)
Globs-prefix (c ∷ p) path ((n, m), h) (literal {d = d} {path = tail} _ _ e g) =
    let (rest, q) = Globs-prefix p tail h g in (rest, cc)

ends_with_star-literal : (p : Text) → IsLiteral p → ends_with_star p ≡ false
unfolding ends_with_star
ends_with_star-literal [] h = refl
ends_with_star-literal (c ∷ []) h = ground arith
ends_with_star-literal (c ∷ d ∷ p) (_, h) = ends_with_star-literal (d ∷ p) h

-- A legacy prefix without wildcards is translated to a route that accepts exactly the paths that
-- start with it.
pub prefix_route-StartsWith :
    (p path : Text)
    → IsLiteral p
    → (compile_route (prefix_route p) path ≡ true) ↔ ((rest : Text) × (path ≡ p ++ rest))
unfolding prefix_route
prefix_route-StartsWith p path h = rw (ends_with_star-literal p h) (
  λ r. Globs-prefix p path h ((compile_route-Globs _ path).0 r),
  λ (rest, e). rw e ((compile_route-Globs _ _).1 (Globs-self p rest)),
)
