-- ===== src/Skip/Predicate.antt =====
-- The legacy path predicate.
use coraza_node.Base.{true, ◌≡◌, refl, [], ◌∷◌, ◌++◌, none, inl, inr, any}
use coraza_node.Base.Text.{Text, Casing, has, any-has}
use coraza_node.Ignore.Glob.{glob, compile_route}
use coraza_node.Ignore.Globs.{Globs-self, compile_route-Globs}
use coraza_node.Ignore.Verdict.{skip}
use coraza_node.Ignore.Matcher.{IgnoreContext, compile_rules, build_ignore_matcher}
use coraza_node.Ignore.Rules.{matcher-skip_iff}
use coraza_node.Skip.{default_skip_prefixes}

-- With no options a path that begins with one of the built-in mounts bypasses the WAF, whatever the
-- method, headers and size of the request.
build_ignore_matcher-mount :
    (casing : Casing) (ctx : IgnoreContext) (mount rest : Text)
    → has default_skip_prefixes mount ≡ true
    → ctx.url.pathname ≡ mount ++ rest
    → build_ignore_matcher casing none ctx ≡ skip
unfolding build_ignore_matcher
build_ignore_matcher-mount casing ctx mount rest h e =
    (matcher-skip_iff casing (compile_rules casing none) ctx (unfold compile_rules in refl)).1
      (inr (inr (inl (unfold compile_rules in routes))))
  where
    reads : compile_route (glob (mount ++ b'*' ∷ [])) ctx.url.pathname ≡ true
    reads = rw e ((compile_route-Globs _ _).1 (Globs-self mount rest))

    routes :
        any (λ p. compile_route (glob (p ++ b'*' ∷ [])) ctx.url.pathname) default_skip_prefixes
        ≡ true
    routes =
        any-has (λ p. compile_route (glob (p ++ b'*' ∷ [])) ctx.url.pathname) default_skip_prefixes
          mount h reads
