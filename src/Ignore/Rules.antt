-- ===== src/Ignore/Rules.antt =====
-- What the matcher of packages/core/src/ignore.ts decides.
use coraza_node.Base.{
  true, false, ◌≡◌, ◌≢◌, refl, ◌⊎◌, ◌↔◌, inl, inr, List, [], ◌∷◌, Option, none, some, any, arith,
  ap, ◌∙◌,
}
use coraza_node.Base.Text.{Text, has, Casing}
use coraza_node.Ignore.Verdict.{Verdict, inspect, skip_body, skip, most_restrictive}
use coraza_node.Ignore.Extension.{extension_matches}
use coraza_node.Ignore.Matcher.{
  IgnoreContext, Rules, compile_rules, headers_match, exceeds, declarative, matcher,
  build_ignore_matcher, is_empty, empty_spec, combine, answer, decide_match,
}

has→is_empty : (ss : List Text) (t : Text) → has ss t ≡ true → is_empty ss ≡ false
unfolding has
has→is_empty [] t h = cc
has→is_empty (s ∷ ss) t h = refl

combine-cases :
    (d : Option Verdict) (v : Verdict)
    → d ≢ some inspect
    → (combine d v ≡ v) ⊎ (v ≡ skip) × (combine d v ≡ skip_body)
unfolding most_restrictive
combine-cases d v n = ground arith

combine-skip : (d : Option Verdict) → (combine d skip ≡ skip_body) ↔ (d ≡ some skip_body)
unfolding most_restrictive
combine-skip none = ground arith
combine-skip (some inspect) = ground arith
combine-skip (some skip_body) = ground arith
combine-skip (some skip) = ground arith

module _ (casing : Casing) (rules : Rules) (ctx : IgnoreContext) where
  -- A rule on the method, the path or the headers applies.
  abbrev pub Skips : Type 0
  Skips =
      (has rules.methods (casing.to_upper_case ctx.method) ≡ true)
      ⊎ (is_empty rules.extensions ≡ false)
        × (extension_matches casing ctx.url.pathname rules.extensions ≡ true)
      ⊎ (any (λ r. r ctx.url.pathname) rules.routes ≡ true)
      ⊎ (is_empty rules.header_equals ≡ false)
        × (headers_match casing rules.header_equals ctx.headers ≡ true)

  declarative→Skips : declarative casing rules ctx ≡ some skip → Skips
  unfolding declarative
  declarative→Skips h = ground arith

  Skips→declarative : Skips → declarative casing rules ctx ≡ some skip
  unfolding declarative
  Skips→declarative h = ground (arith, has→is_empty rules.methods (casing.to_upper_case ctx.method))

  declarative-exceeds :
      declarative casing rules ctx ≡ some skip_body
      → exceeds rules.body_cutoff ctx.content_length ≡ true
  unfolding declarative
  declarative-exceeds h = ground arith

  declarative-body :
      declarative casing rules ctx ≡ some skip_body
      → (exceeds rules.body_cutoff ctx.content_length ≡ true) × ¬ Skips
  declarative-body h = (declarative-exceeds h, λ s. cc (Skips→declarative s))

  declarative-other :
      exceeds rules.body_cutoff ctx.content_length ≡ true
      → (declarative casing rules ctx ≡ some skip_body) ⊎ (declarative casing rules ctx ≡ some skip)
  unfolding declarative
  declarative-other h = ground arith

  body→declarative :
      (exceeds rules.body_cutoff ctx.content_length ≡ true) × ¬ Skips
      → declarative casing rules ctx ≡ some skip_body
  body→declarative (over, no_rule) = elim (declarative-other over) [
    | inl e ↦ e
    | inr e ↦ absurd (no_rule (declarative→Skips e))
  ]

  matcher-combine :
      (f : IgnoreContext → Option Verdict) (v : Verdict)
      → rules.match ≡ some f
      → f ctx ≡ some v
      → matcher casing rules ctx ≡ combine (declarative casing rules ctx) v
  unfolding matcher
  matcher-combine f v m e =
      ap (λ o. decide_match (declarative casing rules ctx) o ctx) m
      ∙ ap (answer (declarative casing rules ctx)) e

  declarative-ne-inspect : declarative casing rules ctx ≢ some inspect
  unfolding declarative
  declarative-ne-inspect h = ground arith

  -- With no `match` function a request bypasses the WAF exactly when a method, extension, route or
  -- header rule applies.
  pub matcher-skip_iff : rules.match ≡ none → (matcher casing rules ctx ≡ skip) ↔ Skips
  unfolding matcher
  matcher-skip_iff m =
      (λ h. declarative→Skips (ground (arith, m)), λ s. ground (arith, m, Skips→declarative s))

  -- Where `match` answers, its answer is the verdict, but for one case: a `skip` becomes
  -- `skip_body` exactly where the body exceeds the cutoff and no rule skips the request.
  pub matcher-match :
      (f : IgnoreContext → Option Verdict) (v : Verdict)
      → rules.match ≡ some f
      → f ctx ≡ some v
      → ((matcher casing rules ctx ≡ v) ⊎ (v ≡ skip) × (matcher casing rules ctx ≡ skip_body))
        × (v ≡ skip
            → (matcher casing rules ctx ≡ skip_body)
              ↔ (exceeds rules.body_cutoff ctx.content_length ≡ true) × ¬ Skips)
  matcher-match f v m e =
      let e' = matcher-combine f v m e in
      (
        rw e' (combine-cases _ v declarative-ne-inspect),
        λ s.
            rw (e', s)
              (
                λ r. declarative-body ((combine-skip _).0 r),
                λ h. (combine-skip _).1 (body→declarative h),
              ),
      )

-- With `skipDefaults: true` and no rule of its own every request is inspected.
pub build_ignore_matcher-bare :
    (casing : Casing) (ctx : IgnoreContext)
    → build_ignore_matcher casing (some (record empty_spec { skip_defaults = some true })) ctx
      ≡ inspect
unfolding build_ignore_matcher matcher declarative compile_rules has exceeds
build_ignore_matcher-bare casing ctx = refl
