-- ===== src/Adapter/Options.antt =====
-- `resolveIgnoreMatcher`, which the four framework packages each hold: the bypass options and the
-- warning about the deprecated ones, which is made once for a package.
use coraza_node.Base.{
  ℕ, ◌+◌, ◌≤◌, ◌≡◌, Bool, true, false, not, ◌&&◌, ◌||◌, List, [], ◌∷◌, Option, none, some,
  if◌then◌else◌, arith,
}
use coraza_node.Ignore.Matcher.{IgnoreSpec}
use coraza_node.Skip.{SkipOptions, skip_to_ignore}

-- `ignore` and `skip` as the caller gives them.
pub data Given (A : Type 0) : Type 0 where
  absent_option disabled : Given A
  spec_of : A → Given A

-- The specification that the matcher is built from, none where bypass is off; the flag of the
-- package afterwards; and whether the warning was printed.
pub record Resolved : Type 0 where
  pub spec : Option (Option IgnoreSpec)
  pub legacy_warned : Bool
  pub warns : Bool

unfoldable pub resolve : Given IgnoreSpec → Given SkipOptions → Bool → Resolved
resolve disabled skip_option legacy_warned = record {
  spec = none;
  legacy_warned = legacy_warned;
  warns = false;
}
resolve absent_option disabled legacy_warned = record {
  spec = none;
  legacy_warned = legacy_warned;
  warns = false;
}
resolve (spec_of ignore) disabled legacy_warned = record {
  spec = none;
  legacy_warned = legacy_warned;
  warns = false;
}
resolve (spec_of ignore) absent_option legacy_warned = record {
  spec = some (some ignore);
  legacy_warned = legacy_warned;
  warns = false;
}
resolve (spec_of ignore) (spec_of skip_option) legacy_warned = record {
  spec = some (some ignore);
  legacy_warned = legacy_warned;
  warns = false;
}
resolve absent_option absent_option legacy_warned = record {
  spec = some (skip_to_ignore none);
  legacy_warned = legacy_warned;
  warns = false;
}
resolve absent_option (spec_of skip_option) legacy_warned = record {
  spec = some (skip_to_ignore (some skip_option));
  legacy_warned = true;
  warns = not legacy_warned;
}

-- The number of warnings that a package prints over the matchers that it resolves.
unfoldable pub warnings : List (Given IgnoreSpec × Given SkipOptions) → Bool → ℕ
warnings [] legacy_warned = 0
warnings ((ignore, skip_option) ∷ options) legacy_warned =
    let r = resolve ignore skip_option legacy_warned in
    (if r.warns then 1 else 0) + warnings options r.legacy_warned

resolve-warns :
    (ignore : Given IgnoreSpec) (skip_option : Given SkipOptions) (w : Bool)
    → let r = resolve ignore skip_option w in
      (r.warns ≡ (not w && r.legacy_warned)) × ((w || r.legacy_warned) ≡ r.legacy_warned)
unfolding resolve
resolve-warns disabled s w = ground arith
resolve-warns absent_option disabled w = ground arith
resolve-warns (spec_of ignore) disabled w = ground arith
resolve-warns (spec_of ignore) absent_option w = ground arith
resolve-warns (spec_of ignore) (spec_of s) w = ground arith
resolve-warns absent_option absent_option w = ground arith
resolve-warns absent_option (spec_of s) w = ground arith

-- However many matchers a package resolves, it warns at most once, and not after it has warned.
pub warnings-le :
    (options : List (Given IgnoreSpec × Given SkipOptions)) (legacy_warned : Bool)
    → warnings options legacy_warned ≤ (if legacy_warned then 0 else 1)
unfolding warnings
warnings-le [] true = omega arith
warnings-le [] false = omega arith
warnings-le ((ignore, s) ∷ options) w =
    ground (arith, resolve-warns ignore s w, warnings-le options (resolve ignore s w).legacy_warned)
