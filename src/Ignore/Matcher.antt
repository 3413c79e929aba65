-- ===== src/Ignore/Matcher.antt =====
-- `buildIgnoreMatcher` of packages/core/src/ignore.ts: the compiled rules and the decision.
-- Of a `URL` the rules read the pathname. Sizes are whole numbers of bytes; a cutoff that the code
-- ignores because it is negative is `negative`. A RegExp is its test, and `match` answers `none`
-- where it throws.
use coraza_node.Base.{
  ℕ, Bool, true, false, not, ◌&&◌, List, [], ◌∷◌, ◌++◌, Option, none, some, map, ltb, if◌then◌else◌,
  any, all,
}
use coraza_node.Base.Text.{Text, codes, has, Casing}
use coraza_node.Ignore.Verdict.{Verdict, inspect, skip_body, skip, most_restrictive}
use coraza_node.Ignore.Glob.{Route, glob, compile_route}
use coraza_node.Ignore.Extension.{default_extensions, extension_matches}
use coraza_node.Ignore.Header.{HeaderBag, header_get}

pub record Url : Type 0 where
  pub pathname : Text
  pub search : Text

pub record IgnoreContext : Type 0 where
  pub method : Text
  pub url : Url
  pub headers : HeaderBag
  pub content_length : Option ℕ

abbrev pub Match : Type 0
Match = IgnoreContext → Option Verdict

pub data Cutoff : Type 0 where
  negative : Cutoff
  bytes : ℕ → Cutoff

pub record IgnoreSpec : Type 0 where
  pub extensions : Option (List Text)
  pub routes : Option (List Route)
  pub methods : Option (List Text)
  pub body_larger_than : Option Cutoff
  pub header_equals : Option (List (Text × List Text))
  pub match : Option Match
  pub skip_defaults : Option Bool

-- `DEFAULT_ROUTES`.
abbrev pub default_routes : List Route
default_routes =
    map (λ s. glob (codes s))
      ("/_next/static/*" ∷ "/_next/image*" ∷ "/_next/data/*" ∷ "/static/*" ∷ "/public/*"
        ∷ "/assets/*" ∷ "/favicon.ico*" ∷ "/robots.txt*" ∷ [])

-- What the closure captures.
pub record Rules : Type 0 where
  pub extensions : List Text
  pub routes : List (Text → Bool)
  pub methods : List Text
  pub body_cutoff : Option ℕ
  pub header_equals : List (Text × List Text)
  pub match : Option Match

abbrev or_empty {ℓ} : {A : Type ℓ} → Option (List A) → List A
or_empty none = []
or_empty (some xs) = xs

abbrev pub use_defaults : Option Bool → Bool
use_defaults (some true) = false
use_defaults _ = true

abbrev cutoff_of : Option Cutoff → Option ℕ
cutoff_of none = none
cutoff_of (some negative) = none
cutoff_of (some (bytes n)) = some n

abbrev pub empty_spec : IgnoreSpec
empty_spec = record {
  extensions = none;
  routes = none;
  methods = none;
  body_larger_than = none;
  header_equals = none;
  match = none;
  skip_defaults = none;
}

abbrev given : Option IgnoreSpec → IgnoreSpec
given none = empty_spec
given (some spec) = spec

-- The part of `buildIgnoreMatcher` that runs once.
unfoldable pub compile_rules : Casing → Option IgnoreSpec → Rules
compile_rules casing option =
    let spec = given option in
    let defaults = use_defaults spec.skip_defaults in
    let own = map casing.to_lower_case (or_empty spec.extensions) in
    let routes = or_empty spec.routes in
    record {
      extensions = if defaults then default_extensions ++ own else own;
      routes = map compile_route (if defaults then default_routes ++ routes else routes);
      methods = map casing.to_upper_case (or_empty spec.methods);
      body_cutoff = cutoff_of spec.body_larger_than;
      header_equals = map (λ e. (casing.to_lower_case e.0, e.1)) (or_empty spec.header_equals);
      match = spec.match;
    }

abbrev pub is_empty {ℓ} : {A : Type ℓ} → List A → Bool
is_empty [] = true
is_empty (x ∷ xs) = false

-- The first ladder: methods, then extensions, then routes.
unfoldable pub path_rules : Casing → Rules → IgnoreContext → Option Verdict
path_rules casing rules ctx =
    if not (is_empty rules.methods) && has rules.methods (casing.to_upper_case ctx.method)
    then some skip
    else if not (is_empty rules.extensions)
        && extension_matches casing ctx.url.pathname rules.extensions
    then some skip
    else if any (λ r. r ctx.url.pathname) rules.routes
    then some skip
    else none

abbrev is_skip : Option Verdict → Bool
is_skip (some skip) = true
is_skip _ = false

unfoldable pub exceeds : Option ℕ → Option ℕ → Bool
exceeds (some cutoff) (some size) = ltb cutoff size
exceeds (some cutoff) none = false
exceeds none size = false

-- The body cutoff, applied to the verdict so far.
unfoldable pub cutoff_rule : Rules → IgnoreContext → Option Verdict → Option Verdict
unfolding exceeds
cutoff_rule rules ctx verdict =
    if not (is_skip verdict) && exceeds rules.body_cutoff ctx.content_length
    then some skip_body
    else verdict

abbrev pub allowed_value : List Text → Option Text → Bool
allowed_value allowed none = false
allowed_value allowed (some v) = has allowed v

unfoldable pub headers_match : Casing → List (Text × List Text) → HeaderBag → Bool
headers_match casing entries bag = all (λ e. allowed_value e.1 (header_get casing bag e.0)) entries

-- Header equality, applied to the verdict so far.
unfoldable pub header_rule : Casing → Rules → IgnoreContext → Option Verdict → Option Verdict
header_rule casing rules ctx verdict =
    if not (is_skip verdict)
      && not (is_empty rules.header_equals)
      && headers_match casing rules.header_equals ctx.headers
    then some skip
    else verdict

-- The declarative verdict, `none` where no rule matched.
unfoldable pub declarative : Casing → Rules → IgnoreContext → Option Verdict
unfolding path_rules cutoff_rule header_rule
declarative casing rules ctx =
    header_rule casing rules ctx (cutoff_rule rules ctx (path_rules casing rules ctx))

abbrev pub or_inspect : Option Verdict → Verdict
or_inspect none = inspect
or_inspect (some v) = v

abbrev pub combine : Option Verdict → Verdict → Verdict
combine none imperative = imperative
combine (some v) imperative = most_restrictive v imperative

-- `none` from `match` is a throw, which inspects.
abbrev pub answer : Option Verdict → Option Verdict → Verdict
answer verdict none = inspect
answer verdict (some imperative) = combine verdict imperative

abbrev pub decide_match : Option Verdict → Option Match → IgnoreContext → Verdict
decide_match verdict none ctx = or_inspect verdict
decide_match verdict (some match) ctx = answer verdict (match ctx)

unfoldable pub matcher : Casing → Rules → IgnoreContext → Verdict
matcher casing rules ctx = decide_match (declarative casing rules ctx) rules.match ctx

unfoldable pub build_ignore_matcher : Casing → Option IgnoreSpec → IgnoreContext → Verdict
build_ignore_matcher casing spec = matcher casing (compile_rules casing spec)
