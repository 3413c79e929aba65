-- ===== src/Skip.antt =====
-- packages/core/src/skip.ts: the legacy options, their translation to an `IgnoreSpec`, and the path
-- predicate. `new URL(path, 'http://x')` is the platform's: its pathname is an argument. Children
-- hold the proofs.
pub mod Prefixes
pub mod Predicate
pub mod PathOf
pub mod Tests
use mathlib.Core.Option
use coraza_node.Base.{
  ℕ, Bool, true, false, ◌||◌, List, [], ◌∷◌, ◌++◌, Option, none, some, map, ◌==◌, min, take, length,
  suc, if◌then◌else◌,
}
use coraza_node.Base.Text.{Text, codes, Casing}
use coraza_node.Ignore.Glob.{Route, glob, regexp}
use coraza_node.Ignore.Extension.{default_extensions}
use coraza_node.Ignore.Header.{entries}
use coraza_node.Ignore.Verdict.{Verdict, inspect, skip_body, skip}
use coraza_node.Ignore.Matcher.{
  Url, IgnoreContext, IgnoreSpec, empty_spec, is_empty, build_ignore_matcher,
}

-- `DEFAULT_SKIP_EXTENSIONS`, which lists what `DEFAULT_EXTENSIONS` lists.
abbrev pub default_skip_extensions : List Text
default_skip_extensions = map codes (
    "png" ∷ "jpg" ∷ "jpeg" ∷ "gif" ∷ "webp" ∷ "avif" ∷ "svg" ∷ "ico" ∷ "bmp" ∷ "tiff" ∷ "css" ∷ "js"
    ∷ "mjs" ∷ "map" ∷ "woff" ∷ "woff2" ∷ "ttf" ∷ "otf" ∷ "eot" ∷ "mp4" ∷ "webm" ∷ "ogg" ∷ "mp3"
    ∷ "wav" ∷ "flac" ∷ "pdf" ∷ "txt" ∷ "xml" ∷ "wasm" ∷ [])

-- `DEFAULT_SKIP_PREFIXES`.
abbrev pub default_skip_prefixes : List Text
default_skip_prefixes = map codes (
    "/_next/static/" ∷ "/_next/image" ∷ "/_next/data/" ∷ "/static/" ∷ "/public/" ∷ "/assets/"
    ∷ "/favicon.ico" ∷ "/robots.txt" ∷ [])

-- `custom` answers `none` where it throws.
pub record SkipOptions : Type 0 where
  pub prefixes : Option (List Text)
  pub extensions : Option (List Text)
  pub patterns : Option (List (Text → Bool))
  pub custom : Option (Text → Option Bool)
  pub skip_defaults : Option Bool

unfoldable pub ends_with_star : Text → Bool
ends_with_star [] = false
ends_with_star (c ∷ []) = c == b'*'
ends_with_star (c ∷ d ∷ s) = ends_with_star (d ∷ s)

unfoldable pub prefix_route : Text → Route
unfolding ends_with_star
prefix_route p = glob (if ends_with_star p then p else p ++ b'*' ∷ [])

abbrev pub routes_of : Option (List Text) → Option (List (Text → Bool)) → List Route
routes_of none none = []
routes_of none (some patterns) = map regexp patterns
routes_of (some prefixes) none = map prefix_route prefixes
routes_of (some prefixes) (some patterns) = map prefix_route prefixes ++ map regexp patterns

abbrev pub of_bool : Bool → Verdict
of_bool true = skip
of_bool false = inspect

abbrev pub custom_match : (Text → Option Bool) → IgnoreContext → Option Verdict
custom_match custom ctx = elim (custom ctx.url.pathname) [ none ↦ none | some b ↦ some (of_bool b) ]

unfoldable pub skip_to_ignore : Option SkipOptions → Option IgnoreSpec
unfolding prefix_route
skip_to_ignore none = none
skip_to_ignore (some opts) =
    let routes = routes_of opts.prefixes opts.patterns in
    some (record {
      extensions = opts.extensions;
      routes = if is_empty routes then none else some routes;
      methods = none;
      body_larger_than = none;
      header_equals = none;
      match = elim opts.custom [ none ↦ none | some custom ↦ some (custom_match custom) ];
      skip_defaults = opts.skip_defaults;
    })

abbrev pub is_true : Verdict → Bool
is_true skip = true
is_true _ = false

unfoldable pub build_skip_predicate : Casing → (Text → Url) → Option SkipOptions → Text → Bool
unfolding skip_to_ignore
build_skip_predicate casing parse_url opts path =
    is_true (build_ignore_matcher casing (skip_to_ignore opts) ctx)
  where
    ctx : IgnoreContext
    ctx = record {
      method = codes "GET";
      url = parse_url path;
      headers = entries [];
      content_length = none;
    }

-- The tail of `pathOf`: the first `?` or `#`, whichever comes first, ends the path. `position` is
-- `indexOf`, `none` for -1.
unfoldable pub position : ℕ → Text → Option ℕ
position c [] = none
position c (d ∷ s) = if d == c then some 0 else Option.map suc (position c s)

abbrev pub end_of : Option ℕ → Option ℕ → ℕ → ℕ
end_of none none len = len
end_of none (some h) len = h
end_of (some q) none len = q
end_of (some q) (some h) len = min q h

unfoldable pub path_of : Text → Text
unfolding position
path_of url = take (end_of (position b'?' url) (position b'#' url) (length url)) url
