-- ===== src/Ignore/Tests.antt =====
-- Tests of the bypass rules, and the theorems at concrete inputs.
use coraza_node.Base.{
  ℕ, ◌≡◌, refl, ◌↔◌, true, false, [], ◌∷◌, ◌++◌, Option, none, some, ◌⊎◌, leb, if◌then◌else◌, ◌&&◌,
  ◌-◌, ◌+◌, map,
}
use coraza_node.Base.Text.{Text, codes, Casing, text_eq}
use coraza_node.Ignore.Glob.{glob, compile_route}
use coraza_node.Ignore.Globs.{Globs, compile_route-Globs}
use coraza_node.Ignore.Extension.{basename, extension_matches, suffix_in}
use coraza_node.Ignore.Suffixes.{EndsIn, NoSlash, basename_lem, extension_matches-EndsIn}
use coraza_node.Ignore.Header.{entries, header_get}
use coraza_node.Ignore.Verdict.{Verdict, inspect, skip_body, skip, most_restrictive}
use coraza_node.Ignore.Matcher.{
  IgnoreContext, IgnoreSpec, Rules, bytes, empty_spec, compile_rules, matcher, declarative, exceeds,
  headers_match, build_ignore_matcher,
}
use coraza_node.Ignore.Rules.{Skips, matcher-skip_iff, matcher-match, build_ignore_matcher-bare}

abbrev lower : ℕ → ℕ
lower c = if leb b'A' c && leb c b'Z' then c + 32 else c

abbrev upper : ℕ → ℕ
upper c = if leb b'a' c && leb c b'z' then c - 32 else c

-- The mappings on ASCII letters.
abbrev ascii : Casing
ascii = record { to_lower_case = map lower; to_upper_case = map upper }

abbrev request : Text → Text → Option ℕ → IgnoreContext
request method path size = record {
  method = method;
  url = record { pathname = path; search = [] };
  headers = entries ((codes "X-Probe", codes "on") ∷ []);
  content_length = size;
}

abbrev upload : IgnoreContext
upload = request (codes "post") (codes "/upload") (some 5000)

abbrev spec : IgnoreSpec
spec = record empty_spec {
  extensions = some (codes "Min.JS" ∷ []);
  routes = some (glob (codes "/api/v?/*.json") ∷ []);
  methods = some (codes "options" ∷ []);
  body_larger_than = some (bytes 1024);
  header_equals = some ((codes "x-probe", codes "off" ∷ []) ∷ []);
}

tests : Unit {0}
unfolding build_ignore_matcher matcher compile_rules declarative extension_matches basename
    suffix_in
tests = tt

verdicts : Unit {0}
unfolding tests compile_route headers_match header_get most_restrictive text_eq
verdicts = tt

escaped_dot :
    (compile_route (glob (codes "/a.b?c*")) (codes "/a.bxc") ≡ true)
    × (compile_route (glob (codes "/a.b?c*")) (codes "/aXbxc") ≡ false)
unfolding verdicts
escaped_dot = (refl, refl)

upload_body : build_ignore_matcher ascii (some spec) upload ≡ skip_body
unfolding verdicts
upload_body = refl

options_skip :
    build_ignore_matcher ascii (some spec) (request (codes "Options") (codes "/x") none) ≡ skip
unfolding verdicts
options_skip = refl

compound_skip :
    build_ignore_matcher ascii (some spec) (request (codes "GET") (codes "/a/app.min.js") none)
    ≡ skip
unfolding verdicts
compound_skip = refl

compile_route-Globs_example :
    (compile_route (glob (codes "/a.b?c*")) (codes "/a.bxc") ≡ true)
    ↔ Globs (codes "/a.b?c*") (codes "/a.bxc")
compile_route-Globs_example = compile_route-Globs (codes "/a.b?c*") (codes "/a.bxc")

basename_lem_example :
    NoSlash (basename (codes "/a/b.css"))
    × ((codes "/a/b.css" ≡ basename (codes "/a/b.css"))
        ⊎ ((dir : Text) × (codes "/a/b.css" ≡ dir ++ b'/' ∷ basename (codes "/a/b.css"))))
basename_lem_example = basename_lem (codes "/a/b.css")

extension_matches-EndsIn_example :
    (extension_matches ascii (codes "/a/app.MIN.js") (codes "min.js" ∷ []) ≡ true)
    ↔ EndsIn (codes "min.js" ∷ []) (map lower (basename (codes "/a/app.MIN.js")))
extension_matches-EndsIn_example =
    extension_matches-EndsIn ascii (codes "/a/app.MIN.js") (codes "min.js" ∷ []) refl

abbrev rules : Rules
rules = compile_rules ascii (some spec)

matcher-skip_iff_example : (matcher ascii rules upload ≡ skip) ↔ Skips ascii rules upload
unfolding compile_rules
matcher-skip_iff_example = matcher-skip_iff ascii rules upload refl

-- A `match` that throws on uploads, and one that asks to skip them.
abbrev throwing : IgnoreContext → Option Verdict
throwing ctx = none

-- A `match` function that throws inspects the request, although a rule skips it.
throws_inspect :
    matcher ascii (compile_rules ascii (some (record spec { match = some throwing }))) upload
    ≡ inspect
unfolding matcher compile_rules
throws_inspect = refl

abbrev skipping : IgnoreContext → Option Verdict
skipping ctx = some skip

matcher-match_example :
    let rules' = compile_rules ascii (some (record spec { match = some skipping })) in
    ((matcher ascii rules' upload ≡ skip)
      ⊎ (skip ≡ skip) × (matcher ascii rules' upload ≡ skip_body))
    × (skip ≡ skip
        → (matcher ascii rules' upload ≡ skip_body)
          ↔ (exceeds rules'.body_cutoff upload.content_length ≡ true) × ¬ Skips ascii rules' upload)
unfolding compile_rules
matcher-match_example =
    matcher-match ascii (compile_rules ascii (some (record spec { match = some skipping }))) upload
      skipping skip refl refl

build_ignore_matcher-bare_example :
    build_ignore_matcher ascii (some (record empty_spec { skip_defaults = some true })) upload
    ≡ inspect
build_ignore_matcher-bare_example = build_ignore_matcher-bare ascii upload
