-- ===== src/Skip/Tests.antt =====
-- Tests of the legacy options, and the theorems at concrete inputs.
use coraza_node.Base.{◌≡◌, refl, ◌↔◌, true, [], ◌++◌, some, arith}
use coraza_node.Base.Text.{Text, codes, Casing}
use coraza_node.Ignore.Glob.{compile_route}
use coraza_node.Ignore.Header.{entries}
use coraza_node.Ignore.Matcher.{IgnoreContext}
use coraza_node.Skip.{prefix_route, path_of}
use coraza_node.Skip.Prefixes.{prefix_route-StartsWith}
use coraza_node.Skip.PathOf.{IsCut, path_of-IsCut}

-- A mapping that changes nothing.
abbrev plain : Casing
plain = record { to_lower_case = λ s. s; to_upper_case = λ s. s }

abbrev script : IgnoreContext
script = record {
  method = codes "POST";
  url = record { pathname = codes "/static/x.php"; search = [] };
  headers = entries [];
  content_length = some 10;
}

path_of_query : path_of (codes "/a/b?c#d") ≡ codes "/a/b"
unfolding path_of
path_of_query = refl

path_of_fragment : path_of (codes "/a#b?c") ≡ codes "/a"
unfolding path_of
path_of_fragment = refl

prefix_route-StartsWith_example :
    (compile_route (prefix_route (codes "/static/")) (codes "/static/x") ≡ true)
    ↔ ((rest : Text) × (codes "/static/x" ≡ codes "/static/" ++ rest))
prefix_route-StartsWith_example =
    prefix_route-StartsWith (codes "/static/") (codes "/static/x") (omega arith)

path_of-IsCut_example : IsCut (codes "/a/b?c#d") (path_of (codes "/a/b?c#d"))
path_of-IsCut_example = path_of-IsCut (codes "/a/b?c#d")
