-- ===== src/Adapter/Next/Request.antt =====
-- How packages/next/src/index.ts reads a request and wraps the runner's decision.
use coraza_node.Base.{
  ℕ, Bool, true, false, ◌||◌, List, [], ◌∷◌, ◌++◌, Option, none, some, ◌==◌, if◌then◌else◌,
}
use coraza_node.Base.Text.{Text, codes, text_eq, Casing}
use coraza_node.Ignore.Header.{headers}
use coraza_node.Ignore.Matcher.{Url, IgnoreContext, IgnoreSpec}
use coraza_node.Skip.{SkipOptions}
use coraza_node.Wire.Bundle.{RequestInfo}
use coraza_node.Adapter.{Interruption, Outcome, returned, threw}
use coraza_node.Adapter.Options.{Given, Resolved, resolve}
use coraza_node.Adapter.Request.{TextResponse, blocked_response}
use coraza_node.Adapter.Next.{CorazaDecision, blocked, allowed}

-- A `NextRequest`: `headers_get` is `headers.get`, none for null, and `header_list` what `entries`
-- yields.
pub record NextRequest : Type 0 where
  pub method : Text
  pub url : Url
  pub headers_get : Text → Option Text
  pub header_list : List (Text × Text)

unfoldable pub resolve_ignore_matcher : Given IgnoreSpec → Given SkipOptions → Bool → Resolved
resolve_ignore_matcher ignore skip_option legacy_warned = resolve ignore skip_option legacy_warned

abbrev pub number_of_header : (Text → Option ℕ) → Option Text → Option ℕ
number_of_header number none = none
number_of_header number (some s) = number s

unfoldable pub build_ignore_ctx : (Text → Option ℕ) → NextRequest → IgnoreContext
build_ignore_ctx number req = record {
  method = req.method;
  url = req.url;
  headers = headers req.headers_get;
  content_length = number_of_header number (req.headers_get (codes "content-length"));
}

unfoldable pub headers_of : List (Text × Text) → List (Text × Text)
headers_of [] = []
headers_of ((k, v) ∷ h) = (k, v) ∷ headers_of h

abbrev pub is_some {ℓ} : {A : Type ℓ} → Option A → Bool
is_some none = false
is_some (some a) = true

abbrev pub length_decides : (Text → Bool) → NextRequest → Option Text → Bool
length_decides is_positive req none = is_some (req.headers_get (codes "content-type"))
length_decides is_positive req (some len) = is_positive len

-- `is_positive s` is `Number(s) > 0`.
unfoldable pub has_body : Casing → (Text → Bool) → NextRequest → Bool
has_body casing is_positive req =
    let m = casing.to_upper_case req.method in
    if text_eq m (codes "GET") || text_eq m (codes "HEAD") || text_eq m (codes "OPTIONS")
    then false
    else length_decides is_positive req (req.headers_get (codes "content-length"))

-- `s.split(',')[0]`
unfoldable pub before_comma : Text → Text
before_comma [] = []
before_comma (c ∷ s) = if c == b',' then [] else c ∷ before_comma s

abbrev pub forwarded : (trim : Text → Text) → Option Text → Text
forwarded trim none = []
forwarded trim (some s) = trim (before_comma s)

-- The record that is handed to `processRequestBundle`.
unfoldable pub request_info : (trim : Text → Text) → NextRequest → RequestInfo
unfolding before_comma headers_of
request_info trim req = record {
  method = req.method;
  url = req.url.pathname ++ req.url.search;
  protocol = some (codes "HTTP/1.1");
  headers = headers_of req.header_list;
  remote_addr = some (forwarded trim (req.headers_get (codes "x-forwarded-for")));
  remote_port = none;
  server_port = none;
}

unfoldable pub default_block : (ℕ → Text) → Interruption → TextResponse
default_block digits it = blocked_response digits it

-- `coraza`: the decision as a response, `proceed` being `NextResponse.next()`.
unfoldable pub coraza : {P : Type 0} → (proceed : P) → Outcome (CorazaDecision P) → Outcome P
coraza proceed (threw e) = threw e
coraza proceed (returned (blocked p)) = returned p
coraza proceed (returned allowed) = returned proceed
