-- ===== src/Adapter/Request.antt =====
-- What the adapters read of a request, and the plain text that they answer a block with.
use coraza_node.Base.{ℕ, List, [], ◌∷◌, ◌++◌, Option, none, some, ◌==◌, if◌then◌else◌}
use coraza_node.Base.Text.{Text, codes, text_eq}
use coraza_node.Ignore.Header.{entries}
use coraza_node.Ignore.Matcher.{Url, IgnoreContext}
use coraza_node.Adapter.{Interruption, HeaderValue, undefined, header_map, parse_content_length}

-- `new URL(raw, 'http://x')`, none where it throws, and `new URL('/', 'http://x')`.
pub record UrlParser : Type 0 where
  pub parse : Text → Option Url
  pub root : Url

unfoldable pub parse_url : UrlParser → Text → Url
parse_url parser raw = elim (parser.parse raw) [ none ↦ parser.root | some url ↦ url ]

-- `a || b` on strings, where `a` may be undefined.
unfoldable pub first_nonempty : Option Text → Text → Text
first_nonempty none b = b
first_nonempty (some []) b = b
first_nonempty (some (c ∷ s)) b = c ∷ s

-- A property of a header object.
unfoldable pub header_value : Text → List (Text × HeaderValue) → HeaderValue
header_value name [] = undefined
header_value name ((k, v) ∷ h) = if text_eq k name then v else header_value name h

-- `buildIgnoreCtx`, for the URL that the adapter parses.
unfoldable pub context_of :
    UrlParser → (Text → Option ℕ) → (method raw : Text) → List (Text × HeaderValue) → IgnoreContext
unfolding parse_url header_value
context_of parser number method raw headers = record {
  method = method;
  url = parse_url parser raw;
  headers = entries (header_map headers);
  content_length = parse_content_length number (header_value (codes "content-length") headers);
}

pub record TextResponse : Type 0 where
  pub status : ℕ
  pub body : Text

-- `status || 403`
abbrev pub status_or_403 : ℕ → ℕ
status_or_403 status = if status == 0 then 403 else status

abbrev pub blocked_text : (ℕ → Text) → Interruption → Text
blocked_text digits it =
    codes "Request blocked by Coraza (rule " ++ (digits it.rule_id ++ codes ")")

-- The answer that the adapters' default handlers give.
unfoldable pub blocked_response : (ℕ → Text) → Interruption → TextResponse
blocked_response digits it = record {
  status = status_or_403 it.status;
  body = blocked_text digits it ++ codes "\n";
}
