-- ===== src/Adapter.antt =====
-- What the framework packages share: an interruption, and the calls of a WAF as the adapters await
-- them. Each call is made at most once for a request, so it is given by its outcome.
pub mod Express
pub mod FailClosed
pub mod Fastify
pub mod Nest
pub mod Next
pub mod Options
pub mod Request
pub mod NextAllows
mod Tests
use coraza_node.Base.{ℕ, Bool, List, [], ◌∷◌, ◌++◌, Option, none, some, ◌==◌, map, if◌then◌else◌}
use coraza_node.Base.Text.{Text, codes}
use coraza_node.Wire.Utf8.{utf8}

pub record Interruption : Type 0 where
  pub rule_id : ℕ
  pub action : Text
  pub status : ℕ
  pub data_text : Text
  pub source : Option Text

-- A call, or the promise of one, that returned or threw.
pub data Outcome (A : Type 0) : Type 0 where
  returned : A → Outcome A
  threw : (message : Text) → Outcome A

pub data OnWafError : Type 0 where
  block allow : OnWafError

-- `MatchedRule` is an argument; the adapters only pass it on and print it.
pub record Calls (R : Type 0) : Type 0 where
  pub waf : Outcome (Unit {0})
  pub new_transaction : Outcome (Unit {0})
  pub is_rule_engine_off : Outcome Bool
  pub process_request_bundle : Outcome Bool
  pub interruption : Outcome (Option Interruption)
  pub matched_rules : Outcome (List R)
  pub process_logging : Outcome (Unit {0})
  pub close : Outcome (Unit {0})

abbrev waf_error : Text → Interruption
waf_error text = record {
  rule_id = 0;
  action = codes "deny";
  status = 503;
  data_text = text;
  source = some (codes "waf-error");
}

abbrev pub unavailable : Interruption
unavailable = waf_error (codes "WAF unavailable")

abbrev pub internal_error : Interruption
internal_error = waf_error (codes "WAF internal error")

-- A value of a header object.
pub data HeaderValue : Type 0 where
  undefined : HeaderValue
  single : Text → HeaderValue
  many : List Text → HeaderValue

-- `headersOf`: one pair for each item of an array.
unfoldable pub headers_of : List (Text × HeaderValue) → List (Text × Text)
headers_of [] = []
headers_of ((k, undefined) ∷ h) = headers_of h
headers_of ((k, single v) ∷ h) = (k, v) ∷ headers_of h
headers_of ((k, many vs) ∷ h) = map (λ v. (k, v)) vs ++ headers_of h

-- `v.join(',')`
unfoldable pub join_commas : List Text → Text
join_commas [] = []
join_commas (v ∷ []) = v
join_commas (v ∷ w ∷ vs) = v ++ (codes "," ++ join_commas (w ∷ vs))

-- The header map of `buildIgnoreCtx`. The names of an object are distinct.
unfoldable pub header_map : List (Text × HeaderValue) → List (Text × Text)
header_map [] = []
header_map ((k, undefined) ∷ h) = header_map h
header_map ((k, single v) ∷ h) = (k, v) ∷ header_map h
header_map ((k, many vs) ∷ h) = (k, join_commas vs) ∷ header_map h

abbrev pub first_of : List Text → Option Text
first_of [] = none
first_of (v ∷ vs) = some v

-- `parseContentLength`. `Number` is an argument, `none` where its value is negative, infinite or no
-- number; the first item of an empty array is `undefined`, whose number is NaN.
unfoldable pub parse_content_length : (Text → Option ℕ) → HeaderValue → Option ℕ
parse_content_length number undefined = none
parse_content_length number (single s) = number s
parse_content_length number (many []) = none
parse_content_length number (many (s ∷ ss)) = number s

-- `req.body` as the parsers leave it: an object with its count of keys and the outcome of
-- `JSON.stringify`, which may be `undefined`.
pub data JsBody : Type 0 where
  no_body : JsBody
  bytes : List ℕ → JsBody
  text : Text → JsBody
  primitive : JsBody
  object : (keys : ℕ) (json : Outcome (Option Text)) → JsBody

abbrev pub encoded : Outcome (Option Text) → Option (List ℕ)
encoded (threw e) = none
encoded (returned none) = some []
encoded (returned (some s)) = some (utf8 s)

unfoldable pub extract_body : JsBody → Option (List ℕ)
extract_body no_body = none
extract_body (bytes b) = some b
extract_body (text s) = some (utf8 s)
extract_body primitive = none
extract_body (object keys json) = if keys == 0 then none else encoded json
