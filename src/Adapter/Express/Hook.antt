-- ===== src/Adapter/Express/Hook.antt =====
-- `hookResponse` of packages/express/src/index.ts: the patched `writeHead` and `end` of a response.
-- `onInterrupt` may itself write to the response: `headersDone` is set before it is called, so a
-- nested `writeHead` is the original one. Those nested calls are part of the effect `on_interrupt`.
use coraza_node.Base.{
  ℕ, ◌+◌, ◌≤◌, ◌≡◌, refl, Bool, true, false, List, [], ◌∷◌, ◌++◌, Option, none, some, length,
  if◌then◌else◌, arith,
}
use coraza_node.Base.Text.{Text}
use coraza_node.Adapter.{Interruption, Outcome, returned, threw, HeaderValue, headers_of}

pub data Effect : Type 0 where
  process_response process_response_body : Effect
  on_interrupt : Interruption → Effect
  log_failed : Text → Effect
  orig_write_head orig_end : Effect

-- The outcomes of the calls that one patched call may make.
pub record Inspection : Type 0 where
  pub processed : Outcome Bool
  pub interruption : Outcome (Option Interruption)
  pub handled : Outcome (Unit {0})

abbrev pub logged : {A : Type 0} → Outcome A → List Effect
logged (returned a) = []
logged (threw e) = log_failed e ∷ []

abbrev pub interrupted : Inspection → Outcome (Option Interruption) → List Effect
interrupted i (threw e) = log_failed e ∷ []
interrupted i (returned none) = []
interrupted i (returned (some it)) = on_interrupt it ∷ logged i.handled

abbrev pub inspected : Inspection → Outcome Bool → List Effect
inspected i (threw e) = log_failed e ∷ []
inspected i (returned false) = []
inspected i (returned true) = interrupted i i.interruption

-- `res.writeHead`, with the flag `headersDone`.
unfoldable pub write_head : Inspection → Bool → List Effect × Bool
write_head i true = (orig_write_head ∷ [], true)
write_head i false = (process_response ∷ (inspected i i.processed ++ (orig_write_head ∷ [])), true)

abbrev pub end_result : Inspection → Outcome Bool → List Effect × Outcome (Unit {0})
end_result i (threw e) = ([], threw e)
end_result i (returned false) = (orig_end ∷ [], returned tt)
end_result i (returned true) =
    (process_response_body ∷ (inspected i i.processed ++ (orig_end ∷ [])), returned tt)

-- `res.end`: `isResponseBodyProcessable` is called outside the `try`.
unfoldable pub end :
    Inspection
    → (has_chunk : Bool) → (processable : Outcome Bool) → List Effect × Outcome (Unit {0})
end i false processable = (orig_end ∷ [], returned tt)
end i true processable = end_result i processable

-- `headersFromNodeRes`: a header has a value or a list of values.
unfoldable pub headers_from_node_res : List (Text × HeaderValue) → List (Text × Text)
headers_from_node_res headers = headers_of headers

-- The patched `writeHead` called again and again on one response.
unfoldable pub write_heads : List Inspection → Bool → List Effect
write_heads [] headers_done = []
write_heads (i ∷ is) headers_done = let r = write_head i headers_done in r.0 ++ write_heads is r.1

abbrev pub is_inspection : Effect → ℕ
is_inspection process_response = 1
is_inspection _ = 0

abbrev pub is_original : Effect → ℕ
is_original orig_write_head = 1
is_original _ = 0

abbrev pub total : (Effect → ℕ) → List Effect → ℕ
total w [] = 0
total w (e ∷ es) = w e + total w es

total-append : (w : Effect → ℕ) (xs ys : List Effect) → total w (xs ++ ys) ≡ total w xs + total w ys
total-append w [] ys = omega arith
total-append w (x ∷ xs) ys = omega (arith, total-append w xs ys)

-- An inspection itself neither inspects again nor calls the original.
inspected-total :
    (i : Inspection) (o : Outcome Bool)
    → (total is_inspection (inspected i o) ≡ 0) × (total is_original (inspected i o) ≡ 0)
inspected-total i (threw e) = omega arith
inspected-total i (returned false) = omega arith
inspected-total i (returned true) = interrupted-total i.interruption
  where
    logged-total :
        (it : Interruption) (h : Outcome (Unit {0}))
        → (total is_inspection (on_interrupt it ∷ logged h) ≡ 0)
          × (total is_original (on_interrupt it ∷ logged h) ≡ 0)
    logged-total it (returned u) = omega arith
    logged-total it (threw e) = omega arith

    interrupted-total :
        (o : Outcome (Option Interruption))
        → (total is_inspection (interrupted i o) ≡ 0) × (total is_original (interrupted i o) ≡ 0)
    interrupted-total (threw e) = omega arith
    interrupted-total (returned none) = omega arith
    interrupted-total (returned (some it)) = logged-total it i.handled

write_head-total :
    (i : Inspection) (d : Bool)
    → (total is_inspection (write_head i d).0 ≡ (if d then 0 else 1))
      × (total is_original (write_head i d).0 ≡ 1)
      × ((write_head i d).1 ≡ true)
unfolding write_head
write_head-total i true = (omega arith, omega arith, refl)
write_head-total i false =
    let t = inspected-total i i.processed in
    let a = total-append is_inspection (inspected i i.processed) (orig_write_head ∷ []) in
    let b = total-append is_original (inspected i i.processed) (orig_write_head ∷ []) in
    (omega arith, omega arith, refl)

-- However often `writeHead` is called on a response, and whatever the transaction answers or
-- throws, the headers are inspected at most once and each call reaches the original.
pub write_heads-total :
    (is : List Inspection) (d : Bool)
    → (total is_inspection (write_heads is d) ≤ (if d then 0 else 1))
      × (total is_original (write_heads is d) ≡ length is)
unfolding write_heads
write_heads-total [] true = omega arith
write_heads-total [] false = omega arith
write_heads-total (i ∷ is) d =
    let t = write_head-total i d in
    let h = write_heads-total is (write_head i d).1 in
    let a = total-append is_inspection (write_head i d).0 (write_heads is (write_head i d).1) in
    let b = total-append is_original (write_head i d).0 (write_heads is (write_head i d).1) in
    ground arith
