-- ===== src/Abi.antt =====
-- packages/core/src/abi.ts: the calls into the WASM module. The module is not modelled: what it
-- answers is a function of everything that was called before, so a parameter `Module` stands for
-- any module, with its allocator. A trap is an exception out of an export; `host_free` is taken
-- not to trap, and a buffer of `host_malloc` to lie in the memory. The trace has the newest event
-- first. `string_at` is the text at a slice of the memory, `string_below` the one that `readString`
-- yields where the packed slice is a negative number.
pub mod Frees
pub mod View
mod Tests
use coraza_node.Base.{
  ℕ, ◌+◌, ◌/◌, ◌%◌, ◌^◌, Bool, true, false, List, [], ◌∷◌, Option, none, some, ◌==◌, length,
  if◌then◌else◌,
}
use coraza_node.Base.Text.{Text, codes}

-- The exports that take a transaction or WAF id, with their arguments.
pub data Export : Type 0 where
  waf_create : (ptr len : ℕ) → Export
  waf_destroy : (id : ℕ) → Export
  tx_create : (waf : ℕ) → Export
  tx_destroy tx_reset tx_has_interrupt tx_is_rule_engine_off : (id : ℕ) → Export
  tx_is_request_body_accessible tx_is_response_body_accessible : (id : ℕ) → Export
  tx_is_response_body_processable : (id : ℕ) → Export
  tx_process_connection : (id addr len cport sport : ℕ) → Export
  tx_append_request_body tx_append_response_body : (id ptr len : ℕ) → Export
  tx_process_request_body_finish tx_process_response_body_finish : (id : ℕ) → Export
  tx_process_response_headers : (id status pkt pkt_len proto proto_len : ℕ) → Export
  tx_process_request_bundle tx_process_response_body : (id ptr len : ℕ) → Export
  tx_process_logging : (id : ℕ) → Export
  tx_get_interrupt tx_get_matched_rules : (id : ℕ) → Export

pub data Event : Type 0 where
  malloc : (size ptr : ℕ) → Event
  write : (ptr : ℕ) → List ℕ → Event
  free : (ptr : ℕ) → Event
  call : Export → Event
  last_error : Event

abbrev pub Trace : Type 0
Trace = List Event

-- A signed return value, or a trap.
pub data Rc : Type 0 where
  rc : ℕ → Rc
  negative : Rc
  trap : Rc

pub record Module : Type 0 where
  pub mallocs : Trace → ℕ → Option ℕ
  pub calls : Trace → Export → Rc
  pub errors : Trace → Text
  pub string_at : Trace → (ptr len : ℕ) → Text
  pub string_below : Trace → Text

pub data Error : Type 0 where
  closed out_of_memory out_of_config_memory trapped destroyed bad_json : Error
  failed : (op message : Text) → Error

pub data Result (A : Type 0) : Type 0 where
  ok : A → Result A
  err : Error → Result A

-- A computation that calls the module.
abbrev pub M : Type 0 → Type 0
M A = Trace → Result A × Trace

infixl 5 ◌>>=◌ ◌>>◌
abbrev pub bind_result : {A B : Type 0} → Result A × Trace → (A → M B) → Result B × Trace
bind_result (ok a, t) f = f a t
bind_result (err e, t) f = (err e, t)

abbrev pub ◌>>=◌ : {A B : Type 0} → M A → (A → M B) → M B
◌>>=◌ m f t = bind_result (m t) f

abbrev pub ◌>>◌ : {A B : Type 0} → M A → M B → M B
m >> k = m >>= λ _. k

abbrev pub return : {A : Type 0} → A → M A
return a t = (ok a, t)

abbrev pub throw : {A : Type 0} → Error → M A
throw e t = (err e, t)

abbrev pub emit : Event → M (Unit {0})
emit e t = (ok tt, e ∷ t)

-- `try { body } finally { cleanup }` for a cleanup that does not throw.
abbrev pub finally : {A : Type 0} → M A → (Trace → Trace) → M A
finally body cleanup t = let r = body t in (r.0, cleanup r.1)

abbrev pub host_free : ℕ → Trace → Trace
host_free ptr t = free ptr ∷ t

module _ (module_ : Module) where
  unfoldable pub host_malloc : ℕ → M ℕ
  host_malloc size t = elim (module_.mallocs t size) [
    | none ↦ (err trapped, t)
    | some ptr ↦ (ok ptr, malloc size ptr ∷ t)
  ]

  abbrev pub of_rc : Rc → Trace → Result Rc × Trace
  of_rc trap t = (err trapped, t)
  of_rc r t = (ok r, t)

  unfoldable pub invoke : Export → M Rc
  invoke e t = of_rc (module_.calls t e) (call e ∷ t)

  -- `readString`: an empty slice reads no memory.
  unfoldable pub read_string : (ptr len : ℕ) → Trace → Text
  read_string ptr len t = if len == 0 then [] else module_.string_at t ptr len

  abbrev pub or_unknown : Text → Text
  or_unknown [] = codes "unknown error"
  or_unknown s = s

  unfoldable pub check : Rc → Text → M (Unit {0})
  check negative op t = (err (failed op (or_unknown (module_.errors t))), last_error ∷ t)
  check _ op t = (ok tt, t)

abbrev pub is_zero : Rc → Bool
is_zero (rc n) = n == 0
is_zero _ = false

abbrev pub is_one : Rc → Bool
is_one (rc n) = n == 1
is_one _ = false

-- `(packed >> 32n, packed & 0xffffffffn)`
unfoldable pub unpack_slice : ℕ → ℕ × ℕ
unpack_slice packed = (packed / 2 ^ 32, packed % 2 ^ 32)
