-- ===== src/HostRegex/Refine.antt =====
-- The host of packages/core/src/hostRegex.ts against a table without memos.
use coraza_node.Base.{
  ℕ, ◌+◌, ◌≡◌, refl, ap, ap₂, Bool, false, List, [], ◌∷◌, Option, none, some, if◌then◌else◌,
  Bool-cases, inl, inr, ◌∙◌,
}
use coraza_node.Base.Text.{Text}
use coraza_node.Base.Map.{find, put, delete}
use coraza_node.HostRegex.{
  Regexp, Engine, Host, create_host_regex, reject, register, compile, match_with, match, free,
  memo_of,
}
use coraza_node.HostRegex.Translate.{translate_pattern}
use coraza_node.HostRegex.Memo.{
  Inv, create_host_regex-Inv, compile-Inv, match-Inv, free-Inv, remember_lem,
}

-- A call of one of the three functions, and its answer.
pub data Call : Type 0 where
  compiles : Text → Call
  matches : ℕ → Text → Call
  frees : ℕ → Call

pub data Answer : Type 0 where
  handle : ℕ → Answer
  verdict : Bool → Answer
  done : Answer

abbrev pub step : Engine → Host → Call → Answer × Host
step engine host (compiles raw) = let r = compile engine host raw in (handle r.0, r.1)
step engine host (matches h input) = let r = match host h input in (verdict r.0, r.1)
step engine host (frees h) = (done, free host h)

unfoldable pub run : Engine → Host → List Call → List Answer
run engine host [] = []
run engine host (c ∷ cs) = (step engine host c).0 ∷ run engine (step engine host c).1 cs

-- The specification: live expressions and the next handle.
pub record Table : Type 0 where
  pub live : List (ℕ × Regexp)
  pub next : ℕ

abbrev pub add : Table → Option Regexp → Answer × Table
add t none = (handle 0, t)
add t (some re) = (handle t.next, record { live = put t.next re t.live; next = t.next + 1 })

abbrev pub test : Option Regexp → Text → Bool
test none input = false
test (some re) input = re input

abbrev pub compiled : Engine → Text → Option Regexp
compiled engine raw =
    let t = translate_pattern raw in if t.ok then engine t.source t.flags else none

abbrev pub table_step : Engine → Table → Call → Answer × Table
table_step engine t (compiles raw) = add t (compiled engine raw)
table_step engine t (matches h input) = (verdict (test (find h t.live) input), t)
table_step engine t (frees h) = (done, record t { live = delete h t.live })

unfoldable pub table_run : Engine → Table → List Call → List Answer
table_run engine t [] = []
table_run engine t (c ∷ cs) =
    (table_step engine t c).0 ∷ table_run engine (table_step engine t c).1 cs

abbrev pub table_of : Host → Table
table_of host = record { live = host.patterns; next = host.next_handle }

abbrev pub Simulates : Answer × Host → Answer × Table → Type 0
Simulates (a, host) (b, t) = Inv host × (a ≡ b) × (table_of host ≡ t)

register-add :
    (host : Host) (o : Option Regexp)
    → (handle (register host o).0 ≡ (add (table_of host) o).0)
      × (table_of (register host o).1 ≡ (add (table_of host) o).1)
unfolding register
register-add host none = (refl, refl)
register-add host (some re) = (refl, refl)

compile-add :
    (engine : Engine) (host : Host) (raw : Text)
    → (handle (compile engine host raw).0 ≡ (add (table_of host) (compiled engine raw)).0)
      × (table_of (compile engine host raw).1 ≡ (add (table_of host) (compiled engine raw)).1)
unfolding compile
compile-add engine host raw = elim (Bool-cases (translate_pattern raw).ok) [
  | inl e ↦ rw e (register-add host _)
  | inr e ↦ rw e (unfold reject in (refl, refl))
]

match_with-test :
    (host : Host) (h : ℕ) (input : Text) (o : Option Regexp)
    → Inv host
    → find h host.patterns ≡ o
    → ((match_with host h input o).0 ≡ test o input)
      × (table_of (match_with host h input o).1 ≡ table_of host)
match_with-test host h input none v e = (refl, refl)
match_with-test host h input (some re) v e =
    let (a, c) = v.agrees h re e in
    ((remember_lem re input (memo_of (find h host.memos)) a c).0, refl)

match-test :
    (host : Host) (h : ℕ) (input : Text)
    → Inv host
    → ((match host h input).0 ≡ test (find h host.patterns) input)
      × (table_of (match host h input).1 ≡ table_of host)
unfolding match
match-test host h input v = match_with-test host h input _ v refl

-- Every call keeps the invariant, answers as the table does, and changes the live expressions as
-- the table does.
step-Simulates :
    (engine : Engine) (host : Host) (c : Call)
    → Inv host
    → Simulates (step engine host c) (table_step engine (table_of host) c)
step-Simulates engine host (compiles raw) v =
    let (a, t) = compile-add engine host raw in (compile-Inv engine host raw v, a, t)
step-Simulates engine host (matches h input) v =
    let (a, t) = match-test host h input v in (match-Inv host h input v, ap verdict a, t)
step-Simulates engine host (frees h) v = (free-Inv host h v, refl, unfold free in refl)

run-table_run-Inv :
    (engine : Engine) (cs : List Call) (host : Host)
    → Inv host
    → run engine host cs ≡ table_run engine (table_of host) cs
unfolding run table_run
run-table_run-Inv engine [] host v = refl
run-table_run-Inv engine (c ∷ cs) host v =
    let (w, a, t) = step-Simulates engine host c v in
    ap₂ ◌∷◌ a (run-table_run-Inv engine cs _ w ∙ ap (λ s. table_run engine s cs) t)

-- Over any sequence of calls a new host gives the answers of a host that keeps no memo and tests
-- every input anew, for every engine.
pub run-table_run :
    (engine : Engine) (cs : List Call)
    → run engine create_host_regex cs ≡ table_run engine (record { live = []; next = 1 }) cs
run-table_run engine cs = run-table_run-Inv engine cs create_host_regex create_host_regex-Inv
