-- ===== src/HostRegex.antt =====
-- packages/core/src/hostRegex.ts: the host's regular expressions, with a memo of the last results
-- of each. The engine's `new RegExp` is an argument: it answers the expression's test, or `none`
-- where it throws. No `g` or `y` flag is ever passed, so a test keeps no position.
pub mod Translate
pub mod Flags
pub mod Memo
pub mod Refine
pub mod Tests
use coraza_node.Base.{
  ℕ, ◌+◌, Bool, true, false, List, [], ◌∷◌, Option, none, some, take, if◌then◌else◌,
}
use coraza_node.Base.Text.{Text, text_eq}
use coraza_node.Base.Map.{find, put, delete}
use Translate.{Translated, translate_pattern}

abbrev pub Regexp : Type 0
Regexp = Text → Bool

abbrev pub Engine : Type 0
Engine = (source flags : Text) → Option Regexp

-- The most recent entry first.
abbrev pub MatchMemo : Type 0
MatchMemo = List (Text × Bool)

abbrev pub match_memo_capacity : ℕ
match_memo_capacity = 8

pub record Host : Type 0 where
  pub patterns : List (ℕ × Regexp)
  pub memos : List (ℕ × MatchMemo)
  pub next_handle : ℕ
  pub rejected_count : ℕ

abbrev pub create_host_regex : Host
create_host_regex = record { patterns = []; memos = []; next_handle = 1; rejected_count = 0 }

unfoldable pub reject : Host → ℕ × Host
reject host = (0, record host { rejected_count = host.rejected_count + 1 })

-- `new RegExp` under the `try`.
unfoldable pub register : Host → Option Regexp → ℕ × Host
unfolding reject
register host none = reject host
register host (some re) = (
  host.next_handle,
  record host {
    patterns = put host.next_handle re host.patterns;
    next_handle = host.next_handle + 1;
  },
)

unfoldable pub compile : Engine → Host → Text → ℕ × Host
unfolding register
compile engine host raw =
    let t = translate_pattern raw in
    if t.ok then register host (engine t.source t.flags) else reject host

abbrev pub past :
    Text × Bool → Option ((Text × Bool) × MatchMemo) → Option ((Text × Bool) × MatchMemo)
past e none = none
past e (some (found, rest)) = some (found, e ∷ rest)

-- The entry for an input and the others in their order.
unfoldable pub hit : Text → MatchMemo → Option ((Text × Bool) × MatchMemo)
hit input [] = none
hit input ((i, matched) ∷ memo) =
    let later = past (i, matched) (hit input memo) in
    if text_eq i input then some ((i, matched), memo) else later

abbrev pub memo_of : Option MatchMemo → MatchMemo
memo_of none = []
memo_of (some memo) = memo

-- The verdict and the memo after a call: a hit moves to the front, a miss is tested and stored.
unfoldable pub remember : Regexp → Text → MatchMemo → Bool × MatchMemo
unfolding hit
remember re input memo = elim (hit input memo) [
  | some (e, rest) ↦ (e.1, e ∷ rest)
  | none ↦ (re input, take match_memo_capacity ((input, re input) ∷ memo))
]

abbrev pub match_with : Host → ℕ → Text → Option Regexp → Bool × Host
match_with host handle input none = (false, host)
match_with host handle input (some re) =
    let r = remember re input (memo_of (find handle host.memos)) in
    (r.0, record host { memos = put handle r.1 host.memos })

unfoldable pub match : Host → ℕ → Text → Bool × Host
unfolding remember
match host handle input = match_with host handle input (find handle host.patterns)

unfoldable pub free : Host → ℕ → Host
free host handle = record host {
  patterns = delete handle host.patterns;
  memos = delete handle host.memos;
}
