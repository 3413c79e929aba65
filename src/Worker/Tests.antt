-- ===== src/Worker/Tests.antt =====
-- The worker's theorem after a `close`, at a module that answers one.
use coraza_node.Base.{ℕ, suc, ◌≡◌, refl, false, [], ◌∷◌, none, some, length, arith}
use coraza_node.Base.Text.{Text}
use coraza_node.Base.Text.{codes}
use coraza_node.Base.Map as Map
use coraza_node.Abi.{rc, Module}
use coraza_node.Pool.{
  Msg, new_tx, logging, proc, pred, get, rule_engine_off, matched_rules, fulfilled, nothing,
  rejected,
}
use coraza_node.Worker.{Waf, State, Context, detect, unknown_tx, Handled, on_message, from_abi}
use coraza_node.Worker.WafLife.{from_abi-Balanced}
use coraza_node.Transaction.Memory.{Balanced}
use coraza_node.Worker.Handles.{Gone, handle_all, handle_all-unknown}

abbrev ones : Module
ones = record {
  mallocs = λ t size. some (suc (length t));
  calls = λ t e. rc 1;
  errors = λ t. [];
  string_at = λ t ptr len. [];
  string_below = λ t. [];
}

abbrev context : Context (Unit {0})
context = record {
  rules = [];
  mode = detect;
  scratch = λ i. 0;
  header_buf = none;
  parse = λ s. none;
  engine = λ e. [];
}

abbrev no_digits : ℕ → Text
no_digits n = []

-- A worker that has given out one id and closed it.
abbrev served : State
served = record { waf = some (record { id = 1; is_destroyed = false }); txs = []; next_tx_id = 1 }

served-Gone : Gone served 1
unfolding Map.find
served-Gone = record { given_out = omega arith; absent = refl }

handle_all-unknown_example :
    let r = handle_all ones context no_digits (new_tx ∷ Msg.close 2 ∷ []) served [] in
    let refused : Handled (Unit {0}) = (rejected (unknown_tx no_digits 1), r.0, r.1) in
    (on_message ones context no_digits (proc 1 logging) r.0 r.1 ≡ refused)
    × (on_message ones context no_digits (pred 1 rule_engine_off) r.0 r.1 ≡ refused)
    × (on_message ones context no_digits (get 1 matched_rules) r.0 r.1 ≡ refused)
    × (on_message ones context no_digits (Msg.reset 1) r.0 r.1 ≡ refused)
    × (on_message ones context no_digits (Msg.close 1) r.0 r.1 ≡ (fulfilled nothing, r.0, r.1))
handle_all-unknown_example =
    handle_all-unknown ones context no_digits (new_tx ∷ Msg.close 2 ∷ []) served [] 1 logging
      rule_engine_off matched_rules served-Gone

abbrev live_waf : Waf
live_waf = record { id = 1; is_destroyed = false }

from_abi-Balanced_example : Balanced (from_abi ones (codes "SecRuleEngine Off") detect)
from_abi-Balanced_example = from_abi-Balanced ones (codes "SecRuleEngine Off") detect
