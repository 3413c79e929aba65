-- ===== src/HostRegex/Memo.antt =====
-- The memos and the patterns of packages/core/src/hostRegex.ts, in every host that is reached.
use coraza_node.Base.{
  ℕ, zero, suc, sym, ◌∙◌, some_eq, ℕ_discrete, ◌⊎◌, ◌≤◌, ◌<◌, ◌≡◌, refl, ap, Bool, [], ◌∷◌, Option,
  none, some, take, length, length-take, arith, Option-cases, Bool-cases, inl, inr, All,
}
use coraza_node.Base.Text.{Text, text_eq, text_eq_iff}
use coraza_node.Base.Map.{find, put, delete, find-put, find-delete}
use coraza_node.HostRegex.{
  Regexp, Engine, MatchMemo, Host, create_host_regex, match_memo_capacity, reject, register,
  compile, hit, memo_of, remember, match_with, match, free,
}
use coraza_node.HostRegex.Translate.{translate_pattern}

-- Every entry is the expression's own answer.
abbrev pub Agrees : Regexp → MatchMemo → Type 0
Agrees re = All (λ e. re e.0 ≡ e.1)

hit-cases :
    (input : Text) (x : Text × Bool) (memo : MatchMemo) (e : Text × Bool) (rest : MatchMemo)
    → hit input (x ∷ memo) ≡ some (e, rest)
    → ((x.0 ≡ input) × (e ≡ x) × (rest ≡ memo))
      ⊎ ((tail : MatchMemo) × (hit input memo ≡ some (e, tail)) × (rest ≡ x ∷ tail))
unfolding hit
hit-cases input (i, m) memo e rest h = elim (Bool-cases (text_eq i input)) [
  | inl same ↦
      let h' : ◌≡◌ {A = Option ((Text × Bool) × MatchMemo)} (some ((i, m), memo)) (some (e, rest)) =
        rw same at h in
      inl ((text_eq_iff i input).0 same, cc, cc)
  | inr other ↦ elim (Option-cases (hit input memo)) [
    | inl n ↦ absurd (ground (arith, other, n))
    | inr ((f, tail), found) ↦
        let h' : ◌≡◌ {A = Option ((Text × Bool) × MatchMemo)} (some (f, (i, m) ∷ tail))
            (some (e, rest)) =
          rw (other, found) at h in
        inr (tail, rw found (cc), cc)
  ]
]

hit-Agrees :
    (re : Regexp) (input : Text) (memo : MatchMemo) (e : Text × Bool) (rest : MatchMemo)
    → Agrees re memo
    → hit input memo ≡ some (e, rest)
    → (re input ≡ e.1) × Agrees re (e ∷ rest) × (length memo ≡ suc (length rest))
hit-Agrees re input [] e rest a h = unfold hit in cc
hit-Agrees re input (x ∷ memo) e rest (p, a) h = elim (hit-cases input x memo e rest h) [
  | inl (k, f, g) ↦ rw (f, g) (rw k at p, (p, a), refl)
  | inr (tail, found, g) ↦
      let (q, (r, b), l) = hit-Agrees re input memo e tail a found in
      rw g (q, (r, (p, b)), ap suc l)
]

take-Agrees : (re : Regexp) (n : ℕ) (memo : MatchMemo) → Agrees re memo → Agrees re (take n memo)
take-Agrees re zero memo a = tt
take-Agrees re (suc n) [] a = tt
take-Agrees re (suc n) (e ∷ memo) (p, a) = (p, take-Agrees re n memo a)

abbrev pub IsSmall : MatchMemo → Type 0
IsSmall memo = length memo ≤ match_memo_capacity

-- The answer is the expression's, and the memo stays right and within its capacity.
pub remember_lem :
    (re : Regexp) (input : Text) (memo : MatchMemo)
    → Agrees re memo
    → IsSmall memo
    → ((remember re input memo).0 ≡ re input)
      × Agrees re (remember re input memo).1
      × IsSmall (remember re input memo).1
unfolding remember
remember_lem re input memo a c = elim (Option-cases (hit input memo)) [
  | inl miss ↦
      rw (miss, remember)
        (
          refl,
          take-Agrees re match_memo_capacity ((input, re input) ∷ memo) (refl, a),
          omega (arith, length-take match_memo_capacity ((input, re input) ∷ memo)),
        )
  | inr ((e, rest), found) ↦
      let (q, b, l) = hit-Agrees re input memo e rest a found in
      rw (found, remember) (sym q, b, omega (arith, c, l))
]

-- What every reachable host satisfies: handles from the counter on are unused, a handle without a
-- pattern has no memo, and each memo agrees with its pattern.
pub record Inv (host : Host) : Type 0 where
  pub positive : 0 < host.next_handle
  pub unused : (h : ℕ) → host.next_handle ≤ h → find h host.patterns ≡ none
  pub orphan : (h : ℕ) → find h host.patterns ≡ none → find h host.memos ≡ none
  pub agrees :
      (h : ℕ) (re : Regexp)
      → find h host.patterns ≡ some re
      → Agrees re (memo_of (find h host.memos)) × IsSmall (memo_of (find h host.memos))

pub create_host_regex-Inv : Inv create_host_regex
create_host_regex-Inv = record {
  positive = omega arith;
  unused = λ h le. unfold find in refl;
  orphan = λ h e. unfold find in refl;
  agrees = λ h re e. unfold find in cc;
}

reject-Inv : (host : Host) → Inv host → Inv (reject host).1
unfolding reject
reject-Inv host v = record {
  positive = v.positive;
  unused = v.unused;
  orphan = v.orphan;
  agrees = v.agrees;
}

register-Inv : (host : Host) (o : Option Regexp) → Inv host → Inv (register host o).1
unfolding register
register-Inv host none v = reject-Inv host v
register-Inv host (some re) v = record {
  positive = omega arith;
  unused = λ h le.
      ground (arith, find-put host.next_handle h re host.patterns, v.unused h (omega (arith, le)));
  orphan = λ h e. ground (arith, find-put host.next_handle h re host.patterns, v.orphan h);
  agrees = λ h r e. elim (ℕ_discrete host.next_handle h) [
    | yes p ↦
        let empty : find h host.memos ≡ none = v.orphan h (v.unused h (omega (arith, p))) in
        rw empty (tt, omega arith)
    | no n ↦ v.agrees h r (ground (arith, e, n, find-put host.next_handle h re host.patterns))
  ];
}

pub compile-Inv :
    (engine : Engine) (host : Host) (raw : Text) → Inv host → Inv (compile engine host raw).1
unfolding compile
compile-Inv engine host raw v = elim (Bool-cases (translate_pattern raw).ok) [
  | inl e ↦ rw e (register-Inv host _ v)
  | inr e ↦ rw e (reject-Inv host v)
]

match_with-Inv :
    (host : Host) (handle : ℕ) (input : Text) (o : Option Regexp)
    → find handle host.patterns ≡ o
    → Inv host
    → Inv (match_with host handle input o).1
match_with-Inv host handle input none e v = v
match_with-Inv host handle input (some re) e v =
    let (a, c) = v.agrees handle re e in
    let (_, b, d) = remember_lem re input (memo_of (find handle host.memos)) a c in
    let memo = (remember re input (memo_of (find handle host.memos))).1 in
    record {
      positive = v.positive;
      unused = v.unused;
      orphan = λ h n. elim (ℕ_discrete handle h) [
        | yes p ↦ absurd (ground (arith, ap (λ k. find k host.patterns) p, e, n))
        | no q ↦ ground (arith, q, find-put handle h memo host.memos, v.orphan h)
      ];
      agrees = λ h r f. elim (ℕ_discrete handle h) [
        | yes p ↦
            let same : find h (put handle memo host.memos) ≡ some memo =
              ground (arith, p, find-put handle h memo host.memos) in
            let f' : find handle host.patterns ≡ some r = rw p f in
            let re_same : re ≡ r = some_eq (sym e ∙ f') in rw same (rw (← re_same) (b, d))
        | no q ↦
            let other : find h (put handle memo host.memos) ≡ find h host.memos =
              ground (arith, q, find-put handle h memo host.memos) in
            rw other (v.agrees h r f)
      ];
    }

pub match-Inv :
    (host : Host) (handle : ℕ) (input : Text) → Inv host → Inv (match host handle input).1
unfolding match
match-Inv host handle input v = match_with-Inv host handle input _ refl v

pub free-Inv : (host : Host) (handle : ℕ) → Inv host → Inv (free host handle)
unfolding free
free-Inv host handle v = record {
  positive = v.positive;
  unused = λ h le. ground (arith, find-delete handle h host.patterns, v.unused h le);
  orphan = λ h e.
      ground
        (arith, find-delete handle h host.patterns, find-delete handle h host.memos, v.orphan h);
  agrees = λ h re e. elim (ℕ_discrete handle h) [
    | yes p ↦ absurd (ground (arith, p, e, find-delete handle h host.patterns))
    | no q ↦
        let same : find h (delete handle host.memos) ≡ find h host.memos =
          ground (arith, q, find-delete handle h host.memos) in
        rw same (v.agrees h re (ground (arith, q, e, find-delete handle h host.patterns)))
  ];
}
