-- ===== src/HostRegex/Translate.antt =====
-- `translatePattern` of packages/core/src/hostRegex.ts. The inline flag block is what
-- `/^\(\?([a-z]+)\)/` captures.
use coraza_node.Base.{
  ℕ, Bool, true, false, ◌&&◌, ◌||◌, [], ◌∷◌, ◌++◌, Option, none, some, ◌==◌, leb, if◌then◌else◌,
}
use coraza_node.Base.Text.{Text}

pub record Translated : Type 0 where
  pub source : Text
  pub flags : Text
  pub ok : Bool

unfoldable pub is_letter : ℕ → Bool
is_letter c = leb b'a' c && leb c b'z'

abbrev pub is_nil : Text → Bool
is_nil [] = true
is_nil (c ∷ s) = false

-- `[a-z]+\)` with at least one letter before: the letters and what follows the bracket.
unfoldable pub letters : Text → Text → Option (Text × Text)
letters read [] = none
letters read (c ∷ s) =
    let more = letters (read ++ c ∷ []) s in
    let closed = if is_nil read then none else some (read, s) in
    if is_letter c then more else if c == b')' then closed else none

unfoldable pub inline_flags : Text → Option (Text × Text)
inline_flags (a ∷ b ∷ s) = if a == b'(' && b == b'?' then letters [] s else none
inline_flags _ = none

unfoldable pub includes : Text → ℕ → Bool
includes [] f = false
includes (g ∷ flags) f = g == f || includes flags f

unfoldable pub is_supported : ℕ → Bool
is_supported f = f == b's' || f == b'm' || f == b'i' || f == b'u'

-- The loop over the flags; `none` is the early return.
unfoldable pub add_flags : Text → Text → Option Text
add_flags js_flags [] = some js_flags
add_flags js_flags (f ∷ fs) =
    let more = add_flags (if includes js_flags f then js_flags else js_flags ++ f ∷ []) fs in
    if is_supported f then more else none

abbrev pub with_flags : Text → Option Text → Translated
with_flags rest none = record { source = []; flags = []; ok = false }
with_flags rest (some flags) = record { source = rest; flags = flags; ok = true }

unfoldable pub translate_pattern : Text → Translated
translate_pattern raw = elim (inline_flags raw) [
  | none ↦ record { source = raw; flags = []; ok = true }
  | some (flags, rest) ↦ with_flags rest (add_flags [] flags)
]
