-- ===== src/Ignore/Glob.antt =====
-- `compileRoute` of packages/core/src/ignore.ts. A glob is translated to the source of a regular
-- expression, which the engine parses and tests from the start of the path. `parse` and `matches`
-- are the engine's reading of the sources that the translation can produce: an anchor, atoms with
-- or without a star, and escaped characters. Strings are lists of UTF-16 code units.
use coraza_node.Base.{
  ℕ, Bool, true, false, not, ◌&&◌, ◌||◌, List, [], ◌∷◌, ◌++◌, ◌==◌, if◌then◌else◌,
}
use coraza_node.Base.Text.{Text, codes}

-- A glob string, or a RegExp with its `test`.
pub data Route : Type 0 where
  glob : Text → Route
  regexp : (Text → Bool) → Route

contains : Text → ℕ → Bool
contains [] c = false
contains (d ∷ s) c = d == c || contains s c

unfoldable pub is_meta : ℕ → Bool
unfolding contains
is_meta c = contains (codes "\\^$.|?*+()[]{}") c

-- One round of the loop in `compileRoute`.
unfoldable pub escape : ℕ → Text
unfolding is_meta
escape ch =
    if ch == b'*'
    then b'.' ∷ b'*' ∷ []
    else if ch == b'?'
    then b'.' ∷ []
    else if is_meta ch
    then b'\\' ∷ ch ∷ []
    else ch ∷ []

unfoldable pub escape_all : Text → Text
escape_all [] = []
escape_all (ch ∷ spec) = escape ch ++ escape_all spec

-- The source text that is given to `new RegExp`.
unfoldable pub route_source : Text → Text
route_source spec = b'^' ∷ escape_all spec

-- The engine: an atom of a pattern that is anchored at its start.
pub data Atom : Type 0 where
  any_run any_one : Atom
  char : ℕ → Atom

-- `.` matches all but the four line terminators.
unfoldable pub is_line_terminator : ℕ → Bool
is_line_terminator c = c == 10 || c == 13 || c == 8232 || c == 8233

-- What the parser has read and not yet turned into an atom.
pub data Pending : Type 0 where
  nothing backslash dot : Pending

unfoldable pub parse : Pending → Text → List Atom
parse nothing [] = []
parse backslash [] = []
parse dot [] = any_one ∷ []
parse backslash (c ∷ s) = char c ∷ parse nothing s
parse nothing (c ∷ s) =
    let escaped = parse backslash s in
    let dotted = parse dot s in
    let plain = char c ∷ parse nothing s in
    if c == b'\\' then escaped else if c == b'.' then dotted else plain
parse dot (c ∷ s) =
    let run = any_run ∷ parse nothing s in
    let escaped = any_one ∷ parse backslash s in
    let dotted = any_one ∷ parse dot s in
    let plain = any_one ∷ char c ∷ parse nothing s in
    if c == b'*' then run else if c == b'\\' then escaped else if c == b'.' then dotted else plain

unfoldable pub matches : List Atom → Text → Bool
unfolding is_line_terminator
matches [] path = true
matches (char c ∷ atoms) [] = false
matches (any_one ∷ atoms) [] = false
matches (any_run ∷ atoms) [] = matches atoms []
matches (char c ∷ atoms) (d ∷ path) = c == d && matches atoms path
matches (any_one ∷ atoms) (d ∷ path) = not (is_line_terminator d) && matches atoms path
matches (any_run ∷ atoms) (d ∷ path) =
    matches atoms (d ∷ path) || (not (is_line_terminator d) && matches (any_run ∷ atoms) path)

-- `re.test(path)` for a source that begins with the anchor.
unfoldable pub test_source : Text → Text → Bool
unfolding parse matches
test_source [] path = true
test_source (anchor ∷ source) path = matches (parse nothing source) path

unfoldable pub compile_route : Route → Text → Bool
unfolding route_source escape_all escape test_source
compile_route (regexp test) path = test path
compile_route (glob spec) path = test_source (route_source spec) path
