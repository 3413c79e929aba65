-- ===== src/Wasi.antt =====
-- `createMinimalWasi` of packages/core/src/wasi.ts: the system calls of the module. The linear
-- memory is the list of its bytes; an access outside it throws, which is none.
pub mod Memory
pub mod Written
mod Tests
use coraza_node.Base.{
  ℕ, zero, suc, ◌+◌, ◌*◌, ◌/◌, ◌%◌, ◌^◌, Bool, true, false, not, ◌&&◌, ◌||◌, List, [], ◌∷◌, ◌++◌,
  Option, none, some, length, take, drop, leb, ◌==◌, if◌then◌else◌,
}
use coraza_node.Base.Text.{Text, codes, text_eq}
use coraza_node.Base.Words.{u32}

abbrev pub errno_success : ℕ
errno_success = 0

abbrev pub errno_badf : ℕ
errno_badf = 8

abbrev pub stdout : ℕ
stdout = 1

abbrev pub stderr : ℕ
stderr = 2

-- The methods of the logger that the system calls use.
pub data LogLevel : Type 0 where
  debug warn : LogLevel

abbrev pub word_of : List ℕ → Option ℕ
word_of (a ∷ b ∷ c ∷ d ∷ rest) = some (a + 256 * b + 65536 * c + 16777216 * d)
word_of _ = none

-- `getUint32(p, true)`
unfoldable pub get_uint32 : List ℕ → ℕ → Option ℕ
get_uint32 memory p = word_of (drop p memory)

-- `setUint32(p, v, true)` and `setBigUint64(p, v, true)`.
unfoldable pub set_uint32 : List ℕ → (p v : ℕ) → Option (List ℕ)
set_uint32 memory p v =
    if leb (p + 4) (length memory)
    then some (take p memory ++ (u32 v ++ drop (p + 4) memory))
    else none

unfoldable pub set_uint64 : List ℕ → (p v : ℕ) → Option (List ℕ)
set_uint64 memory p v =
    if leb (p + 8) (length memory)
    then some (take p memory ++ (u32 v ++ (u32 (v / 2 ^ 32) ++ drop (p + 8) memory)))
    else none

abbrev pub joined : List ℕ → (ptr len : ℕ) → Option (List ℕ × ℕ) → Option (List ℕ × ℕ)
joined memory ptr len none = none
joined memory ptr len (some (bytes, total)) =
    some (take len (drop ptr memory) ++ bytes, len + total)

abbrev pub vector : List ℕ → Option ℕ → Option ℕ → Option (List ℕ × ℕ) → Option (List ℕ × ℕ)
vector memory (some ptr) (some len) rest = joined memory ptr len rest
vector memory _ _ rest = none

-- The loop over the vectors: the bytes, which `subarray` cuts at the end of the memory, and the sum
-- of the lengths that the vectors state.
unfoldable pub gather : (iovs_len : ℕ) → List ℕ → (iovs_ptr : ℕ) → Option (List ℕ × ℕ)
gather zero memory p = some ([], 0)
gather (suc n) memory p =
    vector memory (get_uint32 memory p) (get_uint32 memory (p + 4)) (gather n memory (p + 8))

-- `text.replace(/\n$/, '')`
unfoldable pub without_newline : Text → Text
without_newline [] = []
without_newline (c ∷ []) = if c == b'\n' then [] else c ∷ []
without_newline (c ∷ d ∷ s) = c ∷ without_newline (d ∷ s)

-- What the logger is given, and the result: the error number and the memory.
pub record Call : Type 0 where
  pub logged : List (LogLevel × Text)
  pub result : Option (ℕ × List ℕ)

abbrev pub answer : ℕ → Option (List ℕ) → Option (ℕ × List ℕ)
answer errno none = none
answer errno (some memory) = some (errno, memory)

abbrev pub lines : ℕ → Text → List (LogLevel × Text)
lines fd [] = []
lines fd (c ∷ s) = ((if fd == stderr then warn else debug), without_newline (c ∷ s)) ∷ []

-- `decode` is `Buffer.toString('utf8')`.
abbrev pub write_gathered :
    (List ℕ → Text) → List ℕ → (fd nwritten_ptr : ℕ) → Option (List ℕ × ℕ) → Call
write_gathered decode memory fd nwritten_ptr none = record { logged = []; result = none }
write_gathered decode memory fd nwritten_ptr (some (bytes, total)) = record {
  logged = lines fd (decode bytes);
  result = answer errno_success (set_uint32 memory nwritten_ptr total);
}

-- `fd_write`
unfoldable pub write_fd : (List ℕ → Text) → List ℕ → (fd iovs_ptr iovs_len nwritten_ptr : ℕ) → Call
write_fd decode memory fd iovs_ptr iovs_len nwritten_ptr =
    let written = write_gathered decode memory fd nwritten_ptr (gather iovs_len memory iovs_ptr) in
    if not (fd == stdout) && not (fd == stderr)
    then record { logged = []; result = some (errno_badf, memory) }
    else written

-- `clock_time_get`, at a number of milliseconds.
unfoldable pub clock_time_get : (now : ℕ) → List ℕ → (timestamp_ptr : ℕ) → Option (ℕ × List ℕ)
clock_time_get now memory timestamp_ptr =
    answer errno_success (set_uint64 memory timestamp_ptr (now * 1000000))

abbrev pub then_zero : Option (List ℕ) → ℕ → Option (List ℕ)
then_zero none p = none
then_zero (some memory) p = set_uint32 memory p 0

-- `args_sizes_get` and `environ_sizes_get`: there are none.
unfoldable pub sizes_get : List ℕ → (count_ptr size_ptr : ℕ) → Option (ℕ × List ℕ)
sizes_get memory count_ptr size_ptr =
    answer errno_success (then_zero (set_uint32 memory count_ptr 0) size_ptr)

-- `useNativeWasi`, at the variable CORAZA_WASI.
unfoldable pub use_native_wasi : Option Text → Bool
use_native_wasi none = true
use_native_wasi (some v) = not (text_eq v (codes "minimal"))
