-- ===== src/Abi/View.antt =====
-- The cached views of the linear memory: `Abi.bytes` of packages/core/src/abi.ts and `rxMemory` of
-- packages/core/src/wasm.ts, and the imports of wasm.ts that read through them. When the memory
-- grows, its buffer is replaced and every view of the old one is detached.
use coraza_node.Base.{
  ℕ, suc, ◌/◌, ◌%◌, ◌^◌, ◌≡◌, refl, ap₂, Bool, true, not, ◌||◌, List, [], ◌∷◌, Option, none, some,
  ◌==◌, take, drop, if◌then◌else◌, arith, Bool-cases, inl, inr,
}
use coraza_node.Base.Text.{Text}
use coraza_node.HostRegex.{Engine, Host, compile, match, free}

-- The buffer that the memory has now, by its identity, and its bytes.
pub record Memory : Type 0 where
  pub buffer : ℕ
  pub contents : List ℕ

-- The buffer that the view was made for, and the one that it looks into.
pub record Cache : Type 0 where
  pub buffer_ref : ℕ
  pub view : ℕ

-- A view of a buffer that was replaced has no bytes.
abbrev pub through : Memory → Cache → List ℕ
through memory cache = if cache.view == memory.buffer then memory.contents else []

abbrev pub fresh : Memory → Cache
fresh memory = record { buffer_ref = memory.buffer; view = memory.buffer }

-- `Abi.bytes`
unfoldable pub bytes : Memory → Cache → Cache
bytes memory cache = if not (memory.buffer == cache.buffer_ref) then fresh memory else cache

-- `rxMemory`, where the memory is bound: there is no view at first.
unfoldable pub rx_memory : Memory → Option Cache → Cache
rx_memory memory none = fresh memory
rx_memory memory (some cache) = bytes memory cache

-- What the module does to its memory, and the reads of the host.
pub data Event : Type 0 where
  stores grows : (contents : List ℕ) → Event
  reads : Event

abbrev pub changed : Memory → Event → Memory
changed memory (stores contents) = record memory { contents = contents }
changed memory (grows contents) = record { buffer = suc memory.buffer; contents = contents }
changed memory reads = memory

-- What each read sees, through the cache.
unfoldable pub seen : Memory → Option Cache → List Event → List (List ℕ)
seen memory cache [] = []
seen memory cache (reads ∷ es) =
    let c = rx_memory memory cache in through memory c ∷ seen memory (some c) es
seen memory cache (e ∷ es) = seen (changed memory e) cache es

-- What the memory holds at each read.
unfoldable pub held : Memory → List Event → List (List ℕ)
held memory [] = []
held memory (reads ∷ es) = memory.contents ∷ held memory es
held memory (e ∷ es) = held (changed memory e) es

-- A view looks into the buffer that it was made for.
abbrev IsPaired : Option Cache → Type 0
IsPaired none = Unit
IsPaired (some cache) = cache.view ≡ cache.buffer_ref

fresh-through : (memory : Memory) → through memory (fresh memory) ≡ memory.contents
fresh-through memory = rw (same memory.buffer) refl
  where
    same : (a : ℕ) → (a == a) ≡ true
    same a = ground arith

rx_memory-IsPaired :
    (memory : Memory) (cache : Option Cache)
    → IsPaired cache
    → (through memory (rx_memory memory cache) ≡ memory.contents)
      × ((rx_memory memory cache).view ≡ (rx_memory memory cache).buffer_ref)
unfolding rx_memory bytes
rx_memory-IsPaired memory none p = (fresh-through memory, refl)
rx_memory-IsPaired memory (some cache) p = elim (Bool-cases (memory.buffer == cache.buffer_ref)) [
  | inl same ↦ rw same ((rw (current cache.view cache.buffer_ref memory.buffer p same) refl), p)
  | inr other ↦ rw other (fresh-through memory, refl)
]
  where
    current : (v r b : ℕ) → v ≡ r → (b == r) ≡ true → (v == b) ≡ true
    current v r b p h = ground (arith, p, h)

seen-held-IsPaired :
    (es : List Event) (memory : Memory) (cache : Option Cache)
    → IsPaired cache
    → seen memory cache es ≡ held memory es
unfolding seen held
seen-held-IsPaired [] memory cache p = refl
seen-held-IsPaired (reads ∷ es) memory cache p =
    let r = rx_memory-IsPaired memory cache p in
    ap₂ ◌∷◌ r.0 (seen-held-IsPaired es memory (some (rx_memory memory cache)) r.1)
seen-held-IsPaired (stores c ∷ es) memory cache p =
    seen-held-IsPaired es (changed memory (stores c)) cache p
seen-held-IsPaired (grows c ∷ es) memory cache p =
    seen-held-IsPaired es (changed memory (grows c)) cache p

-- However the module stores and grows its memory between the host's reads, a read through the cached
-- view sees what the memory holds at that time, never a view of a buffer that was replaced.
pub seen-held : (es : List Event) (memory : Memory) → seen memory none es ≡ held memory es
seen-held es memory = seen-held-IsPaired es memory none tt

-- `Abi.read`, which copies, and `Abi.readString`, with the decoder.
unfoldable pub read : List ℕ → (ptr len : ℕ) → List ℕ
read memory ptr len = if len == 0 then [] else take len (drop ptr memory)

unfoldable pub read_decoded : (List ℕ → Text) → List ℕ → (ptr len : ℕ) → Text
read_decoded decode memory ptr len = if len == 0 then [] else decode (take len (drop ptr memory))

-- The major version that the constructor of `Abi` wants.
unfoldable pub accepts_version : (abi_major version : ℕ) → Bool
accepts_version abi_major version = version % 2 ^ 32 / 65536 % 65536 == abi_major

-- The imports for regular expressions: whether the wrapper or the memory is bound, and whether
-- CORAZA_HOST_RX is off.
unfoldable pub rx_compile : Engine → (bound disabled : Bool) → Host → Text → ℕ × Host
rx_compile engine bound disabled host pat =
    if not bound || disabled then (0, host) else compile engine host pat

abbrev pub verdict_of : Bool × Host → ℕ × Host
verdict_of (matched, host) = ((if matched then 1 else 0), host)

-- `decode` is `toString('utf8', start, end)` of the memory's buffer.
unfoldable pub rx_match :
    (decode : List ℕ → Text)
    → (bound disabled : Bool) → List ℕ
    → Host
    → (handle ptr len : ℕ) → ℕ × Host
rx_match decode bound disabled memory host handle ptr len =
    if not bound || disabled
    then (0, host)
    else (if len == 0
        then verdict_of (match host handle [])
        else verdict_of (match host handle (decode (take len (drop ptr memory)))))

unfoldable pub rx_free : Host → ℕ → Host
rx_free host handle = free host handle

-- The logger's method for a level, whether it is negative and its value.
pub data LogMethod : Type 0 where
  debug info warn error : LogMethod

unfoldable pub log_method : (negative : Bool) → (level : ℕ) → LogMethod
log_method negative level =
    if negative || level == 0
    then debug
    else (if level == 1 then info else (if level == 2 then warn else error))
