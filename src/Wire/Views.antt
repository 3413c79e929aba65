-- ===== src/Wire/Views.antt =====
-- The views into the scratch buffer that `encodeRequestBundle` of
-- packages/core/src/transaction.ts takes, at the time it lays the bundle out.
use coraza_node.Base.{
  ℕ, zero, suc, ◌+◌, ◌-◌, ◌*◌, ◌%◌, ◌≤◌, ◌<◌, ◌≡◌, refl, ap, ap₂, sym, ◌∙◌, List, [], ◌∷◌, length,
  leb, ltb, get_or, take, arith, Bool-cases, inl, inr, Option,
}
use native.Mathlib.Nat.{add-zero, le_refl, le_trans}
use coraza_node.Base.Text.{Text, codes}
use coraza_node.Wire.Utf8.{utf8}
use coraza_node.Wire.Truncate.{step_back, truncate_utf8}
use coraza_node.Wire.Headers.{encode_headers}
use coraza_node.Wire.Scratch.{
  Memory, View, fresh, range, write, slice, read, scratch_cap, write_scratch,
}
use coraza_node.Wire.Bundle.{
  RequestInfo, Body, default_to, body_bytes, truncate_view, layout, encode_request_bundle,
}

-- Two memories that agree on a range have the same slice there.
slice-agree :
    (m m' : Memory) (offset len : ℕ)
    → ((i : ℕ) → offset ≤ i → i < offset + len → m i ≡ m' i)
    → slice m offset len ≡ slice m' offset len
unfolding slice
slice-agree m m' offset zero h = refl
slice-agree m m' offset (suc len) h =
    ap₂ ◌∷◌ (h offset (omega arith) (omega arith))
      (slice-agree m m' (suc offset) len (λ i lo hi. h i (omega arith) (omega arith)))

slice-bytes :
    (m : Memory) (offset : ℕ) (bytes : List ℕ)
    → ((i : ℕ) → i < length bytes → m (offset + i) ≡ get_or bytes i 0)
    → slice m offset (length bytes) ≡ bytes
unfolding slice
slice-bytes m offset [] h = refl
slice-bytes m offset (b ∷ bytes) h =
    ap₂ ◌∷◌ (rw add-zero at (h 0 (omega arith)))
      (slice-bytes m (suc offset) bytes (λ i lt. ap m (omega arith) ∙ h (suc i) (omega arith)))

slice-write_self :
    (m : Memory) (offset : ℕ) (bytes : List ℕ)
    → slice (write m offset bytes) offset (length bytes) ≡ bytes
slice-write_self m offset bytes = slice-bytes (write m offset bytes) offset bytes inside
  where
    inside : (i : ℕ) → i < length bytes → write m offset bytes (offset + i) ≡ get_or bytes i 0
    inside i lt = let e : offset + i - offset ≡ i = omega arith in unfold write in ground (arith, e)

-- The view ends at or before an offset.
abbrev Ends : View → ℕ → Type 0
Ends (fresh bytes) k = Unit {0}
Ends (range offset len) k = offset + len ≤ k

read-write :
    (m : Memory) (v : View) (offset : ℕ) (bytes : List ℕ)
    → Ends v offset
    → read (write m offset bytes) v ≡ read m v
unfolding read
read-write m (fresh b) offset bytes h = refl
read-write m (range o len) offset bytes h =
    slice-agree (write m offset bytes) m o len (λ i lo hi. unfold write in ground arith)

-- What one call of `writeScratch` gives: the encoding, and the old views unharmed.
record Written (m : Memory) (s : Text) (offset : ℕ) (r : Memory × View × ℕ) : Type 0 where
  bytes : read r.0 r.1 ≡ utf8 s
  ends : Ends r.1 (offset + r.2)
  others : (v : View) → Ends v offset → read r.0 v ≡ read m v

write_scratch-Written :
    (m : Memory) (s : Text) (offset : ℕ) → Written m s offset (write_scratch m s offset)
unfolding write_scratch
write_scratch-Written m s offset = elim (Bool-cases (ltb scratch_cap (offset + length s * 4))) [
  | inl long ↦ rw long (record { bytes = unfold read in refl; ends = tt; others = λ v h. refl })
  | inr fits ↦ rw fits (record {
    bytes = unfold read in slice-write_self m offset (utf8 s);
    ends = le_refl (offset + length (utf8 s));
    others = λ v h. read-write m v offset (utf8 s) h;
  })
]

pub step_back-le : (n : ℕ) (b : List ℕ) → step_back n b ≤ n
unfolding step_back
step_back-le zero b = omega arith
step_back-le (suc n) b = ground (arith, step_back-le n b)

length-slice : (m : Memory) (offset len : ℕ) → length (slice m offset len) ≡ len
unfolding slice
length-slice m offset zero = refl
length-slice m offset (suc len) = ap suc (length-slice m (suc offset) len)

take-slice :
    (m : Memory) (offset n len : ℕ) → n ≤ len → take n (slice m offset len) ≡ slice m offset n
unfolding slice
take-slice m offset zero len h = refl
take-slice m offset (suc n) zero h = absurd (omega arith)
take-slice m offset (suc n) (suc len) h =
    ap (◌∷◌ (m offset)) (take-slice m (suc offset) n len (omega arith))

Ends-mono : (v : View) (j k : ℕ) → Ends v j → j ≤ k → Ends v k
Ends-mono (fresh b) j k h le = tt
Ends-mono (range o len) j k h le = omega arith

-- Truncating a view truncates what it reads.
read-truncate_view :
    (m : Memory) (v : View) (max : ℕ)
    → read m (truncate_view m v max) ≡ truncate_utf8 (read m v) max
unfolding read truncate_view truncate_utf8
read-truncate_view m (fresh b) max = refl
read-truncate_view m (range o len) max = elim (Bool-cases (leb len max)) [
  | inl fits ↦ rw (length-slice m o len, fits)
  | inr long ↦
      rw (length-slice m o len, long)
        (sym (
          take-slice m o _ len
            (le_trans (step_back-le max (slice m o len)) (ground (arith, long)))))
]

truncate_view-Ends : (m : Memory) (v : View) (max k : ℕ) → Ends v k → Ends (truncate_view m v max) k
unfolding truncate_view
truncate_view-Ends m (fresh b) max k h = tt
truncate_view-Ends m (range o len) max k h = ground (arith, step_back-le max (read m (range o len)))

-- The bundle is the layout of the truncated encodings of its own fields, whatever the scratch
-- buffer held before and although all four strings are encoded into it.
pub encode_request_bundle-layout :
    (m : Memory) (req : RequestInfo) (body : Body) (header_buf : Option ℕ)
    → encode_request_bundle m req body header_buf
      ≡ layout
          (truncate_utf8 (utf8 (default_to [] req.remote_addr)) 65535)
          (default_to 0 req.remote_port % 65536)
          (default_to 0 req.server_port % 65536)
          (truncate_utf8 (utf8 req.method) 255)
          (truncate_utf8 (utf8 (default_to (codes "HTTP/1.1") req.protocol)) 255)
          (utf8 req.url)
          (encode_headers req.headers header_buf).0
          (body_bytes body)
unfolding encode_request_bundle
encode_request_bundle-layout m₀ req body header_buf =
    let proto_text = default_to (codes "HTTP/1.1") req.protocol in
    let addr_text : Text = default_to [] req.remote_addr in
    let r₁ = write_scratch m₀ req.method 0 in
    let off₁ = 0 + r₁.2 in
    let r₂ = write_scratch r₁.0 proto_text off₁ in
    let off₂ = off₁ + r₂.2 in
    let r₃ = write_scratch r₂.0 addr_text off₂ in
    let off₃ = off₂ + r₃.2 in
    let r₄ = write_scratch r₃.0 req.url off₃ in
    let w₁ = write_scratch-Written m₀ req.method 0 in
    let w₂ = write_scratch-Written r₁.0 proto_text off₁ in
    let w₃ = write_scratch-Written r₂.0 addr_text off₂ in
    let w₄ = write_scratch-Written r₃.0 req.url off₃ in
    let method = truncate_view r₁.0 r₁.1 255 in
    let proto = truncate_view r₂.0 r₂.1 255 in
    let addr = truncate_view r₃.0 r₃.1 65535 in
    let ends₁ = truncate_view-Ends r₁.0 r₁.1 255 off₁ w₁.ends in
    let ends₂ = truncate_view-Ends r₂.0 r₂.1 255 off₂ w₂.ends in
    let ends₃ = truncate_view-Ends r₃.0 r₃.1 65535 off₃ w₃.ends in
    let end₁₂ = Ends-mono method off₁ off₂ ends₁ (omega arith) in
    let end₁₃ = Ends-mono method off₂ off₃ end₁₂ (omega arith) in
    let end₂₃ = Ends-mono proto off₂ off₃ ends₂ (omega arith) in
    let reads₁ : read r₄.0 method ≡ truncate_utf8 (utf8 req.method) 255 =
      w₄.others method end₁₃
      ∙ w₃.others method end₁₂
      ∙ w₂.others method ends₁
      ∙ read-truncate_view r₁.0 r₁.1 255
      ∙ ap (λ b. truncate_utf8 b 255) w₁.bytes in
    let reads₂ : read r₄.0 proto ≡ truncate_utf8 (utf8 proto_text) 255 =
      w₄.others proto end₂₃
      ∙ w₃.others proto ends₂
      ∙ read-truncate_view r₂.0 r₂.1 255
      ∙ ap (λ b. truncate_utf8 b 255) w₂.bytes in
    let reads₃ : read r₄.0 addr ≡ truncate_utf8 (utf8 addr_text) 65535 =
      w₄.others addr ends₃
      ∙ read-truncate_view r₃.0 r₃.1 65535
      ∙ ap (λ b. truncate_utf8 b 65535) w₃.bytes in
    λ i.
      layout (reads₃ i) (default_to 0 req.remote_port % 65536)
        (default_to 0 req.server_port % 65536) (reads₁ i) (reads₂ i) (w₄.bytes i)
        (encode_headers req.headers header_buf).0 (body_bytes body)
