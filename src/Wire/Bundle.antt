-- ===== src/Wire/Bundle.antt =====
-- `encodeRequestBundle` of packages/core/src/transaction.ts.
use coraza_node.Base.{
  ℕ, ◌+◌, ◌%◌, List, [], ◌∷◌, ◌++◌, Option, none, some, length, leb, if◌then◌else◌,
}
use coraza_node.Base.Text.{Text, codes}
use coraza_node.Base.Words.{u16, u32}
use coraza_node.Wire.Utf8.{utf8}
use coraza_node.Wire.Truncate.{step_back, truncate_utf8}
use coraza_node.Wire.Headers.{encode_headers}
use coraza_node.Wire.Scratch.{Memory, View, fresh, range, read, write_scratch}

pub record RequestInfo : Type 0 where
  pub method : Text
  pub url : Text
  pub protocol : Option Text
  pub headers : List (Text × Text)
  pub remote_addr : Option Text
  pub remote_port : Option ℕ
  pub server_port : Option ℕ

-- `Uint8Array | string | undefined`
pub data Body : Type 0 where
  absent : Body
  raw : List ℕ → Body
  string : Text → Body

abbrev pub default_to {ℓ} : {A : Type ℓ} → A → Option A → A
default_to d none = d
default_to d (some a) = a

unfoldable pub body_bytes : Body → List ℕ
body_bytes absent = []
body_bytes (raw bytes) = bytes
body_bytes (string s) = utf8 s

-- `truncateUtf8` on a view: `subarray` keeps the range's start.
unfoldable pub truncate_view : Memory → View → ℕ → View
truncate_view m (fresh bytes) max = fresh (truncate_utf8 bytes max)
truncate_view m (range offset len) max =
    if leb len max
    then range offset len
    else range offset (step_back max (read m (range offset len)))

-- The layout of the output buffer, in the order of its writes.
unfoldable pub layout :
    (addr : List ℕ) (cport sport : ℕ) (method proto url headers body : List ℕ) → List ℕ
layout addr cport sport method proto url headers body =
    u16 (length addr)
    ++ (addr
        ++ (u16 cport
            ++ (u16 sport
                ++ (length method % 256
                    ∷ (method
                        ++ (length proto % 256
                            ∷ (proto
                                ++ (u32 (length url)
                                    ++ (url
                                        ++ (u32 (length headers)
                                            ++ (headers ++ (u32 (length body) ++ body))))))))))))

-- The scratch buffer at the start is arbitrary: it is never cleared.
unfoldable pub encode_request_bundle : Memory → RequestInfo → Body → Option ℕ → List ℕ
encode_request_bundle m₀ req body header_buf =
    let (m₁, method_enc, method_len) = write_scratch m₀ req.method 0 in
    let method = truncate_view m₁ method_enc 255 in
    let off₁ = 0 + method_len in
    let (m₂, proto_enc, proto_len) =
      write_scratch m₁ (default_to (codes "HTTP/1.1") req.protocol) off₁ in
    let proto = truncate_view m₂ proto_enc 255 in
    let off₂ = off₁ + proto_len in
    let (m₃, addr_enc, addr_len) = write_scratch m₂ (default_to [] req.remote_addr) off₂ in
    let addr = truncate_view m₃ addr_enc 65535 in
    let off₃ = off₂ + addr_len in
    let (m₄, url, url_len) = write_scratch m₃ req.url off₃ in
    let cport = default_to 0 req.remote_port % 65536 in
    let sport = default_to 0 req.server_port % 65536 in
    let hdr_pkt = (encode_headers req.headers header_buf).0 in
    layout (read m₄ addr) cport sport (read m₄ method) (read m₄ proto) (read m₄ url) hdr_pkt
      (body_bytes body)
