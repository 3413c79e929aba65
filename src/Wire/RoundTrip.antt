-- ===== src/Wire/RoundTrip.antt =====
-- The bundle as the module reads it, wasm/bundle.go against packages/core/src/transaction.ts.
use coraza_node.Base.{
  ℕ, ◌%◌, ◌^◌, ◌≤◌, ◌<◌, ◌≡◌, sym, [], ◌∷◌, ◌++◌, Option, some, length, ltb, arith, length-append,
  length-take, take_append, drop_append, Bool-cases, inl, inr, ◌∙◌, ap, append-nil,
}
use coraza_node.Base.Text.{codes}
use coraza_node.Base.Words.{u16, u32}
use coraza_node.Wire.Utf8.{utf8}
use coraza_node.Wire.Truncate.{step_back, truncate_utf8}
use coraza_node.Wire.Headers.{encode_headers}
use coraza_node.Wire.Scratch.{Memory}
use coraza_node.Wire.Bundle.{
  RequestInfo, Body, default_to, body_bytes, layout, encode_request_bundle,
}
use coraza_node.Wire.Decode.{Bytes, read_u8, read_u16, read_u32, read_blob, decode_bundle}
use coraza_node.Wire.Views.{step_back-le, encode_request_bundle-layout}

read_u16-u16 : (v : ℕ) (rest : Bytes) → v < 65536 → read_u16 (u16 v ++ rest) ≡ some (v, rest)
unfolding read_u16 u16
read_u16-u16 v rest h = ap (λ n. some (n, rest)) (omega arith)

pub read_u32-u32 : (v : ℕ) (rest : Bytes) → v < 2 ^ 32 → read_u32 (u32 v ++ rest) ≡ some (v, rest)
unfolding read_u32 u32
read_u32-u32 v rest h = ap (λ n. some (n, rest)) (omega arith)

read_u8-byte : (v : ℕ) (rest : Bytes) → v < 256 → read_u8 (v % 256 ∷ rest) ≡ some (v, rest)
unfolding read_u8
read_u8-byte v rest h = ap (λ n. some (n, rest)) (omega arith)

read_blob-append :
    (bytes rest : Bytes) → read_blob (length bytes) (bytes ++ rest) ≡ some (bytes, rest)
unfolding read_blob
read_blob-append bytes rest = elim (Bool-cases (ltb (length (bytes ++ rest)) (length bytes))) [
  | inl e ↦ absurd (ground (arith, e, length-append bytes rest))
  | inr e ↦ rw (e, take_append, drop_append)
]

read_blob-all : (bytes : Bytes) → read_blob (length bytes) bytes ≡ some (bytes, [])
read_blob-all bytes =
    ap (read_blob (length bytes)) (sym (append-nil bytes)) ∙ read_blob-append bytes []

-- Fields that fit their length prefixes come back unchanged.
decode_bundle-layout :
    (addr : Bytes) (cport sport : ℕ) (method proto url hdr body : Bytes)
    → length addr < 65536
    → cport < 65536
    → sport < 65536
    → length method < 256
    → length proto < 256
    → length url < 2 ^ 32
    → length hdr < 2 ^ 32
    → length body < 2 ^ 32
    → decode_bundle (layout addr cport sport method proto url hdr body)
      ≡ some (record {
        addr = addr;
        cport = cport;
        sport = sport;
        method = method;
        proto = proto;
        url = url;
        hdr = hdr;
        body = body;
      })
unfolding decode_bundle layout
decode_bundle-layout addr cport sport method proto url hdr body ha hc hs hm hp hu hh hb = rw (
  read_u16-u16 (length addr) _ ha,
  read_blob-append addr,
  read_u16-u16 cport _ hc,
  read_u16-u16 sport _ hs,
  read_u8-byte (length method) _ hm,
  read_blob-append method,
  read_u8-byte (length proto) _ hp,
  read_blob-append proto,
  read_u32-u32 (length url) _ hu,
  read_blob-append url,
  read_u32-u32 (length hdr) _ hh,
  read_blob-append hdr,
  read_u32-u32 (length body) _ hb,
  read_blob-all body,
)

length-truncate_utf8 : (bytes : Bytes) (max : ℕ) → length (truncate_utf8 bytes max) ≤ max
unfolding truncate_utf8
length-truncate_utf8 bytes max =
    ground (arith, length-take (step_back max bytes) bytes, step_back-le max bytes)

-- Whatever the scratch buffer held, the module decodes the bundle of a request into its fields:
-- address, method and protocol truncated to their limits, ports modulo 2^16, and the URL, the
-- header packet and the body whole, if each of these is shorter than 2^31 bytes.
pub decode_bundle-encode :
    (m : Memory) (req : RequestInfo) (body : Body) (header_buf : Option ℕ)
    → length (utf8 req.url) < 2 ^ 31
    → length (encode_headers req.headers header_buf).0 < 2 ^ 31
    → length (body_bytes body) < 2 ^ 31
    → decode_bundle (encode_request_bundle m req body header_buf)
      ≡ some (record {
        addr = truncate_utf8 (utf8 (default_to [] req.remote_addr)) 65535;
        cport = default_to 0 req.remote_port % 65536;
        sport = default_to 0 req.server_port % 65536;
        method = truncate_utf8 (utf8 req.method) 255;
        proto = truncate_utf8 (utf8 (default_to (codes "HTTP/1.1") req.protocol)) 255;
        url = utf8 req.url;
        hdr = (encode_headers req.headers header_buf).0;
        body = body_bytes body;
      })
decode_bundle-encode m req body header_buf hu hh hb =
    ap decode_bundle (encode_request_bundle-layout m req body header_buf)
    ∙ decode_bundle-layout _ _ _ _ _ _ _ _ (omega (arith, length-truncate_utf8)) (omega arith)
        (omega arith) (omega (arith, length-truncate_utf8)) (omega (arith, length-truncate_utf8))
        (omega (arith, hu)) (omega (arith, hh)) (omega (arith, hb))
