-- ===== src/Wire/Tests.antt =====
-- Tests of the packets, and the theorems at concrete inputs.
use coraza_node.Base.{◌≡◌, refl, max, ◌%◌, [], ◌∷◌, none, some, arith, length}
use coraza_node.Base.Text.{codes}
use coraza_node.Base.Words.{u32}
use coraza_node.Wire.Utf8.{utf8, scalars}
use coraza_node.Wire.Truncate.{truncate_utf8}
use coraza_node.Wire.Chars.{KeepsChars, truncate_utf8-KeepsChars}
use coraza_node.Wire.Headers.{packet_size, encode_headers, encode_entries}
use coraza_node.Wire.Scratch.{Memory, write_scratch}
use coraza_node.Wire.Bundle.{RequestInfo, string, encode_request_bundle, layout, body_bytes}
use coraza_node.Wire.Decode.{parsed, decode_bundle, parse_header_packet}
use coraza_node.Wire.Packet.{encode_headers-grow, parse_header_packet-encode}
use coraza_node.Wire.Views.{encode_request_bundle-layout}
use coraza_node.Wire.RoundTrip.{decode_bundle-encode}

-- U+1F600 as its two units, then a lone surrogate.
utf8_units :
    utf8 (0xd83d ∷ 0xde00 ∷ 0xd800 ∷ b'a' ∷ [])
    ≡ 0xf0 ∷ 0x9f ∷ 0x98 ∷ 0x80 ∷ 0xef ∷ 0xbf ∷ 0xbd ∷ b'a' ∷ []
unfolding utf8
utf8_units = refl

-- The euro sign has three bytes and does not fit behind `ab` in four.
euro : truncate_utf8 (utf8 (b'a' ∷ b'b' ∷ 0x20ac ∷ [])) 4 ≡ codes "ab"
unfolding truncate_utf8 utf8
euro = refl

abbrev blank : Memory
blank i = 7

abbrev get : RequestInfo
get = record {
  method = codes "GET";
  url = codes "/a?b";
  protocol = none;
  headers = (codes "host", codes "x") ∷ [];
  remote_addr = some (codes "10.0.0.1");
  remote_port = some 70000;
  server_port = none;
}

truncate_utf8-KeepsChars_example :
    KeepsChars (scalars none (b'a' ∷ 0x20ac ∷ [])) 2 (truncate_utf8 (utf8 (b'a' ∷ 0x20ac ∷ [])) 2)
truncate_utf8-KeepsChars_example = truncate_utf8-KeepsChars (b'a' ∷ 0x20ac ∷ []) 2 (omega arith)

encode_headers-grow_example :
    let packet = (encode_headers get.headers (some 3)).0 in
    (packet_size 4 (encode_entries get.headers) ≡ length packet)
    × ((encode_headers get.headers (some 3)).1 ≡ some (max 3 (length packet)))
encode_headers-grow_example = encode_headers-grow get.headers 3

wire : Unit {0}
unfolding encode_headers utf8 write_scratch u32
wire = tt

parse_header_packet-encode_example :
    parse_header_packet (encode_headers get.headers none).0 ≡ parsed (encode_entries get.headers)
unfolding wire
parse_header_packet-encode_example = parse_header_packet-encode get.headers none (omega arith)

encode_request_bundle-layout_example :
    encode_request_bundle blank get (string (codes "x=1")) none
    ≡ layout
        (truncate_utf8 (utf8 (codes "10.0.0.1")) 65535)
        (70000 % 65536)
        (0 % 65536)
        (truncate_utf8 (utf8 (codes "GET")) 255)
        (truncate_utf8 (utf8 (codes "HTTP/1.1")) 255)
        (utf8 (codes "/a?b"))
        (encode_headers get.headers none).0
        (body_bytes (string (codes "x=1")))
encode_request_bundle-layout_example =
    encode_request_bundle-layout blank get (string (codes "x=1")) none

decode_bundle-encode_example :
    decode_bundle (encode_request_bundle blank get (string (codes "x=1")) none)
    ≡ some (record {
      addr = truncate_utf8 (utf8 (codes "10.0.0.1")) 65535;
      cport = 70000 % 65536;
      sport = 0 % 65536;
      method = truncate_utf8 (utf8 (codes "GET")) 255;
      proto = truncate_utf8 (utf8 (codes "HTTP/1.1")) 255;
      url = utf8 (codes "/a?b");
      hdr = (encode_headers get.headers none).0;
      body = body_bytes (string (codes "x=1"));
    })
unfolding wire body_bytes
decode_bundle-encode_example =
    decode_bundle-encode blank get (string (codes "x=1")) none (omega arith) (omega arith)
      (omega arith)
