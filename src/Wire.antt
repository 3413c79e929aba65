-- ===== src/Wire.antt =====
-- The binary packets that the host sends to the WASM module: packages/core/src/abi.ts
-- (`encodeHeaders`, `utf8`) and packages/core/src/transaction.ts (`encodeRequestBundle`), with the
-- Go code that reads them back, wasm/bundle.go and wasm/encoding.go. Byte arrays are lists of
-- numbers below 256.
pub mod Utf8
pub mod Truncate
pub mod Scalars
pub mod Chars
pub mod Headers
pub mod Scratch
pub mod Bundle
pub mod Views
pub mod Decode
pub mod RoundTrip
pub mod Packet
pub mod Tests
