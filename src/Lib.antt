-- ===== src/Lib.antt =====
-- A model of coraza-node: the Coraza web application firewall, compiled to WebAssembly, behind
-- Node.js packages for Express, Next.js, Fastify and NestJS.
--
-- The parts, in the order of a request. An adapter (packages/express, packages/next,
-- packages/fastify, packages/nestjs) asks the bypass rules of packages/core/src/ignore.ts for a
-- verdict; a request that is not skipped gets a transaction of a WAF (packages/core/src/waf.ts,
-- transaction.ts), either in the process or in a worker thread that packages/core/src/pool.ts picks
-- and pool-worker.ts serves, and that the pool replaces after a number of requests. A transaction
-- encodes the request into one packet, which the module (wasm/bundle.go, wasm/encoding.go) decodes;
-- the engine inside calls back into packages/core/src/hostRegex.ts for regular expressions. The
-- module's bytes are given enough memory by packages/core/src/wasmPatch.ts before they are compiled.
-- The rules come from packages/coreruleset/src/index.ts.
--
-- Files:
--
-- Base and its children: lists, strings as lists of UTF-16 code units, byte order, maps.
-- Ignore: ignore.ts. Verdict (`mostRestrictive`), Glob (`compileRoute` and the engine's reading of
--   its output), Extension (`extensionMatches`), Header (`headerGet`), Matcher (`compileRules`,
--   `buildIgnoreMatcher`); Order, Globs, Suffixes and Rules hold the proofs.
-- Skip: skip.ts (`skipToIgnore`, `buildSkipPredicate`, `pathOf`).
-- Wire: `utf8`, `encodeHeaders`, `truncateUtf8`, `writeScratch`, `encodeRequestBundle`, and the Go
--   readers (Decode, Packet).
-- HostRegex: hostRegex.ts (`compile`, `match`, `free`, `translatePattern`) with its memo.
-- WasmResolve: wasmResolve.ts, over the platform's resolver.
-- WasmPatch: wasmPatch.ts and `ensureInitialPages` of wasm.ts. Uleb has the numbers, Sections the
--   walk, Layout and Grow the format as a list of sections.
-- Abi: the calls into the module. A method is a function of the trace of all calls so far, which
--   yields a result and the longer trace; Abi.Frees reads off the buffers not yet freed. Abi.View
--   has the cached views of the memory (`Abi.bytes`; `rxMemory` of wasm.ts) and the imports that
--   read through them (`rx_compile`, `rx_match`, `rx_free`).
-- Wasi: the system calls of packages/core/src/wasi.ts that touch the memory (`fd_write`,
--   `clock_time_get`, `args_sizes_get`, `environ_sizes_get`).
-- Transaction: transaction.ts, one definition for each method; Lifecycle has sequences of calls.
-- Pool: the slots of pool.ts (`callSlot`, the three listeners, `#pickSlot`, `newTransaction` and
--   `close` around their awaits, the options); Pool.Books follows the count of open handles.
--   Pool.Rotation is the pool as a whole (`#scheduleRotation`, `waitForDrain`, `destroy`): its state
--   holds every slot that has stood in `#slots`, and Moves is the relation of its steps, one for
--   each turn of the event loop. Nothing comes from a worker after its thread has exited.
--   Pool.Create is `create` with its timeout (`withTimeout`) and the pre-warm behind it.
-- Worker: pool-worker.ts, the handler of one message, with `fromAbi`, `newTransaction` and
--   `destroy` of waf.ts.
-- Adapter: what the adapters share, with Options (`resolveIgnoreMatcher`) and Request
--   (`buildIgnoreCtx`, `defaultBlock`); Express (`corazaMiddleware`, `emitBlock`, the conversions;
--   Hook is `hookResponse`), Next (`createCorazaRunner`, `coraza`), Fastify (the preHandler hook;
--   Hooks has onSend and onResponse) and Nest (`canActivate`). Each awaited call is given by its
--   outcome, a value or an exception.
-- Crs: the configuration builder (`recommended` and its profiles).
-- A module Tests beside the proofs holds tests and instances of the theorems.
--
-- Parameters, for the platform and for code that is not in the repository: the engine's letter
-- case mappings, its RegExp constructor and `test`, URL parsing, `Number`, `trim`, `JSON.parse`,
-- `JSON.stringify`; the WASM module, whose answers and allocations are arbitrary functions of the
-- trace. `host_free`, `postMessage` and Express's `next` are taken not to throw, and a write to an
-- allocated buffer to lie in the memory.
--
-- Numbers are natural numbers; the encoders reduce them to 8, 16 or 32 bits where the source does.
-- Recursion is structural but for three loops on fuel. `readULEB` throws once its shift exceeds 35,
-- so it has at most six turns; `writeULEB` has one for each seven bits of a 32-bit word, so five;
-- the walks over the sections of a module advance on every turn, so the module's length is enough.
-- The scratch memory has the source's 65536 bytes, and a regular expression's memo its 8 entries.
--
-- Not modelled: instantiation and the system calls with a constant answer (input and output); the
-- providers of the NestJS module; examples, benchmarks and end-to-end tests; log texts; the Go code
-- but for its two packet readers, where `readBytes` also refuses more than 256 MiB
-- (wasm/host_wasm.go); the Coraza engine, which is third-party code.
pub mod Abi
pub mod Adapter
pub mod Base
pub mod Crs
pub mod HostRegex
pub mod Ignore
pub mod Pool
pub mod Skip
pub mod Transaction
pub mod Wasi
pub mod WasmPatch
pub mod WasmResolve
pub mod Wire
pub mod Worker
