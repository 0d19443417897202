-- ===== src/Lib.antt =====
-- Verification of nim-ffi: the C bindings, and the core of the Nim runtime.
--
-- nim-ffi turns a Nim library into a C library: requests and replies travel as CBOR, and every
-- call gives its reply through a callback. The generator writes a C binding for each library; the
-- runtime (ffi/) queues the requests of the host's threads for the library's own thread and keeps the
-- library's contexts in a pool. This development models both sides:
--
--   examples/timer/c_bindings/nim_ffi_prelude.h, nim_ffi_cbor.h
--       Cbor.antt and Cbor/: the codecs of the leaf types (Enc, Dec), what the structs' codecs share
--       (Struct), nimffi_encode_to_buf, nimffi_decode_from_buf and the copies of C strings (Buf)
--   examples/timer/c_bindings/my_timer.h
--       Timer/Types, Enc, Dec, Free: the structs. Timer/Call: my_timer_ctx_echo, _version, _complex,
--       _schedule, my_timer_static_lib_version and their reply trampolines. Timer/Create:
--       my_timer_ctx_create and its trampoline. Timer/Events: the two event trampolines.
--       Timer/Context: adding and removing listeners, and my_timer_ctx_destroy
--   examples/echo/c_bindings/echo.h
--       Echo/Types, Enc, Dec, Free: the structs. Echo/Calls: the four calls. Echo/Context: the
--       context's creation and end
--   ffi/ffi_request_queue.nim
--       Ffi/Queue: the ingress of requests, initRequestQueue, pushRequest, mergeQueues and
--       deinitRequestQueue
--   ffi/ffi_thread_request.nim
--       Ffi/Request: initFromPtr, fireCallback, fireStaleWarn, handleRes, freeRequest;
--       Ffi/Request/Payload: initFromOwnedShared and setReply
--   ffi/ffi_context_pool.nim, and the claims and recycles of ffi/ffi_context.nim, ffi/ffi_thread.nim
--       Ffi/Token: makeToken and tokenSlotAndGeneration. Ffi/Pool: the slots, createFFIContext,
--       recycling, destroyFFIContext, the static context, resolveCtx
--
-- Names lose the prefixes nimffi_ and my_timer_, and become snake_case. Generated functions of
-- one shape are instances of one definition: a struct's encoder is enc_map over enc_field, its
-- decoder dec_map over dec_field and advance_it, a sequence's codec enc_seq and dec_seq; a call is
-- ctx_call of Binding/Call, its trampoline reply_trampoline of Binding/Reply, and a creation is
-- ctx_create over create_trampoline of Binding/Create. Both headers are instances of these.
--
-- The heap (Heap.antt) is a record: the next block, the allocated blocks, whether a block that was
-- not allocated has been freed, and which allocations fail, so that every allocation may fail. The
-- sizes of allocations are not modelled, nor is the product with a sizeof that gives them. A
-- calloc is a malloc whose contents are zeroed values. A C string is a block with the bytes that were
-- copied into it; what a reader sees of it ends at the first NUL. Pointers to structs are never null.
--
-- TinyCBOR (cbor.h) is a library of its own and a parameter: Tinycbor.antt lists the calls of it as
-- two interfaces, Writer and Reader. What the memory theorems say holds for any Writer and Reader
-- whatsoever. The round trips use the laws of Tinycbor/Laws.antt, and that a parser reads the buffer of
-- the one item in question back (Parses); Tinycbor/Model.antt is a small codec that satisfies them, on
-- which the tests run. The library behind the calls of a binding is a
-- parameter too (Binding/Call: Answer, Delivery), with the contract of nim_ffi_prelude.h and the status
-- codes of nim_ffi_cbor.h as Protocol. strtoull of the C library is a parameter of a creation, and
-- Nim's `$` one of a report.
--
-- In the runtime, a request is the number of its block, and the links between requests are a function
-- (Ffi/Queue: Links), so that the queues are the intrusive lists of the source. Each section under a
-- lock is one function; Ffi/Queue/Refine runs such sections of producers and of the consumer in any
-- order, and Ffi/Pool/Race the load and the exchange of claims likewise. The pool's other operations
-- run one after another, on the fields that decide who owns a slot: starting and joining threads is the operating system's, and each attempt's success is an argument.
--
-- How the proofs are laid out: Heap/Laws has accounts of blocks (Gains, Loses, Swaps), Cbor/Memory and
-- Cbor/Release carry them through the decoders and the free functions, Timer/Memory and Echo/Memory
-- apply them to each struct. Cbor/Encoding and Cbor/Written are about the growing buffer. Cbor/Emits
-- and Cbor/Reading relate the codecs to CBOR items, Timer/RoundTrip and Echo/RoundTrip apply them.
-- Binding/Once is one delivery, Binding/Protocol the deliveries of one call, Binding/Exchange the
-- whole, Binding/Create/Made the same for a creation. Ffi/Queue/Chains has chains of links as lists,
-- Ffi/Queue/Stores a queue as a list, Ffi/Queue/Locked one section. Ffi/Pool/Growth says that
-- generations only grow.
--
-- The loop of nimffi_encode_to_buf runs on fuel, one unit for each round. With a value that fits into
-- n bytes, more than n rounds are enough, because every round makes the buffer larger; the
-- capacity is computed modulo 2^64, and does not wrap while n is at most half of the address space.
-- The walk of deinitRequestQueue has the depth of a queue, 1024, as its fuel, which no queue exceeds.
-- A generation is a number modulo 2^64, of which a token holds 59 bits.
--
-- Not modelled: in ffi/, the threads themselves, signals and timeouts, the handler table, the events'
-- registry and queue, the outbound table and polling, handles, and shutdownFFIContextPool; the
-- generators and macros; the example's main.c; the bindings for other languages. The items of a
-- struct are compared as CBOR: a null string and an empty one are the same item.
pub mod Base
pub mod Heap
pub mod Tinycbor
pub mod Cbor
pub mod Binding
pub mod Timer
pub mod Echo
pub mod Ffi
