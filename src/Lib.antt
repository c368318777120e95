-- ===== src/Lib.antt =====
-- vrt_framework: a model of the core of the VITA 49 framework, and the theorems that it is correct.
--
-- The framework sends and receives VITA packets. include/vita/codec turns an envelope into bytes and back,
-- include/vita/runtime/stream keeps the packet counters and the routes of the configured streams, and
-- include/vita/runtime/timing keeps the protocol clock and schedules effects.
-- include/vita/runtime/transport frames a byte stream into packets, which include/vita/memory keeps as segments
-- of leased buffers; include/vita/runtime/execution admits work against credits and a byte budget, and
-- include/vita/runtime/completion hands its results back under tickets.
--
-- Files and sources:
--   Prelude   the shared names, Boolean tests, native lists, 64-bit wrap-around
--   Core      include/vita/core: the error record, `Result` and its inversions
--   Timing    include/vita/runtime/timing: Time (time.hpp), Clock (clock.hpp), Scheduling (scheduling.hpp)
--   Codec     include/vita/codec/wire.hpp: Words, Envelope, Measure, Encode, Decode, RoundTrip
--   Stream    include/vita/runtime/stream: Counters (counters.hpp), Routing (routing.hpp)
--   Samples   include/vita/codec: Bits and Packing (general_samples.hpp), Iq (samples.hpp), Numeric
--             (numeric_samples.hpp), Descriptor (sample_descriptors.hpp), Segmented (segmented_samples.hpp)
--   Transport include/vita/runtime/transport/stream_framer.hpp: Framer
--             include/vita/runtime/transport/framing.hpp: Framing
--   Execution include/vita/runtime/execution: Admission (admission.hpp), Budget (budget.hpp)
--   Completion include/vita/runtime/completion/ticket.hpp: Ticket
--   Memory    include/vita/memory: Pool (pool.hpp), Envelope (envelope.hpp)
--   Transaction include/vita/runtime/transaction/retention.hpp: Retention (the store), Reserve, Tokens
--             include/vita/runtime/transaction/outcomes.hpp: Observer (the controller observer)
--
-- Two loops are on fuel. The loop of `feed` has one round for each byte of the input, which is enough, since a
-- round consumes at least one byte, and Transport.Framer.Bytewise proves that it always returns. `bit_width` and
-- `countr_zero` of Samples.Numeric stand for the functions of the standard library on a 64-bit number and
-- halve it at most 64 times.
--
-- An operation that changes an object is a function from the object's state to the new state and the
-- result; `std::expected` is `Result`. A value of a w-bit unsigned type is a natural number below 2 ^ w, and
-- arithmetic on it wraps as in the code (`add64`, `sub64`, `mul64`). Arrays of optionals are lists of
-- optionals of the array's length. Each loop is structural recursion over the list or array it walks, so
-- no fuel is needed where the header of a file does not say so. The mutexes of the registries make each
-- method one step, and locking itself is not modelled.
--
-- Not modelled: the public runtime facade, the transaction engine, the encoding of its responses, field payloads
-- and IEEE samples, whose models are still to be written; the socket adapters, which are system
-- calls; and the slot storage of the executor, which is raw memory.
pub mod Codec
pub mod Completion
pub mod Core
pub mod Execution
pub mod Memory
pub mod Prelude
pub mod Samples
pub mod Stream
pub mod Timing
pub mod Transaction
pub mod Transport
