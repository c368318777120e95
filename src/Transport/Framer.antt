-- ===== src/Transport/Framer.antt =====
-- include/vita/runtime/transport/stream_framer.hpp: `StreamFramer`, which cuts a byte stream into packets.
-- The first `buffered_` bytes of the storage are the list `buffer`; the sink's context is a state that
-- the sink returns changed.
pub mod Bytewise
pub mod Chunks
pub mod Delivery
pub mod Connection
use vrt_framework.Prelude.{
  ℕ, zero, suc, ◌+◌, ◌-◌, ◌*◌, ◌/◌, ◌%◌, ◌^◌, ◌≤◌, ◌<◌, min, max, bit_and, bit_or, ◌≡◌, refl, sym,
  ap, ◌∙◌, subst, ◌≢◌, ◌↔◌, ◌⊎◌, inl, inr, Bool, true, false, ◌&&◌, ◌||◌, not, Option, none, some,
  List, [], ◌∷◌, ◌++◌, append-nil, append_assoc, arith, ltb, leb, ◌==◌, if◌then◌else◌, ltb→lt,
  lt→ltb, leb→le, ==_iff, ==_refl, Bool-cases, Option-cases, if-both, has_value, eq_option, eq_bool,
  u64_max, add64, sub64, mul64, bit, length, get_elem?, get_or, set, take, drop, replicate,
  length-append, length-set, get_elem?-set_self, get_elem?-set_ne, take-append-drop, length-take,
  length-drop, length-replicate, drop-append, take-append,
}
use vrt_framework.Core.Error.{
  ErrorCode, Error, error, error_at, error_needs, invalid_argument, unsupported_layout,
  unsupported_capability, overflow, short_input, short_output, capacity_exhausted, stale_generation,
  invalid_state, callback_failure, no_cpu_access, resource_limit, identity_conflict, Result, ok,
  err, ◌>>=◌, ◌>>◌, guard, done, is_ok, >>=-eq-ok, Result-cases, ok-injective, guard-eq-ok,
  >>-eq-ok,
}
use vrt_framework.Codec.Words.{load32}
use vrt_framework.Codec.Decode.{EnvelopeView, decode_envelope}

pub record StreamFramer : Type 0 where
  pub capacity : ℕ
  pub maximum_packet_bytes : ℕ
  pub buffer : List ℕ
  pub expected : ℕ
  pub closed : Bool

-- `StreamFramer<capacity>{maximum_packet_bytes}`
abbrev pub new_framer : ℕ → ℕ → StreamFramer
new_framer capacity maximum = record {
  capacity = capacity;
  maximum_packet_bytes = maximum;
  buffer = [];
  expected = 0;
  closed = false;
}

abbrev pub reset : StreamFramer → StreamFramer
reset f = record f { buffer = []; expected = 0 }

abbrev pub shutdown : StreamFramer → StreamFramer
shutdown f = reset (record f { closed = true })

abbrev pub reconnect : StreamFramer → StreamFramer
reconnect f = reset (record f { closed = false })

-- `expected_ ? expected_ : std::size_t{4}`
abbrev pub target : StreamFramer → ℕ
target f = if f.expected == 0 then 4 else f.expected

abbrev pub buffered_bytes : StreamFramer → ℕ
buffered_bytes f = length f.buffer

abbrev pub awaiting_bytes : StreamFramer → ℕ
awaiting_bytes f = target f - length f.buffer

abbrev pub stalled : StreamFramer → Bool
stalled f = not (length f.buffer == 0)

unfoldable pub disconnect : StreamFramer → StreamFramer × Result (Unit {0})
disconnect f = if length f.buffer == 0 then (record f { closed = true }, done) else (
  reset (record f { closed = true }),
  err (error_needs short_input (length f.buffer) (target f)),
)

-- The size that a header word announces, in bytes, if it is acceptable.
unfoldable pub bad_header : StreamFramer → ℕ → Bool
bad_header f header =
    let packet_bytes = header % 2 ^ 16 * 4 in
    ltb 7 (header / 2 ^ 28)
    || ltb packet_bytes 4
    || ltb f.maximum_packet_bytes packet_bytes
    || ltb f.capacity packet_bytes

unfoldable pub inspect_header : StreamFramer → StreamFramer × Result (Unit {0})
unfolding bad_header
inspect_header f =
    if ltb (length f.buffer) 4 || not (f.expected == 0)
    then (f, done)
    else if bad_header f (load32 f.buffer 0)
    then (f, err (error invalid_argument))
    else (record f { expected = load32 f.buffer 0 % 2 ^ 16 * 4 }, done)

-- The configuration that every call of `feed` checks.
unfoldable pub bad_limits : StreamFramer → Bool
bad_limits f =
    ltb f.maximum_packet_bytes 4
    || ltb f.capacity f.maximum_packet_bytes
    || not (f.maximum_packet_bytes % 4 == 0)

module _ {S : Type 0} (sink : S → List ℕ → S × Result (Unit {0})) where
  abbrev pub Outcome : Type 0
  Outcome = StreamFramer × S × Result ℕ

  -- After the sink: a refusal shuts the framer down, and a packet counts once.
  unfoldable pub accepted : StreamFramer → S × Result (Unit {0}) → Outcome
  accepted f (s, err e) = (shutdown f, s, err e)
  accepted f (s, ok _) = (f, s, ok 1)

  -- A complete packet: it is decoded before the sink sees it, and the framer is emptied in between.
  unfoldable pub deliver : StreamFramer → S → Result EnvelopeView → Outcome
  unfolding accepted
  deliver f s (err e) = (shutdown f, s, err e)
  deliver f s (ok _) = accepted (reset f) (sink s f.buffer)

  unfoldable pub inspected : S → StreamFramer × Result (Unit {0}) → Outcome
  unfolding deliver
  inspected s (f, err e) = (shutdown f, s, err e)
  inspected s (f, ok _) =
      if f.expected == 0 || not (length f.buffer == f.expected)
      then (f, s, ok 0)
      else deliver f s (decode_envelope f.buffer)

  -- One round of the loop, with the bytes that it copies.
  unfoldable pub absorb : StreamFramer → S → List ℕ → Outcome
  unfolding inspected inspect_header
  absorb f s chunk = inspected s (inspect_header (record f { buffer = f.buffer ++ chunk }))

  -- An error ends the call; otherwise the loop goes on.
  abbrev pub and_then : {R : Type 0} → (Outcome → R) → Outcome → (StreamFramer → S → ℕ → R) → R
  and_then stop (f, s, err e) k = stop (f, s, err e)
  and_then stop (f, s, ok n) k = k f s n

  -- The loop of `feed`; `none` where the fuel does not suffice.
  unfoldable pub feed_loop : ℕ → StreamFramer → S → List ℕ → ℕ → Option Outcome
  unfolding absorb
  feed_loop fuel f s [] delivered = some (f, s, ok delivered)
  feed_loop zero f s (b ∷ bs) delivered = none
  feed_loop (suc fuel) f s (b ∷ bs) delivered =
      let count = min (length (b ∷ bs)) (target f - length f.buffer) in
      and_then some (absorb f s (take count (b ∷ bs)))
        λ f' s' n. feed_loop fuel f' s' (drop count (b ∷ bs)) (delivered + n)

-- `feed`, whose sink may be the null pointer. The fuel is one round for each byte.
unfoldable pub feed :
    {S : Type 0}
    → Option (S → List ℕ → S × Result (Unit {0}))
    → StreamFramer
    → S
    → List ℕ
    → Option (StreamFramer × S × Result ℕ)
unfolding bad_limits feed_loop
feed none f s input = some (f, s, err (error invalid_state))
feed (some sink) f s input =
    if f.closed || bad_limits f
    then some (f, s, err (error invalid_state))
    else feed_loop sink (length input) f s input 0
