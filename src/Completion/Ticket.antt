-- ===== src/Completion/Ticket.antt =====
-- include/vita/runtime/completion/ticket.hpp: a slot's state and generation share one atomic word. Each
-- method's atomic read-modify-write makes it one step, except that claiming a slot and finishing it are
-- two; `consume` is one, since no other method takes a slot that is in `reading`. Retained transmit
-- storage is a number.
pub mod Claims
pub mod Once
pub mod Delivery
use vrt_framework.Prelude.{
  ℕ, zero, suc, ◌+◌, ◌-◌, ◌*◌, ◌/◌, ◌%◌, ◌^◌, ◌≤◌, ◌<◌, min, max, bit_and, bit_or, ◌≡◌, refl, sym,
  ap, ◌∙◌, subst, ◌≢◌, ◌↔◌, ◌⊎◌, inl, inr, Bool, true, false, ◌&&◌, ◌||◌, not, Option, none, some,
  List, [], ◌∷◌, ◌++◌, append-nil, append_assoc, arith, ltb, leb, ◌==◌, if◌then◌else◌, ltb→lt,
  lt→ltb, leb→le, ==_iff, ==_refl, Bool-cases, Option-cases, some-injective, if-both, has_value,
  eq_option, eq_bool, u64_max, add64, sub64, mul64, bit, length, get_elem?, get_or, set, take, drop,
  replicate, length-append, length-set, get_elem?-set_self, get_elem?-set_ne, take-append-drop,
  length-take, length-drop, length-replicate, drop-append, take-append,
}
use vrt_framework.Core.Error.{
  ErrorCode, Error, error, error_at, error_needs, invalid_argument, unsupported_layout,
  unsupported_capability, overflow, short_input, short_output, capacity_exhausted, stale_generation,
  invalid_state, callback_failure, no_cpu_access, resource_limit, identity_conflict, Result, ok,
  err, ◌>>=◌, ◌>>◌, guard, done, is_ok, >>=-eq-ok, Result-cases, ok-injective, guard-eq-ok,
  >>-eq-ok,
}

-- `CompletionStatus`: 0 succeeded, 1 failed, 2 cancelled, 3 abandoned.
pub record CompletionResult : Type 0 where
  pub status : ℕ
  pub error_value : Error
  pub value : ℕ
  pub effective_monotonic_ns : ℕ

abbrev pub no_result : CompletionResult
no_result = record {
  status = 0;
  error_value = error invalid_state;
  value = 0;
  effective_monotonic_ns = 0;
}

pub record CompletionRecord : Type 0 where
  pub operation : ℕ
  pub result : CompletionResult

-- `TicketState`
abbrev pub free : ℕ
free = 0

abbrev pub reserved : ℕ
reserved = 1

abbrev pub writing : ℕ
writing = 2

abbrev pub ready : ℕ
ready = 3

abbrev pub reading : ℕ
reading = 4

abbrev pub retired : ℕ
retired = 5

abbrev pub max_ticket_generation : ℕ
max_ticket_generation = 2 ^ 56 - 1

-- `(g << 8) | s`, which fits 64 bits for every generation up to `max_ticket_generation`; the slots of
-- `new_arena` start there or below, and `recycled` never goes above it.
abbrev pub tag : ℕ → ℕ → ℕ
tag g s = g * 2 ^ 8 + s

pub record CompletionSlot : Type 0 where
  pub tagged : ℕ
  pub operation : ℕ
  pub payload : CompletionResult

pub record CompletionState : Type 0 where
  pub slots : List CompletionSlot
  pub rejected : ℕ

abbrev pub state_of : CompletionSlot → ℕ
state_of s = s.tagged % 256

abbrev pub generation_of : CompletionSlot → ℕ
generation_of s = s.tagged / 2 ^ 8

-- `CompletionArena<n>{initial_generation}`
abbrev pub new_arena : ℕ → ℕ → CompletionState
new_arena n initial = record {
  slots = replicate n (record {
    tagged = tag (min initial max_ticket_generation) free;
    operation = 0;
    payload = no_result;
  });
  rejected = 0;
}

-- A publisher or a writer: its slot and its generation.
pub record Ticket : Type 0 where
  pub slot : ℕ
  pub generation : ℕ

abbrev pub no_slot : CompletionSlot
no_slot = record { tagged = tag 0 retired; operation = 0; payload = no_result }

abbrev pub slot_at : CompletionState → ℕ → CompletionSlot
slot_at s i = get_or s.slots i no_slot

abbrev pub put_slot : CompletionState → ℕ → CompletionSlot → CompletionState
put_slot s i x = record s { slots = set s.slots i x }

unfoldable pub is_reserved : CompletionState → Ticket → Bool
is_reserved s t = (slot_at s t.slot).tagged == tag t.generation reserved

-- `try_claim`: the compare-exchange from reserved to writing; a failure is counted.
unfoldable pub try_claim : CompletionState → Ticket → CompletionState × Option Ticket
unfolding is_reserved
try_claim s t =
    if is_reserved s t
    then (
      put_slot s t.slot (record (slot_at s t.slot) { tagged = tag t.generation writing }),
      some t,
    )
    else (record s { rejected = add64 s.rejected 1 }, none)

-- `CompletionWriter::finish`
unfoldable pub finish : CompletionState → Ticket → CompletionResult → CompletionState
finish s w result =
    put_slot s w.slot
      (record (slot_at s w.slot) { payload = result; tagged = tag w.generation ready })

abbrev pub finish_claimed :
    CompletionResult → CompletionState × Option Ticket → CompletionState × Bool
finish_claimed result (s, none) = (s, false)
finish_claimed result (s, some w) = (finish s w result, true)

unfoldable pub publish : CompletionState → Ticket → CompletionResult → CompletionState × Bool
publish s t result = finish_claimed result (try_claim s t)

-- `CompletionToken`: it publishes at most once, and is abandoned when it goes.
pub record CompletionToken : Type 0 where
  pub publisher : Ticket
  pub active : Bool

unfoldable pub publish_token :
    CompletionState
    → CompletionToken
    → CompletionResult
    → (CompletionState × CompletionToken) × Bool
publish_token s k result =
    if k.active
    then (
      ((publish s k.publisher result).0, record k { active = false }),
      (publish s k.publisher result).1,
    )
    else ((s, k), false)

unfoldable pub abandon : CompletionState → CompletionToken → CompletionState × CompletionToken
abandon s k =
    if k.active
    then (
      (publish s k.publisher
          (record no_result { status = 3; error_value = error callback_failure })).0,
      record k { active = false },
    )
    else (s, k)

-- The loop of `reserve`: the first free slot.
unfoldable pub first_free : List CompletionSlot → ℕ → Option ℕ
first_free [] i = none
first_free (x ∷ xs) i = if state_of x == free then some i else first_free xs (i + 1)

abbrev pub reserve_slot : CompletionState → ℕ → Option ℕ → CompletionState × Result CompletionToken
reserve_slot s operation none = (s, err (error capacity_exhausted))
reserve_slot s operation (some i) =
    let x = slot_at s i in
    (
      put_slot s i (record x { operation = operation; tagged = tag (generation_of x) reserved }),
      ok (record { publisher = record { slot = i; generation = generation_of x }; active = true }),
    )

unfoldable pub reserve : CompletionState → ℕ → CompletionState × Result CompletionToken
unfolding first_free
reserve s operation = reserve_slot s operation (first_free s.slots 0)

-- The word that `consume` leaves: the next generation, or none after the last one.
abbrev pub recycled : ℕ → ℕ
recycled g = if g == max_ticket_generation then tag g retired else tag (g + 1) free

unfoldable pub consume : CompletionState → ℕ → CompletionState × Option CompletionRecord
consume s i =
    let x = slot_at s i in
    if leb (length s.slots) i then (s, none) else if not (state_of x == ready) then (s, none) else (
      put_slot s i (record x { payload = no_result; tagged = recycled (generation_of x) }),
      some (record { operation = x.operation; result = x.payload }),
    )

abbrev pub consumed :
    CompletionState × Option CompletionRecord → List CompletionRecord → List CompletionRecord
consumed (s, none) rs = rs
consumed (s, some r) rs = r ∷ rs

-- `scan`, with the records that it hands to its function, for the slots from `i` on.
unfoldable pub scan : ℕ → CompletionState → ℕ → CompletionState × List CompletionRecord
unfolding consume
scan zero s i = (s, [])
scan (suc n) s i =
    let c = consume s i in let rest = scan n c.0 (i + 1) in (rest.0, consumed c rest.1)

unfoldable pub ticket_state : CompletionState → ℕ → ℕ
ticket_state s i = if ltb i (length s.slots) then state_of (slot_at s i) else retired

-- `QuiescenceGuard`: the shared state, and a guard's own generation.
pub record QuiescenceState : Type 0 where
  pub storage : Option ℕ
  pub generation : ℕ

-- `arm`, with the guard's own generation
unfoldable pub arm : QuiescenceState → ℕ → ℕ → (QuiescenceState × ℕ) × Result (Unit {0})
arm q own storage =
    if has_value q.storage
    then ((q, own), err (error invalid_state))
    else if q.generation == u64_max
    then ((q, own), err (error overflow))
    else (
      (record { storage = some storage; generation = add64 q.generation 1 }, add64 q.generation 1),
      done,
    )

unfoldable pub prove_quiescent : QuiescenceState → ℕ → QuiescenceState × Bool
prove_quiescent q own =
    if not (own == q.generation) || not (has_value q.storage)
    then (q, false)
    else (record q { storage = none }, true)
