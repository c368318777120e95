-- ===== src/Memory/Envelope.antt =====
-- include/vita/memory/envelope.hpp: received and transmitted packets as segments of leased buffers. A
-- lease is known here by the bytes that it shows; sharing a lease shows the same bytes, and its effect
-- on the reference counts is in Memory.Pool.
pub mod Retain
pub mod Quotas
pub mod Storage
use vrt_framework.Prelude.{
  ℕ, zero, suc, ◌+◌, ◌-◌, ◌*◌, ◌/◌, ◌%◌, ◌^◌, ◌≤◌, ◌<◌, min, max, bit_and, bit_or, ◌≡◌, refl, sym,
  ap, ◌∙◌, subst, ◌≢◌, ◌↔◌, ◌⊎◌, inl, inr, Bool, true, false, ◌&&◌, ◌||◌, not, Option, none, some,
  List, [], ◌∷◌, ◌++◌, append-nil, append_assoc, arith, ltb, leb, ◌==◌, if◌then◌else◌, ltb→lt,
  lt→ltb, leb→le, ==_iff, ==_refl, Bool-cases, Option-cases, some-injective, if-both, has_value,
  eq_option, eq_bool, u64_max, add64, sub64, mul64, bit, length, get_elem?, get_or, set, take, drop,
  replicate, length-append, length-set, get_elem?-set_self, get_elem?-set_ne, take-append-drop,
  length-take, length-drop, length-replicate, drop-append, take-append,
}
use vrt_framework.Core.Error.{
  ErrorCode, Error, error, error_at, error_needs, invalid_argument, unsupported_layout,
  unsupported_capability, overflow, short_input, short_output, capacity_exhausted, stale_generation,
  invalid_state, callback_failure, no_cpu_access, resource_limit, identity_conflict, Result, ok,
  err, ◌>>=◌, ◌>>◌, guard, done, is_ok, >>=-eq-ok, Result-cases, ok-injective, guard-eq-ok,
  >>-eq-ok,
}

pub record SegmentRef : Type 0 where
  pub lease : ℕ
  pub offset : ℕ
  pub extent : ℕ

-- `content` is none for a block without an address.
pub record Lease : Type 0 where
  pub live : Bool
  pub content : Option (List ℕ)
  pub size : ℕ

abbrev pub no_lease : Lease
no_lease = record { live = false; content = none; size = 0 }

abbrev pub shown : Option (List ℕ) → ℕ → Result (List ℕ)
shown none n = err (error no_cpu_access)
shown (some b) n = ok (take n b)

-- `BufferLease::bytes`
unfoldable pub bytes : Lease → Result (List ℕ)
bytes l = if l.live then shown l.content l.size else err (error invalid_state)

-- `bytes()` and its `subspan`
unfoldable pub segment_bytes : List Lease → SegmentRef → Result (List ℕ)
unfolding bytes
segment_bytes leases s =
    bytes (get_or leases s.lease no_lease) >>= λ b. ok (take s.extent (drop s.offset b))

pub record QuotaState : Type 0 where
  pub active : ℕ
  pub limit : ℕ
  pub enabled : Bool

-- `take_quota` of a state that a null pointer may stand for: the loop of compare-exchanges ends in one
-- atomic step.
unfoldable pub take_quota : Option QuotaState → Option QuotaState × Bool
take_quota none = (none, false)
take_quota (some q) =
    if not q.enabled
    then (some q, false)
    else if ltb q.active q.limit
    then (some (record q { active = add64 q.active 1 }), true)
    else (some q, false)

-- One release; without a state there is none.
unfoldable pub give_quota : Option QuotaState → Option QuotaState
give_quota none = none
give_quota (some q) = some (record q { active = sub64 q.active 1 })

-- The consumer's and the global quota; `same` when their pointers are equal, and the state, if there is
-- one, is then the first.
unfoldable pub take_quotas :
    Bool → Option QuotaState → Option QuotaState → (Option QuotaState × Option QuotaState) × Bool
unfolding take_quota give_quota
take_quotas same consumer global =
    let c = take_quota consumer in
    let g = take_quota global in
    if not c.1
    then ((consumer, global), false)
    else if same
    then ((c.0, global), true)
    else if g.1
    then ((c.0, g.0), true)
    else ((give_quota c.0, global), false)

unfoldable pub release_quotas :
    Bool → Option QuotaState → Option QuotaState → Option QuotaState × Option QuotaState
unfolding give_quota
release_quotas same consumer global =
    if same then (give_quota consumer, global) else (give_quota consumer, give_quota global)

pub record RetainedRx : Type 0 where
  pub leases : List Lease
  pub fragments : List SegmentRef

pub record RxEnvelope : Type 0 where
  pub leases : List Lease
  pub payload : List SegmentRef
  pub prologue : Option SegmentRef
  pub trailer : Option SegmentRef

abbrev pub new_envelope : RxEnvelope
new_envelope = record { leases = []; payload = []; prologue = none; trailer = none }

abbrev pub is_valid : List Lease → SegmentRef → Bool
is_valid leases s =
    ltb s.lease (length leases)
    && leb s.offset (get_or leases s.lease no_lease).size
    && leb s.extent ((get_or leases s.lease no_lease).size - s.offset)

unfoldable pub add_buffer : RxEnvelope → Lease → RxEnvelope × Result ℕ
add_buffer e l =
    if not l.live
    then (e, err (error invalid_argument))
    else if length e.leases == 18
    then (e, err (error capacity_exhausted))
    else (record e { leases = e.leases ++ (l ∷ []) }, ok (length e.leases))

unfoldable pub append_payload : RxEnvelope → SegmentRef → RxEnvelope × Result (Unit {0})
append_payload e s =
    if not (is_valid e.leases s) || s.extent == 0
    then (e, err (error invalid_argument))
    else if length e.payload == 16
    then (e, err (error capacity_exhausted))
    else (record e { payload = e.payload ++ (s ∷ []) }, done)

abbrev pub prologue_set : RxEnvelope → SegmentRef → Result (List ℕ) → RxEnvelope × Result (Unit {0})
prologue_set e s (err x) = (e, err x)
prologue_set e s (ok b) = (record e { prologue = some s }, done)

unfoldable pub set_prologue : RxEnvelope → SegmentRef → RxEnvelope × Result (Unit {0})
unfolding bytes
set_prologue e s =
    if not (is_valid e.leases s)
    then (e, err (error invalid_argument))
    else prologue_set e s (bytes (get_or e.leases s.lease no_lease))

unfoldable pub set_trailer : RxEnvelope → SegmentRef → RxEnvelope × Result (Unit {0})
set_trailer e s =
    if not (is_valid e.leases s)
    then (e, err (error invalid_argument))
    else (record e { trailer = some s }, done)

-- The prologue and the trailer are read alike.
abbrev pub optional_bytes : List Lease → Option SegmentRef → Result (List ℕ)
optional_bytes leases none = err (error invalid_state)
optional_bytes leases (some s) = segment_bytes leases s

-- `fragment(i)` of a received or retained packet
abbrev pub numbered_bytes : List Lease → Option SegmentRef → Result (List ℕ)
numbered_bytes leases none = err (error invalid_argument)
numbered_bytes leases (some s) = segment_bytes leases s

unfoldable pub fragment : RxEnvelope → ℕ → Result (List ℕ)
unfolding segment_bytes
fragment e i = numbered_bytes e.leases (get_elem? e.payload i)

unfoldable pub retained_fragment : RetainedRx → ℕ → Result (List ℕ)
unfolding segment_bytes
retained_fragment r i = numbered_bytes r.leases (get_elem? r.fragments i)

-- The loop of `retain`: 18 in the table stands for a lease that has not been shared yet.
unfoldable pub retain_loop : List Lease → List ℕ → List Lease → List SegmentRef → RetainedRx
retain_loop leases remap out [] = record { leases = out; fragments = [] }
retain_loop leases remap out (s ∷ ss) =
    let new = length out in
    let known = get_or remap s.lease 18 in
    let first =
      retain_loop leases (set remap s.lease new) (out ++ (get_or leases s.lease no_lease ∷ []))
        ss in
    let again = retain_loop leases remap out ss in
    if known == 18
    then record first { fragments = record s { lease = new } ∷ first.fragments }
    else record again { fragments = record s { lease = known } ∷ again.fragments }

abbrev pub retained_if :
    RetainedRx
    → (Option QuotaState × Option QuotaState) × Bool
    → (Option QuotaState × Option QuotaState) × Result RetainedRx
retained_if out (q, true) = (q, ok out)
retained_if out (q, false) = (q, err (error capacity_exhausted))

unfoldable pub retain :
    RxEnvelope
    → Bool
    → Option QuotaState
    → Option QuotaState
    → (Option QuotaState × Option QuotaState) × Result RetainedRx
unfolding take_quotas retain_loop
retain e same consumer global =
    if length e.payload == 0
    then ((consumer, global), err (error invalid_state))
    else retained_if (retain_loop e.leases (replicate 18 18) [] e.payload)
        (take_quotas same consumer global)

-- A retained packet is retained again with all its leases.
unfoldable pub retain_again :
    RetainedRx
    → Bool
    → Option QuotaState
    → Option QuotaState
    → (Option QuotaState × Option QuotaState) × Result RetainedRx
unfolding take_quotas
retain_again r same consumer global =
    if length r.fragments == 0
    then ((consumer, global), err (error invalid_state))
    else retained_if r (take_quotas same consumer global)

-- Transmitted packets: segment `i` is in lease `i`.
pub record TxStorage : Type 0 where
  pub leases : List Lease
  pub segments : List SegmentRef

unfoldable pub tx_byte_size : List SegmentRef → ℕ
tx_byte_size [] = 0
tx_byte_size (s ∷ ss) = add64 s.extent (tx_byte_size ss)

unfoldable pub tx_append : TxStorage → Lease → ℕ → ℕ → TxStorage × Result (Unit {0})
unfolding tx_byte_size
tx_append t l offset extent =
    if not l.live || ltb l.size offset || ltb (l.size - offset) extent || extent == 0
    then (t, err (error invalid_argument))
    else if length t.segments == 3
    then (t, err (error capacity_exhausted))
    else if ltb (sub64 u64_max (tx_byte_size t.segments)) extent
    then (t, err (error overflow))
    else (
      record {
        leases = t.leases ++ (l ∷ []);
        segments =
            t.segments
            ++ (record { lease = length t.segments; offset = offset; extent = extent } ∷ []);
      },
      done,
    )

-- `segment(i)` of a packet to transmit: the lease is the one with the segment's number.
abbrev pub own_bytes : List Lease → ℕ → Option SegmentRef → Result (List ℕ)
own_bytes leases i none = err (error invalid_argument)
own_bytes leases i (some s) = segment_bytes leases (record s { lease = i })

unfoldable pub tx_segment : TxStorage → ℕ → Result (List ℕ)
unfolding segment_bytes
tx_segment t i = own_bytes t.leases i (get_elem? t.segments i)
