-- ===== src/Transaction/Retention/Reserve.antt =====
-- include/vita/runtime/transaction/retention.hpp: duplicates, and the reservation of a place for a record.
-- `ack_size` stands for the size of an `AckRecord`.
use vrt_framework.Prelude.{
  ℕ, zero, suc, ◌+◌, ◌/◌, ◌%◌, ◌^◌, Bool, true, false, ◌&&◌, ◌||◌, not, Option, none, some, List,
  [], ◌∷◌, ◌++◌, ltb, leb, ◌==◌, if◌then◌else◌, has_value, u64_max, add64, sub64, mul64, length,
  get_or, set, take, drop,
}
use vrt_framework.Core.Error.{
  error, invalid_argument, overflow, capacity_exhausted, invalid_state, identity_conflict, Result,
  ok, err, is_ok,
}
use vrt_framework.Execution.Admission.{AdmissionBundle, no_request, need, reset, acquire}
use vrt_framework.Transaction.Retention.{
  TransactionKey, same_key, same_association, PacketView, transaction_key, canonical_command_byte,
  DuplicateKind, fresh, active, replay, RetentionAdmission, Record, Entry, record_of, with_record,
  RetentionStore, entry_at, indexed_record, record_id, set_entry,
}

unfoldable pub association_retained : List Entry → TransactionKey → Bool
unfolding same_association
association_retained [] relationship = false
association_retained (e ∷ es) relationship =
    (e.original.used && same_association e.key relationship) || association_retained es relationship

-- The first slot from `i` on whose original is used under the key.
unfoldable pub find_key : List Entry → TransactionKey → ℕ → Option ℕ
unfolding same_key
find_key [] key i = none
find_key (e ∷ es) key i =
    let rest = find_key es key (suc i) in
    if e.original.used && same_key e.key key then some i else rest

-- The loop that compares `n` canonical bytes from the `b`th on.
abbrev pub same_canonical : List ℕ → ℕ → PacketView → ℕ → ℕ → Bool
same_canonical bytes offset packet zero b = true
same_canonical bytes offset packet (suc n) b =
    get_or bytes (offset + b) 0 == canonical_command_byte packet b
    && same_canonical bytes offset packet n (suc b)

abbrev pub duplicate_kind : Bool → DuplicateKind
duplicate_kind terminal = if terminal then replay else active

-- Where a used record is found under the key: the comparison, and one reference more.
unfoldable pub duplicate :
    RetentionStore → PacketView → ℕ → RetentionStore × Result RetentionAdmission
unfolding canonical_command_byte
duplicate s packet slot =
    let cancel = packet.envelope.cancel in
    let e = entry_at s slot in
    let r = record_of e cancel in
    if not (r.canonical == length packet.wire)
    then (s, err (error identity_conflict))
    else if not (same_canonical s.bytes r.offset packet r.canonical 0)
    then (s, err (error identity_conflict))
    else (
      set_entry s slot (record e { references = add64 e.references 1 }),
      ok (record {
        token = record { slot = slot; generation = e.generation; cancellation = cancel };
        kind = duplicate_kind r.terminal;
      }),
    )

unfoldable pub key_matches : TransactionKey → PacketView → Bool
unfolding transaction_key same_key
key_matches key packet = elim (transaction_key packet key.binding_generation key.peer) [
  | ok derived ↦ same_key key derived
  | err e ↦ false
]

unfoldable pub replay_existing :
    RetentionStore → TransactionKey → PacketView → RetentionStore × Result RetentionAdmission
unfolding duplicate key_matches find_key
replay_existing s key packet =
    if packet.envelope.ack || ltb (length packet.wire) 4
    then (s, err (error invalid_argument))
    else if not (key_matches key packet)
    then (s, err (error invalid_argument))
    else elim (find_key s.entries key 0) [
      | none ↦ (s, err (error invalid_state))
      | some slot ↦
          let e = entry_at s slot in
          let known = duplicate s packet slot in
          if not (record_of e packet.envelope.cancel).used
          then (s, err (error invalid_state))
          else if e.references == u64_max && is_ok known.1
          then (s, err (error overflow))
          else known
    ]

-- The first slot from `i` on with no original that may still take a generation.
unfoldable pub free_slot : List Entry → ℕ → Option ℕ
free_slot [] i = none
free_slot (e ∷ es) i =
    let rest = free_slot es (suc i) in
    if not e.original.used && not (e.generation == u64_max) then some i else rest

pub record Placement : Type 0 where
  pub insertion : ℕ
  pub offset : ℕ
  pub probes : ℕ

-- The first gap that fits, in one pass over the occupied extents.
abbrev pub place : List Entry → ℕ → ℕ → List ℕ → Placement
place entries required offset [] = record { insertion = 0; offset = offset; probes = 0 }
place entries required offset (id ∷ ids) =
    let prior = indexed_record entries id in
    let rest = place entries required (add64 prior.offset prior.bytes) ids in
    if leb required (sub64 prior.offset offset)
    then record { insertion = 0; offset = offset; probes = 1 }
    else record { insertion = suc rest.insertion; offset = rest.offset; probes = suc rest.probes }

abbrev pub write_canonical : List ℕ → ℕ → PacketView → ℕ → ℕ → List ℕ
write_canonical bytes offset packet zero b = bytes
write_canonical bytes offset packet (suc n) b =
    write_canonical (set bytes (offset + b) (canonical_command_byte packet b)) offset packet n
      (suc b)

-- What the end of `reserve` writes to the record.
abbrev pub fresh_record : Record → ℕ → ℕ → ℕ → ℕ → AdmissionBundle → Record
fresh_record r canonical responses required offset credits = record r {
  used = true;
  active = false;
  terminal = false;
  offset = offset;
  bytes = required;
  canonical = canonical;
  response_capacity = responses;
  response_count = 0;
  credits = credits;
}

-- The end of `reserve`, with the credits of the new record.
unfoldable pub store_record :
    RetentionStore
    → TransactionKey
    → PacketView
    → ℕ
    → ℕ
    → ℕ
    → Placement
    → AdmissionBundle
    → RetentionStore × Result RetentionAdmission
unfolding canonical_command_byte reset
store_record s key packet responses required slot p credits =
    let cancel = packet.envelope.cancel in
    let canonical = length packet.wire in
    let e = entry_at s slot in
    let r = record_of e cancel in
    (
      record s {
        entries = set s.entries slot (
            with_record (record e { key = key; references = add64 e.references 1 }) cancel
              (fresh_record r canonical responses required p.offset credits));
        bytes = write_canonical s.bytes p.offset packet canonical 0;
        occupied =
            take p.insertion s.occupied
            ++ (record_id slot cancel % 2 ^ 32 ∷ drop p.insertion s.occupied);
        admission = (reset s.admission r.credits).0;
      },
      ok (record {
        token = record { slot = slot; generation = e.generation; cancellation = cancel };
        kind = fresh;
      }),
    )

-- The middle of `reserve`: the place of the record and its credits.
unfoldable pub reserve_slot :
    RetentionStore
    → TransactionKey
    → PacketView
    → ℕ
    → ℕ
    → ℕ
    → RetentionStore × Result RetentionAdmission
unfolding store_record acquire need indexed_record
reserve_slot s key packet responses ack_size slot =
    let required = add64 (length packet.wire) (mul64 responses ack_size) in
    let p = place s.entries required 0 s.occupied in
    let t = record s { placement_probes = p.probes } in
    let request = need (need no_request 6 (if packet.envelope.cancel then 0 else 1)) 7 required in
    let taken = acquire s.admission request in
    if ltb (sub64 (length s.bytes) required) p.offset
    then (t, err (error capacity_exhausted))
    else elim taken.1 [
      | err e ↦ (record t { admission = taken.0 }, err e)
      | ok credits ↦
          store_record (record t { admission = taken.0 }) key packet responses required slot p
            credits
    ]

abbrev pub exceeds : RetentionStore → PacketView → ℕ → ℕ → Bool
exceeds s packet responses ack_size =
    ltb (length s.bytes) (length packet.wire)
    || ltb (sub64 (length s.bytes) (length packet.wire) / ack_size) responses

-- Where no record of the packet's kind stands under the key; `found` is the slot of its original.
unfoldable pub reserve_new :
    RetentionStore
    → TransactionKey
    → PacketView
    → ℕ
    → ℕ
    → Option ℕ
    → RetentionStore × Result RetentionAdmission
unfolding reserve_slot free_slot
reserve_new s key packet responses ack_size found =
    if packet.envelope.cancel && not (has_value found)
    then (s, err (error invalid_state))
    else if exceeds s packet responses ack_size
    then (s, err (error capacity_exhausted))
    else elim found [
      | some slot ↦ reserve_slot s key packet responses ack_size slot
      | none ↦ elim (free_slot s.entries 0) [
        | none ↦ (s, err (error capacity_exhausted))
        | some slot ↦ reserve_slot s key packet responses ack_size slot
      ]
    ]

abbrev pub ill_formed : TransactionKey → PacketView → ℕ → Bool
ill_formed key packet responses =
    key.binding_generation == 0
    || key.peer.generation == 0
    || ltb (length packet.wire) 4
    || ltb (if packet.envelope.cancel then 2 else 3) responses
    || packet.envelope.ack

unfoldable pub reserve :
    RetentionStore
    → TransactionKey
    → PacketView
    → ℕ
    → ℕ
    → RetentionStore × Result RetentionAdmission
unfolding duplicate reserve_new key_matches find_key
reserve s key packet responses ack_size =
    if ill_formed key packet responses
    then (s, err (error invalid_argument))
    else if not (key_matches key packet)
    then (s, err (error invalid_argument))
    else elim (find_key s.entries key 0) [
      | none ↦ reserve_new s key packet responses ack_size none
      | some slot ↦
          if (record_of (entry_at s slot) packet.envelope.cancel).used
          then duplicate s packet slot
          else reserve_new s key packet responses ack_size (some slot)
    ]
