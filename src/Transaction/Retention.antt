-- ===== src/Transaction/Retention.antt =====
-- include/vita/runtime/transaction/retention.hpp: the store of the canonical bytes of requests and of
-- their responses, for the detection of duplicates. The arrays of the storage are lists of their
-- lengths `Entries` and `ByteCapacity`; `occupied` holds the first `occupied_count` numbers of its
-- array, and record `c` of entry `i` has the number `2 * i + c`. The admission pool that the store
-- refers to is a field.
pub mod Reserve
pub mod Tokens
pub mod Layout
pub mod Stored
pub mod Moved
pub mod Kept
pub mod Reserved
pub mod Copies
pub mod Views
pub mod Appended
pub mod Responses
pub mod Sized
pub mod SizedCalls
pub mod Reachable
pub mod Calls
use vrt_framework.Prelude.{
  ℕ, zero, suc, ◌+◌, ◌-◌, ◌*◌, ◌/◌, ◌%◌, ◌^◌, ◌≤◌, ◌<◌, min, max, bit_and, bit_or, ◌≡◌, refl, sym,
  ap, ◌∙◌, subst, ◌≢◌, ◌↔◌, ◌⊎◌, inl, inr, Bool, true, false, ◌&&◌, ◌||◌, not, Option, none, some,
  List, [], ◌∷◌, ◌++◌, append-nil, append_assoc, arith, ltb, leb, ◌==◌, if◌then◌else◌, ltb→lt,
  lt→ltb, leb→le, ==_iff, ==_refl, Bool-cases, Option-cases, some-injective, if-both, has_value,
  eq_option, eq_bool, u64_max, add64, sub64, mul64, bit, length, get_elem?, get_or, set, take, drop,
  replicate, length-append, length-set, get_elem?-set_self, get_elem?-set_ne, take-append-drop,
  length-take, length-drop, length-replicate, drop-append, take-append,
}
use vrt_framework.Core.Error.{
  ErrorCode, Error, error, error_at, error_needs, invalid_argument, unsupported_layout,
  unsupported_capability, overflow, short_input, short_output, capacity_exhausted, stale_generation,
  invalid_state, callback_failure, no_cpu_access, resource_limit, identity_conflict, Result, ok,
  err, ◌>>=◌, ◌>>◌, guard, done, is_ok, >>=-eq-ok, Result-cases, ok-injective, guard-eq-ok,
  >>-eq-ok,
}
use vrt_framework.Codec.Envelope.{Identifier, absent_id, Envelope, Command, is_command}
use vrt_framework.Stream.Routing.{PeerSession, same_peer, same_identifier}
use vrt_framework.Execution.Admission.{AdmissionPool, AdmissionBundle, no_bundle, reset}

pub record TransactionKey : Type 0 where
  pub binding_generation : ℕ
  pub peer : PeerSession
  pub stream_id : Option ℕ
  pub controller : Identifier
  pub controllee : Identifier
  pub message_id : ℕ

unfoldable pub same_key : TransactionKey → TransactionKey → Bool
unfolding same_identifier
same_key a b =
    a.binding_generation == b.binding_generation
    && same_peer a.peer b.peer
    && eq_option a.stream_id b.stream_id
    && a.message_id == b.message_id
    && same_identifier a.controller b.controller
    && same_identifier a.controllee b.controllee

unfoldable pub same_association : TransactionKey → TransactionKey → Bool
unfolding same_key
same_association a b = same_key (record a { message_id = 0 }) (record b { message_id = 0 })

-- What the store reads of a `codec::PacketView`: the decoded envelope, the bytes on the wire, and
-- where its payload begins.
pub record PacketView : Type 0 where
  pub envelope : Envelope
  pub wire : List ℕ
  pub payload_offset : ℕ

unfoldable pub transaction_key : PacketView → ℕ → PeerSession → Result TransactionKey
transaction_key packet generation peer =
    if generation == 0 || peer.generation == 0 || not (is_command packet.envelope.type)
    then err (error invalid_argument)
    else elim packet.envelope.command [
      | none ↦ err (error invalid_argument)
      | some command ↦ ok (record {
        binding_generation = generation;
        peer = peer;
        stream_id = packet.envelope.stream_id;
        controller = command.controller;
        controllee = command.controllee;
        message_id = command.message_id;
      })
    ]

unfoldable pub canonical_command_byte : PacketView → ℕ → ℕ
canonical_command_byte packet offset =
    let b = get_or packet.wire offset 0 in
    let c = if offset == 1 then bit_and b 0xf0 else b in
    if not packet.envelope.cancel && offset == packet.payload_offset then bit_and c 0x7f else c

pub data DuplicateKind : Type 0 where
  fresh active replay : DuplicateKind

pub record RetentionToken : Type 0 where
  pub slot : ℕ
  pub generation : ℕ
  pub cancellation : Bool

pub record RetentionAdmission : Type 0 where
  pub token : RetentionToken
  pub kind : DuplicateKind

-- `Handle` of engine.hpp
pub record Handle : Type 0 where
  pub slot : ℕ
  pub generation : ℕ

-- An `AckRecord` of outcomes.hpp as the store sees it: the bytes of the object, which it copies,
-- and the member `cancellation`, which it reads. `ack_size` below is the size of the type.
pub record AckRecord : Type 0 where
  pub image : List ℕ
  pub cancellation : Bool

pub record Record : Type 0 where
  pub used : Bool
  pub active : Bool
  pub terminal : Bool
  pub offset : ℕ
  pub bytes : ℕ
  pub canonical : ℕ
  pub response_capacity : ℕ
  pub response_count : ℕ
  pub engine : Option Handle
  pub credits : AdmissionBundle

abbrev pub empty_record : Record
empty_record = record {
  used = false;
  active = false;
  terminal = false;
  offset = 0;
  bytes = 0;
  canonical = 0;
  response_capacity = 0;
  response_count = 0;
  engine = none;
  credits = no_bundle;
}

pub record Entry : Type 0 where
  pub generation : ℕ
  pub key : TransactionKey
  pub original : Record
  pub cancellation : Record
  pub references : ℕ
  pub expires : ℕ

abbrev pub empty_key : TransactionKey
empty_key = record {
  binding_generation = 0;
  peer = record { peer = 0; generation = 0 };
  stream_id = none;
  controller = absent_id;
  controllee = absent_id;
  message_id = 0;
}

abbrev pub empty_entry : Entry
empty_entry = record {
  generation = 1;
  key = empty_key;
  original = empty_record;
  cancellation = empty_record;
  references = 0;
  expires = 0;
}

-- `records[cancellation]` of an entry
abbrev pub record_of : Entry → Bool → Record
record_of e cancellation = if cancellation then e.cancellation else e.original

abbrev pub with_record : Entry → Bool → Record → Entry
with_record e cancellation r =
    if cancellation then record e { cancellation = r } else record e { original = r }

pub record RetentionStore : Type 0 where
  pub entries : List Entry
  pub bytes : List ℕ
  pub occupied : List ℕ
  pub placement_probes : ℕ
  pub admission : AdmissionPool

unfoldable pub new_store : ℕ → ℕ → AdmissionPool → RetentionStore
new_store entries byte_capacity admission = record {
  entries = replicate entries empty_entry;
  bytes = replicate byte_capacity 0;
  occupied = [];
  placement_probes = 0;
  admission = admission;
}

abbrev pub entry_at : RetentionStore → ℕ → Entry
entry_at s slot = get_or s.entries slot empty_entry

unfoldable pub indexed_record : List Entry → ℕ → Record
indexed_record entries id = record_of (get_or entries (id / 2) empty_entry) (id % 2 == 1)

abbrev pub record_id : ℕ → Bool → ℕ
record_id slot cancellation = slot * 2 + (if cancellation then 1 else 0)

abbrev pub set_entry : RetentionStore → ℕ → Entry → RetentionStore
set_entry s slot e = record s { entries = set s.entries slot e }

abbrev pub set_record : RetentionStore → ℕ → Bool → Record → RetentionStore
set_record s slot cancellation r = set_entry s slot (with_record (entry_at s slot) cancellation r)

-- `entry`: none where the code returns a null pointer
unfoldable pub entry : RetentionStore → RetentionToken → Option Entry
entry s token =
    let e = entry_at s token.slot in
    if leb (length s.entries) token.slot
    then none
    else if (record_of e token.cancellation).used && e.generation == token.generation
    then some e
    else none

-- The loop of `remove_extent`.
abbrev pub without : ℕ → List ℕ → List ℕ
without id [] = []
without id (i ∷ is) = let rest = without id is in if i == id then is else i ∷ rest

-- `remove_extent(r); r = Record{}` for a record of an entry; its credits go back to the pool.
unfoldable pub clear_record : RetentionStore → ℕ → Bool → RetentionStore
unfolding reset
clear_record s slot cancellation =
    let r = record_of (entry_at s slot) cancellation in
    let kept = if r.used then without (record_id slot cancellation) s.occupied else s.occupied in
    record (set_record s slot cancellation empty_record) {
      occupied = kept;
      admission = (reset s.admission r.credits).0;
    }

unfoldable pub erase : RetentionStore → ℕ → RetentionStore
unfolding clear_record
erase s slot =
    let t = clear_record (clear_record s slot false) slot true in
    let e = entry_at t slot in
    set_entry t slot (record e { references = 0; expires = 0; generation = add64 e.generation 1 })
