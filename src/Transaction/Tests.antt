-- ===== src/Transaction/Tests.antt =====
-- include/vita/runtime/transaction/retention.hpp at concrete inputs: a store of two entries and 32 bytes.
use vrt_framework.Prelude.{
  ℕ, ◌+◌, ◌≤◌, ◌<◌, ◌≡◌, refl, ◌⊎◌, true, false, none, some, List, [], ◌∷◌, arith, length, take,
}
use vrt_framework.Codec.Envelope.{absent_id, Envelope}
use vrt_framework.Execution.Admission.{AdmissionPool, new_pool}
use vrt_framework.Transaction.Retention.{
  TransactionKey, PacketView, RetentionToken, RetentionStore, AckRecord, indexed_record, new_store,
}
use vrt_framework.Transaction.Retention.Calls.{
  StoreCall, reserves, binds, appends, run, run-separate,
}
use vrt_framework.Core.Error.{ok}
use vrt_framework.Prelude.{inr}
use vrt_framework.Transaction.Retention.Tokens.{append, response, canonical}
use vrt_framework.Transaction.Retention.Reachable.{run-response, run-frame}
use vrt_framework.Prelude.{◌≤◌, ◌^◌, length}
use vrt_framework.Transaction.Observer.{ControllerObserver, Response, new_observer}
use vrt_framework.Transaction.Observer.Bounded
use vrt_framework.Transaction.Observer.Bounded.{
  ObserverEvent, sends, times_out, receives, AllTold, run-bounded,
}

abbrev plenty : AdmissionPool
plenty = new_pool (record { counts = λ i. 100; valid = true })

abbrev command : ℕ → Envelope
command id = record {
  type = 6;
  packet_count = 0;
  stream_id = some 1;
  class_id = none;
  timestamp = record { tsi = 0; tsf = 0; integer = 0; fractional = 0 };
  trailer = false;
  nd0 = false;
  spectrum = false;
  tsm = false;
  ack = false;
  cancel = false;
  command =
      some (record { cam = 0; message_id = id; controllee = absent_id; controller = absent_id });
}

abbrev packet : ℕ → PacketView
packet id = record { envelope = command id; wire = 104 ∷ 255 ∷ 0 ∷ id ∷ []; payload_offset = 3 }

abbrev key : ℕ → TransactionKey
key id = record {
  binding_generation = 1;
  peer = record { peer = 1; generation = 1 };
  stream_id = some 1;
  controller = absent_id;
  controllee = absent_id;
  message_id = id;
}

abbrev first_token : RetentionToken
first_token = record { slot = 0; generation = 1; cancellation = false }

abbrev ack : AckRecord
ack = record { image = 7 ∷ 8 ∷ []; cancellation = false }

abbrev calls : List StoreCall
calls =
    reserves (key 5) (packet 5) 3
    ∷ (reserves (key 6) (packet 6) 3 ∷ (binds first_token none ∷ (appends first_token ack ∷ [])))

abbrev kept_store : RetentionStore
kept_store = run 2 (new_store 2 32 plenty) calls

held_bytes : take 8 kept_store.bytes ≡ 104 ∷ 240 ∷ 0 ∷ 5 ∷ 7 ∷ 8 ∷ 0 ∷ 0 ∷ []
unfolding run new_store
held_bytes = refl

held_occupied : kept_store.occupied ≡ 0 ∷ 2 ∷ []
unfolding run new_store
held_occupied = refl

run-separate_example :
    (0 < (indexed_record kept_store.entries 0).bytes)
    × ((indexed_record kept_store.entries 0).offset + (indexed_record kept_store.entries 0).bytes
        ≤ length kept_store.bytes)
    × (((indexed_record kept_store.entries 0).offset + (indexed_record kept_store.entries 0).bytes
          ≤ (indexed_record kept_store.entries 2).offset)
        ⊎ ((indexed_record kept_store.entries 2).offset
              + (indexed_record kept_store.entries 2).bytes
            ≤ (indexed_record kept_store.entries 0).offset))
unfolding run indexed_record new_store
run-separate_example =
    run-separate 2 32 2 plenty calls 0 2 (omega arith) (omega arith) refl refl (omega arith)

abbrev nack : AckRecord
nack = record { image = 21 ∷ 22 ∷ []; cancellation = false }

abbrev second_token : RetentionToken
second_token = record { slot = 1; generation = 1; cancellation = false }

run-response_example :
    (response (append kept_store first_token 2 nack).0 first_token 2 1).1 ≡ ok (some (21 ∷ 22 ∷ []))
unfolding run new_store append
run-response_example =
    run-response 2 32 2 plenty calls (omega arith) (omega arith) first_token nack refl refl

run-frame_example :
    ((response (append kept_store first_token 2 nack).0 first_token 2 0).1
      ≡ (response kept_store first_token 2 0).1)
    × ((canonical (append kept_store first_token 2 nack).0 first_token).1
        ≡ (canonical kept_store first_token).1)
unfolding run new_store append
run-frame_example =
    run-frame 2 32 2 plenty calls (omega arith) (omega arith) first_token first_token 0 nack refl
      refl (inr (omega arith))

-- Two execution acknowledgements of one request, the second of which says that nothing was executed.
abbrev executed : ℕ → Response
executed flag = record {
  envelope = record (command 9) {
    ack = true;
    command = some (record {
      cam = 2 ^ 24 + 2 ^ 19 + flag;
      message_id = 9;
      controllee = absent_id;
      controller = absent_id;
    });
  };
  fields = [];
  requires_request_context = false;
  opaque = false;
}

abbrev observed_events : List ObserverEvent
observed_events =
    sends true ∷ (receives (executed 1024) ∷ (receives (executed 0) ∷ (times_out ∷ [])))

abbrev observer : ControllerObserver
observer = Bounded.run (new_observer 9) observed_events

observer_length : length observer.history ≡ 3
unfolding Bounded.run new_observer
observer_length = refl

run-bounded_example : (length observer.history ≤ 14) × AllTold observer.history
run-bounded_example = run-bounded 9 observed_events
