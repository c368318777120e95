-- ===== src/Transaction/Retention/Reachable.antt =====
-- What callers may rely on in every store that calls lead to from a new one.
use vrt_framework.Prelude.{ℕ, ◌*◌, ◌^◌, ◌≤◌, ◌<◌, ◌≡◌, ◌≢◌, ◌⊎◌, true, some, List, length}
use vrt_framework.Core.Error.{ok, is_ok}
use vrt_framework.Execution.Admission.{AdmissionPool}
use vrt_framework.Transaction.Retention.{RetentionToken, AckRecord, new_store, record_id}
use vrt_framework.Transaction.Retention.Tokens.{append, response, canonical}
use vrt_framework.Transaction.Retention.Views.{record_at}
use vrt_framework.Transaction.Retention.Responses.{response-append, append-frame}
use vrt_framework.Transaction.Retention.Calls.{StoreCall, run}
use vrt_framework.Transaction.Retention.SizedCalls.{run-AllSized}

module _ (entries byte_capacity ack_size : ℕ) (admission : AdmissionPool) (cs : List StoreCall)
    (narrow : entries * 2 ≤ 2 ^ 32) (small : byte_capacity < 2 ^ 64) where
  -- Whatever the calls on a new store, with at most 2 ^ 31 entries and fewer than 2 ^ 64 bytes: after
  -- `append` accepts an acknowledgement, `response` at the index that was free returns its bytes.
  pub run-response :
      (token : RetentionToken) (ack : AckRecord)
      → length ack.image ≡ ack_size
      → is_ok
          (append
            (run ack_size (new_store entries byte_capacity admission) cs)
            token
            ack_size
            ack).1
        ≡ true
      → let s = run ack_size (new_store entries byte_capacity admission) cs in
        (response
          (append s token ack_size ack).0
          token
          ack_size
          (record_at s token).response_count).1
        ≡ ok (some ack.image)
  run-response token ack size accepted =
      let (stored, sized) = run-AllSized entries byte_capacity ack_size admission cs narrow small in
      response-append (run ack_size (new_store entries byte_capacity admission) cs) token ack_size
        ack stored sized size accepted

  -- Whatever the calls on a new store, with at most 2 ^ 31 entries and fewer than 2 ^ 64 bytes: an
  -- acknowledgement that `append` accepts changes no canonical bytes, and no response of another
  -- record or at another index than the one that was free, for any token.
  pub run-frame :
      (token other : RetentionToken) (index : ℕ) (ack : AckRecord)
      → length ack.image ≡ ack_size
      → is_ok
          (append
            (run ack_size (new_store entries byte_capacity admission) cs)
            token
            ack_size
            ack).1
        ≡ true
      → (record_id other.slot other.cancellation ≢ record_id token.slot token.cancellation)
        ⊎ (index
            ≢ (record_at
                (run ack_size (new_store entries byte_capacity admission) cs)
                token).response_count)
      → let s = run ack_size (new_store entries byte_capacity admission) cs in
        ((response (append s token ack_size ack).0 other ack_size index).1
          ≡ (response s other ack_size index).1)
        × ((canonical (append s token ack_size ack).0 other).1 ≡ (canonical s other).1)
  run-frame token other index ack size accepted differs =
      let (stored, sized) = run-AllSized entries byte_capacity ack_size admission cs narrow small in
      append-frame (run ack_size (new_store entries byte_capacity admission) cs) token other
        ack_size index ack stored sized size accepted differs
