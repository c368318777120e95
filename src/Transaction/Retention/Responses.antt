-- ===== src/Transaction/Retention/Responses.antt =====
-- What the store returns after a response is appended.
use vrt_framework.Prelude.{
  ℕ, ◌<◌, ◌≡◌, sym, ap, ◌∙◌, ◌≢◌, ◌⊎◌, true, false, some, arith, leb, ◌==◌, ==_refl, if-true,
  if-false, add64, length,
}
use vrt_framework.Core.Error.{ok, is_ok}
use vrt_framework.Transaction.Retention.{RetentionToken, AckRecord, RetentionStore, record_id}
use vrt_framework.Transaction.Retention.Tokens.{response_offset, append, response, canonical}
use vrt_framework.Transaction.Retention.Stored.{IsStored}
use vrt_framework.Transaction.Retention.Copies.{slice, slice-copy_at}
use vrt_framework.Transaction.Retention.Views.{
  record_at, response_in, response_lem, counted, appended, append-ok,
}
use vrt_framework.Transaction.Retention.Appended.{
  AllSized, response_end, record_after, valid_after, room_at, used_r, inside, canonical_kept,
  response_kept,
}

free_place :
    (s : RetentionStore) (token : RetentionToken) (ack_size : ℕ) (ack : AckRecord)
    → IsStored s
    → AllSized ack_size s.entries
    → is_ok (append s token ack_size ack).1 ≡ true
    → (record_at s token).response_count < (record_at s token).response_capacity
free_place s token ack_size ack stored sized accepted =
    let (valid, room, _) = append-ok s token ack_size ack accepted in
    let h =
      room_at s token ack_size ack stored sized valid token
        (used_r s token ack_size ack stored sized valid) in
    let at_most = h.count in omega (arith, at_most, room)

-- In a store where every used record has room for its canonical bytes and for at most three responses
-- of the size of an acknowledgement, an acknowledgement that `append` accepts is the one that
-- `response` returns at the index that was free.
pub response-append :
    (s : RetentionStore) (token : RetentionToken) (ack_size : ℕ) (ack : AckRecord)
    → IsStored s
    → AllSized ack_size s.entries
    → length ack.image ≡ ack_size
    → is_ok (append s token ack_size ack).1 ≡ true
    → (response (append s token ack_size ack).0 token ack_size (record_at s token).response_count).1
      ≡ ok (some ack.image)
response-append s token ack_size ack stored sized size accepted =
    let (valid, room, same) = append-ok s token ack_size ack accepted in
    let r = record_at s token in
    let t = appended s token ack_size ack in
    let n = r.response_count in
    let id = record_id token.slot token.cancellation in
    let more = free_place s token ack_size ack stored sized accepted in
    let h =
      room_at s token ack_size ack stored sized valid token
        (used_r s token ack_size ack stored sized valid) in
    let few = h.few in
    let end = response_end ack_size n r h more in
    let within = inside s token ack_size ack stored sized valid in
    let past : leb (add64 n 1) n ≡ false = ground (arith, few, more) in
    ap (λ u. (response u token ack_size n).1) same
    ∙ response_lem t token ack_size n
    ∙ ap (λ b. response_in b (record_at t token) ack_size n t.bytes)
        (valid_after s token ack_size ack stored sized valid token ∙ valid)
    ∙ ap (λ y. response_in true y ack_size n t.bytes)
        (record_after s token ack_size ack stored sized valid token
          ∙ if-true (id == id) (counted r) r (==_refl id))
    ∙ if-false (leb (add64 n 1) n) _ _ past
    ∙ ap (λ k. ok (some (slice k (response_offset r ack_size n) t.bytes))) (sym size)
    ∙ ap (λ y. ok (some y))
        (slice-copy_at s.bytes (response_offset r ack_size n) ack.image
          (omega (arith, end, within, size)))

-- In such a store, an acknowledgement that `append` accepts changes no canonical bytes, and no response
-- of another record or at another index, for any token.
pub append-frame :
    (s : RetentionStore) (token other : RetentionToken) (ack_size index : ℕ) (ack : AckRecord)
    → IsStored s
    → AllSized ack_size s.entries
    → length ack.image ≡ ack_size
    → is_ok (append s token ack_size ack).1 ≡ true
    → (record_id other.slot other.cancellation ≢ record_id token.slot token.cancellation)
      ⊎ (index ≢ (record_at s token).response_count)
    → ((response (append s token ack_size ack).0 other ack_size index).1
        ≡ (response s other ack_size index).1)
      × ((canonical (append s token ack_size ack).0 other).1 ≡ (canonical s other).1)
append-frame s token other ack_size index ack stored sized size accepted differs =
    let (valid, room, same) = append-ok s token ack_size ack accepted in
    let more = free_place s token ack_size ack stored sized accepted in
    (
      ap (λ u. (response u other ack_size index).1) same
          ∙ response_kept s token ack_size ack stored sized valid other index size more differs,
      ap (λ u. (canonical u other).1) same
          ∙ canonical_kept s token ack_size ack stored sized valid other size more,
    )
