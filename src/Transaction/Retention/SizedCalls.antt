-- ===== src/Transaction/Retention/SizedCalls.antt =====
-- A reservation makes room for its responses, and so all calls keep the records sized.
use vrt_framework.Prelude.{
  ℕ, ◌+◌, ◌-◌, ◌*◌, ◌/◌, ◌^◌, ◌≤◌, ◌<◌, ◌≡◌, refl, subst, false, ◌&&◌, not, Option, none, some,
  List, [], ◌∷◌, arith, ltb, ◌==◌, if◌then◌else◌, has_value, add64, sub64, mul64, length,
}
use vrt_framework.Core.Error.{error, capacity_exhausted, invalid_state, Result, err}
use native.Mathlib.Nat.{div-mul-le_self, mul-le-mul_right}
use vrt_framework.Execution.Admission.{AdmissionPool, AdmissionBundle, no_request, need, acquire}
use vrt_framework.Transaction.Retention.{
  TransactionKey, PacketView, RetentionAdmission, record_of, with_record, RetentionStore, entry_at,
  set_entry, new_store,
}
use vrt_framework.Transaction.Retention.Reserve.{
  duplicate, same_canonical, fresh_record, store_record, Placement, place, reserve_slot, exceeds,
  reserve_new, reserve, free_slot, find_key, key_matches, ill_formed, replay_existing,
}
use vrt_framework.Transaction.Retention.Tokens.{expire}
use vrt_framework.Transaction.Retention.Stored.{IsStored}
use vrt_framework.Transaction.Retention.Reserved.{granted-keeps, stored_small}
use vrt_framework.Transaction.Retention.Kept.{either-keeps, either-split, found-keeps}
use vrt_framework.Transaction.Retention.Appended.{AllSized}
use vrt_framework.Transaction.Retention.Sized.{
  AllEntries, entry_sized, set_entry-sized, with_record-sized, relabelled-sized, bind-sized,
  append-sized, complete-sized, retain-sized, release-sized, rollback-sized, expire_loop-sized,
  AllEntries-AllSized, with_place-sized, with_pool-sized, new_store-sized, at_most_three,
}
use vrt_framework.Transaction.Retention.Calls.{
  StoreCall, reserves, replays, binds, appends, completes, retains, releases, rolls_back, expires,
  call, run, call-IsStored, new_store-IsStored, run-IsStored,
}

duplicate-sized :
    (n : ℕ) (s : RetentionStore) (packet : PacketView) (slot : ℕ)
    → AllEntries n s
    → AllEntries n (duplicate s packet slot).0
unfolding duplicate
duplicate-sized n s packet slot h =
    let e = entry_at s slot in
    let e' = record e { references = add64 e.references 1 } in
    let r = record_of e packet.envelope.cancel in
    either-keeps (AllEntries n) (not (r.canonical == length packet.wire)) _ _ h (
      either-keeps (AllEntries n) (not (same_canonical s.bytes r.offset packet r.canonical 0)) _ _ h
        (set_entry-sized n s slot e' (relabelled-sized n e e' refl refl (entry_sized n s slot h))
          h))

store_record-sized :
    (n : ℕ) (s : RetentionStore) (key : TransactionKey) (packet : PacketView)
    (responses required slot : ℕ) (p : Placement) (credits : AdmissionBundle)
    → responses ≤ 3
    → length packet.wire + responses * n ≤ required
    → AllEntries n s
    → AllEntries n (store_record s key packet responses required slot p credits).0
unfolding store_record
store_record-sized n s key packet responses required slot p credits few fits h =
    let e = entry_at s slot in
    let cancel = packet.envelope.cancel in
    let e' = record e { key = key; references = add64 e.references 1 } in
    let r =
      fresh_record (record_of e cancel) (length packet.wire) responses required p.offset credits in
    with_place-sized n (set_entry s slot (with_record e' cancel r)) _ _ _ (
      set_entry-sized n s slot (with_record e' cancel r)
        (with_record-sized n e' cancel r
          (relabelled-sized n e e' refl refl (entry_sized n s slot h))
          (λ used. record { room = fits; count = omega arith; few = few }))
        h)

exact_size :
    (capacity n responses ack_size : ℕ)
    → capacity < 2 ^ 64
    → ltb capacity n ≡ false
    → ltb (sub64 capacity n / ack_size) responses ≡ false
    → n + responses * ack_size ≤ add64 n (mul64 responses ack_size)
exact_size capacity n responses ack_size small room fits =
    let gap : sub64 capacity n ≡ capacity - n = ground (arith, small, room) in
    let bound : responses ≤ (capacity - n) / ack_size =
      subst (λ g. responses ≤ g / ack_size) gap (ground (arith, fits)) in
    let product : responses * ack_size ≤ capacity - n =
      omega (arith, mul-le-mul_right ack_size bound, div-mul-le_self (capacity - n) ack_size) in
    let n_fits : n ≤ capacity = ground (arith, room) in omega (arith, product, small, n_fits)

reserve_slot-sized :
    (n : ℕ) (s : RetentionStore) (key : TransactionKey) (packet : PacketView) (responses slot : ℕ)
    → responses ≤ 3
    → length packet.wire + responses * n ≤ add64 (length packet.wire) (mul64 responses n)
    → AllEntries n s
    → AllEntries n (reserve_slot s key packet responses n slot).0
unfolding reserve_slot
reserve_slot-sized n s key packet responses slot few exact h =
    let required = add64 (length packet.wire) (mul64 responses n) in
    let p = place s.entries required 0 s.occupied in
    let request = need (need no_request 6 (if packet.envelope.cancel then 0 else 1)) 7 required in
    let taken = acquire s.admission request in
    let t = record s { placement_probes = p.probes } in
    let u = record t { admission = taken.0 } in
    either-keeps (AllEntries n) (ltb (sub64 (length s.bytes) required) p.offset) _ _
      (with_pool-sized n s p.probes s.admission h)
      (granted-keeps (AllEntries n) taken.1 (λ e. (u, err e))
        (λ credits. store_record u key packet responses required slot p credits)
        (λ e. with_pool-sized n s p.probes taken.0 h)
        (λ credits.
          store_record-sized n u key packet responses required slot p credits few exact
            (with_pool-sized n s p.probes taken.0 h)))

reserve_new-sized :
    (n : ℕ) (s : RetentionStore) (key : TransactionKey) (packet : PacketView) (responses : ℕ)
    (found : Option ℕ)
    → responses ≤ 3
    → length s.bytes < 2 ^ 64
    → AllEntries n s
    → AllEntries n (reserve_new s key packet responses n found).0
unfolding reserve_new
reserve_new-sized n s key packet responses found few small h =
    let no_room = ltb (length s.bytes) (length packet.wire) in
    let no_fit = ltb (sub64 (length s.bytes) (length packet.wire) / n) responses in
    either-keeps (AllEntries n) (packet.envelope.cancel && not (has_value found)) _ _ h (
      either-split (AllEntries n) (exceeds s packet responses n) _ _ (λ refused. h)
        λ room.
          let enough : no_room ≡ false = ground (arith, room) in
          let fits : no_fit ≡ false = ground (arith, room) in
          let exact =
            exact_size (length s.bytes) (length packet.wire) responses n small enough fits in
          found-keeps (AllEntries n) found
            (elim (free_slot s.entries 0) as (λ x. RetentionStore × Result RetentionAdmission) [
              | none ↦ (s, err (error capacity_exhausted))
              | some slot ↦ reserve_slot s key packet responses n slot
            ])
            (reserve_slot s key packet responses n)
            (λ nothing.
              found-keeps (AllEntries n) (free_slot s.entries 0) (s, err (error capacity_exhausted))
                (reserve_slot s key packet responses n) (λ full. h)
                (λ slot free. reserve_slot-sized n s key packet responses slot few exact h))
            (λ slot here. reserve_slot-sized n s key packet responses slot few exact h))

reserve-sized :
    (n : ℕ) (s : RetentionStore) (key : TransactionKey) (packet : PacketView) (responses : ℕ)
    → length s.bytes < 2 ^ 64
    → AllEntries n s
    → AllEntries n (reserve s key packet responses n).0
unfolding reserve
reserve-sized n s key packet responses small h =
    either-split (AllEntries n) (ill_formed key packet responses) _ _ (λ refused. h)
      λ well_formed. either-keeps (AllEntries n) (not (key_matches key packet)) _ _ h (
        let few : responses ≤ 3 =
          at_most_three packet.envelope.cancel responses (ground (arith, well_formed)) in
        found-keeps (AllEntries n) (find_key s.entries key 0)
          (reserve_new s key packet responses n none) _
          (λ nothing. reserve_new-sized n s key packet responses none few small h)
          (λ slot here.
            either-keeps (AllEntries n) (record_of (entry_at s slot) packet.envelope.cancel).used _
              _ (duplicate-sized n s packet slot h)
              (reserve_new-sized n s key packet responses (some slot) few small h)))

replay_existing-sized :
    (n : ℕ) (s : RetentionStore) (key : TransactionKey) (packet : PacketView)
    → AllEntries n s
    → AllEntries n (replay_existing s key packet).0
unfolding replay_existing
replay_existing-sized n s key packet h = either-keeps (AllEntries n) _ _ _ h (
    either-keeps (AllEntries n) (not (key_matches key packet)) _ _ h (
      found-keeps (AllEntries n) (find_key s.entries key 0) (s, err (error invalid_state)) _
        (λ nothing. h)
        (λ slot here.
          let e = entry_at s slot in
          either-keeps (AllEntries n) (not (record_of e packet.envelope.cancel).used) _ _ h
            (either-keeps (AllEntries n) _ _ _ h (duplicate-sized n s packet slot h)))))

call-sized :
    (n : ℕ) (s : RetentionStore) (c : StoreCall)
    → IsStored s
    → AllEntries n s
    → AllEntries n (call n s c)
unfolding call expire
call-sized n s (reserves key packet responses) stored h =
    reserve-sized n s key packet responses (stored_small s stored) h
call-sized n s (replays key packet) stored h = replay_existing-sized n s key packet h
call-sized n s (binds token handle) stored h = bind-sized n s token handle h
call-sized n s (appends token ack) stored h = append-sized n s token ack h
call-sized n s (completes token now) stored h = complete-sized n s token now h
call-sized n s (retains token) stored h = retain-sized n s token h
call-sized n s (releases token) stored h = release-sized n s token h
call-sized n s (rolls_back token) stored h = rollback-sized n s token h
call-sized n s (expires now) stored h = expire_loop-sized n s now (length s.entries) 0 h

run-sized :
    (n : ℕ) (s : RetentionStore) (cs : List StoreCall)
    → IsStored s
    → AllEntries n s
    → AllEntries n (run n s cs)
unfolding run
run-sized n s [] stored h = h
run-sized n s (c ∷ cs) stored h =
    run-sized n (call n s c) cs (call-IsStored n s c stored) (call-sized n s c stored h)

-- Every store that calls lead to from a new one keeps its records apart, with room for their responses.
pub run-AllSized :
    (entries byte_capacity ack_size : ℕ) (admission : AdmissionPool) (cs : List StoreCall)
    → entries * 2 ≤ 2 ^ 32
    → byte_capacity < 2 ^ 64
    → IsStored (run ack_size (new_store entries byte_capacity admission) cs)
      × AllSized ack_size (run ack_size (new_store entries byte_capacity admission) cs).entries
run-AllSized entries byte_capacity ack_size admission cs narrow small =
    let new = new_store entries byte_capacity admission in
    let stored : IsStored new = new_store-IsStored entries byte_capacity admission narrow small in
    (
      run-IsStored ack_size new cs stored,
      AllEntries-AllSized ack_size (run ack_size new cs) (
          run-sized ack_size new cs stored
            (new_store-sized ack_size entries byte_capacity admission)),
    )
