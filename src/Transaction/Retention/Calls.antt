-- ===== src/Transaction/Retention/Calls.antt =====
-- The extents of the store under its calls, in any order.
use vrt_framework.Prelude.{
  ℕ, zero, suc, ◌+◌, ◌*◌, ◌/◌, ◌%◌, ◌^◌, ◌≤◌, ◌<◌, ◌≡◌, refl, sym, ap, ◌∙◌, ◌≢◌, ◌⊎◌, Bool, true,
  false, Option, List, [], ◌∷◌, arith, ◌==◌, length, get_or, replicate, length-replicate,
}
use vrt_framework.Execution.Admission.{AdmissionPool}
use vrt_framework.Transaction.Retention.{
  TransactionKey, PacketView, RetentionToken, Handle, AckRecord, Entry, empty_entry, record_of,
  RetentionStore, indexed_record, new_store,
}
use vrt_framework.Transaction.Retention.Reserve.{replay_existing, reserve}
use vrt_framework.Transaction.Retention.Tokens.{
  bind, append, complete, retain, release, rollback, expire,
}
use vrt_framework.Transaction.Retention.Layout.{has, Laid-has, Laid-disjoint}
use vrt_framework.Transaction.Retention.Stored.{IsStored}
use vrt_framework.Transaction.Retention.Reserved.{reserve-IsStored, replay_existing-IsStored}
use vrt_framework.Transaction.Retention.Kept.{
  expire_loop-IsStored, bind-IsStored, append-IsStored, complete-IsStored, retain-IsStored,
  release-IsStored, rollback-IsStored,
}

-- A call of the store, with the arguments of the method.
pub data StoreCall : Type 0 where
  reserves : TransactionKey → PacketView → ℕ → StoreCall
  replays : TransactionKey → PacketView → StoreCall
  binds : RetentionToken → Option Handle → StoreCall
  appends : RetentionToken → AckRecord → StoreCall
  completes : RetentionToken → ℕ → StoreCall
  retains : RetentionToken → StoreCall
  releases : RetentionToken → StoreCall
  rolls_back : RetentionToken → StoreCall
  expires : ℕ → StoreCall

unfoldable pub call : ℕ → RetentionStore → StoreCall → RetentionStore
unfolding reserve replay_existing bind append complete retain release rollback expire
call ack_size s (reserves key packet responses) = (reserve s key packet responses ack_size).0
call ack_size s (replays key packet) = (replay_existing s key packet).0
call ack_size s (binds token handle) = (bind s token handle).0
call ack_size s (appends token ack) = (append s token ack_size ack).0
call ack_size s (completes token now) = (complete s token now).0
call ack_size s (retains token) = (retain s token).0
call ack_size s (releases token) = (release s token).0
call ack_size s (rolls_back token) = (rollback s token).0
call ack_size s (expires now) = expire s now

unfoldable pub run : ℕ → RetentionStore → List StoreCall → RetentionStore
unfolding call
run ack_size s [] = s
run ack_size s (c ∷ cs) = run ack_size (call ack_size s c) cs

pub call-IsStored :
    (ack_size : ℕ) (s : RetentionStore) (c : StoreCall) → IsStored s → IsStored (call ack_size s c)
unfolding call expire
call-IsStored ack_size s (reserves key packet responses) h =
    reserve-IsStored s key packet responses ack_size h
call-IsStored ack_size s (replays key packet) h = replay_existing-IsStored s key packet h
call-IsStored ack_size s (binds token handle) h = bind-IsStored s token handle h
call-IsStored ack_size s (appends token ack) h = append-IsStored s token ack_size ack h
call-IsStored ack_size s (completes token now) h = complete-IsStored s token now h
call-IsStored ack_size s (retains token) h = retain-IsStored s token h
call-IsStored ack_size s (releases token) h = release-IsStored s token h
call-IsStored ack_size s (rolls_back token) h = rollback-IsStored s token h
call-IsStored ack_size s (expires now) h =
    expire_loop-IsStored s now (length s.entries) 0 (omega arith) h

pub run-IsStored :
    (ack_size : ℕ) (s : RetentionStore) (cs : List StoreCall)
    → IsStored s
    → IsStored (run ack_size s cs)
unfolding run
run-IsStored ack_size s [] h = h
run-IsStored ack_size s (c ∷ cs) h =
    run-IsStored ack_size (call ack_size s c) cs (call-IsStored ack_size s c h)

pub get_or-replicate : (n i : ℕ) (e : Entry) → get_or (replicate n e) i e ≡ e
get_or-replicate zero i e = refl
get_or-replicate (suc n) zero e = refl
get_or-replicate (suc n) (suc i) e = get_or-replicate n i e

empty_record-used : (c : Bool) → (record_of empty_entry c).used ≡ false
empty_record-used true = refl
empty_record-used false = refl

pub new_store-IsStored :
    (entries byte_capacity : ℕ) (admission : AdmissionPool)
    → entries * 2 ≤ 2 ^ 32
    → byte_capacity < 2 ^ 64
    → IsStored (new_store entries byte_capacity admission)
unfolding IsStored new_store indexed_record
new_store-IsStored entries byte_capacity admission narrow small = record {
  laid = omega arith;
  known = λ id. sym (
      ap (λ e. (record_of e (id % 2 == 1)).used) (get_or-replicate entries (id / 2) empty_entry)
      ∙ empty_record-used (id % 2 == 1));
  narrow = omega (arith, narrow, length-replicate entries empty_entry);
  small = omega (arith, small, length-replicate {A = ℕ} byte_capacity 0);
}

-- Whatever the calls on a new store, with at most 2 ^ 31 entries and fewer than 2 ^ 64 bytes: a used
-- record has a nonempty extent within the bytes of the store, and the extents of two different
-- used records do not overlap.
pub run-separate :
    (entries byte_capacity ack_size : ℕ) (admission : AdmissionPool) (cs : List StoreCall) (a b : ℕ)
    → entries * 2 ≤ 2 ^ 32
    → byte_capacity < 2 ^ 64
    → (indexed_record (run ack_size (new_store entries byte_capacity admission) cs).entries a).used
      ≡ true
    → (indexed_record (run ack_size (new_store entries byte_capacity admission) cs).entries b).used
      ≡ true
    → a ≢ b
    → let s = run ack_size (new_store entries byte_capacity admission) cs in
      let x = indexed_record s.entries a in
      let y = indexed_record s.entries b in
      (0 < x.bytes)
      × (x.offset + x.bytes ≤ length s.bytes)
      × ((x.offset + x.bytes ≤ y.offset) ⊎ (y.offset + y.bytes ≤ x.offset))
unfolding IsStored
run-separate entries byte_capacity ack_size admission cs a b narrow small used_a used_b ne =
    let s = run ack_size (new_store entries byte_capacity admission) cs in
    let h : IsStored s =
      run-IsStored ack_size (new_store entries byte_capacity admission) cs
        (new_store-IsStored entries byte_capacity admission narrow small) in
    let f = indexed_record s.entries in
    let has_a : has a s.occupied ≡ true = h.known a ∙ used_a in
    let has_b : has b s.occupied ≡ true = h.known b ∙ used_b in
    let (low, some_bytes, high) = Laid-has f (length s.bytes) 0 s.occupied a h.laid has_a in
    (some_bytes, high, Laid-disjoint f (length s.bytes) 0 s.occupied a b h.laid has_a has_b ne)
