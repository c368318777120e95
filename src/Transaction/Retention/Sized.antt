-- ===== src/Transaction/Retention/Sized.antt =====
-- The calls of the store keep in every used record room for its canonical bytes and its responses.
use vrt_framework.Prelude.{
  ℕ, zero, suc, ◌+◌, ◌-◌, ◌*◌, ◌/◌, ◌%◌, ◌≤◌, ◌≡◌, refl, sym, subst, Bool, true, false, ◌&&◌, ◌||◌,
  not, Option, none, List, arith, ltb, ◌==◌, if◌then◌else◌, if-both, eq_bool, add64, length, get_or,
}
use vrt_framework.Execution.Admission.{AdmissionPool}
use vrt_framework.Transaction.Retention.{
  RetentionToken, Handle, Record, Entry, AckRecord, empty_record, empty_entry, record_of,
  with_record, RetentionStore, entry_at, indexed_record, set_entry, set_record, clear_record, erase,
  new_store,
}
use vrt_framework.Transaction.Retention.Tokens.{
  bind, append, complete, expiry, retain, release, rollback, is_expired, expire_loop,
}
use vrt_framework.Transaction.Retention.Stored.{get_or-set}
use vrt_framework.Transaction.Retention.Calls.{get_or-replicate}
use vrt_framework.Transaction.Retention.Kept.{either-keeps, either-split, at_entry-keeps}
use vrt_framework.Transaction.Retention.Appended.{IsSized, AllSized}

-- The records of an entry that are used have room.
abbrev pub EntrySized : ℕ → Entry → Type 0
EntrySized n e = (c : Bool) → (record_of e c).used ≡ true → IsSized n (record_of e c)

pub AllEntries : ℕ → RetentionStore → Type 0
AllEntries n s = (slot : ℕ) → EntrySized n (get_or s.entries slot empty_entry)

pub AllEntries-AllSized : (n : ℕ) (s : RetentionStore) → AllEntries n s → AllSized n s.entries
unfolding AllEntries indexed_record
AllEntries-AllSized n s h id used = h (id / 2) (id % 2 == 1) used

pub set_entry-sized :
    (n : ℕ) (s : RetentionStore) (slot : ℕ) (e : Entry)
    → EntrySized n e
    → AllEntries n s
    → AllEntries n (set_entry s slot e)
unfolding AllEntries
set_entry-sized n s slot e new h other =
    subst (EntrySized n) (sym (get_or-set s.entries slot other e empty_entry))
      (if-both (EntrySized n) (slot == other && ltb slot (length s.entries)) new (h other))

pub with_record-sized :
    (n : ℕ) (e : Entry) (c : Bool) (r : Record)
    → EntrySized n e
    → (r.used ≡ true → IsSized n r)
    → EntrySized n (with_record e c r)
with_record-sized n e true r old new true = new
with_record-sized n e true r old new false = old false
with_record-sized n e false r old new true = old true
with_record-sized n e false r old new false = new

pub relabelled-sized :
    (n : ℕ) (e e' : Entry)
    → e.original ≡ e'.original
    → e.cancellation ≡ e'.cancellation
    → EntrySized n e
    → EntrySized n e'
relabelled-sized n e e' o c h true = subst (λ r. r.used ≡ true → IsSized n r) c (h true)
relabelled-sized n e e' o c h false = subst (λ r. r.used ≡ true → IsSized n r) o (h false)

pub unused-IsSized : (n : ℕ) → empty_record.used ≡ true → IsSized n empty_record
unused-IsSized n h = absurd (ground (arith, h))

pub entry_sized :
    (n : ℕ) (s : RetentionStore) (slot : ℕ) → AllEntries n s → EntrySized n (entry_at s slot)
unfolding AllEntries
entry_sized n s slot h = h slot

pub with_bytes-sized :
    (n : ℕ) (s : RetentionStore) (bytes : List ℕ)
    → AllEntries n s
    → AllEntries n (record s { bytes = bytes })
unfolding AllEntries
with_bytes-sized n s bytes h = h

resized :
    (n : ℕ) (r r' : Record)
    → r.canonical ≡ r'.canonical
    → r.response_capacity ≡ r'.response_capacity
    → r.bytes ≡ r'.bytes
    → r.response_count ≡ r'.response_count
    → IsSized n r
    → IsSized n r'
resized n r r' c m b k h = record {
  room = subst (λ x. r'.canonical + x * n ≤ r'.bytes) m (omega (arith, h.room, c, b));
  count = omega (arith, h.count, m, k);
  few = omega (arith, h.few, m);
}

pub clear_record-sized :
    (n : ℕ) (s : RetentionStore) (slot : ℕ) (c : Bool)
    → AllEntries n s
    → AllEntries n (clear_record s slot c)
unfolding clear_record AllEntries
clear_record-sized n s slot c h =
    set_entry-sized n s slot _
      (with_record-sized n (entry_at s slot) c empty_record (h slot) (unused-IsSized n)) h

pub erase-sized :
    (n : ℕ) (s : RetentionStore) (slot : ℕ) → AllEntries n s → AllEntries n (erase s slot)
unfolding erase AllEntries
erase-sized n s slot h =
    let u = clear_record (clear_record s slot false) slot true in
    let kept : AllEntries n u =
      clear_record-sized n (clear_record s slot false) slot true
        (clear_record-sized n s slot false h) in
    let e = entry_at u slot in
    let e' = record e { references = 0; expires = 0; generation = add64 e.generation 1 } in
    set_entry-sized n u slot e' (relabelled-sized n e e' refl refl (kept slot)) kept

pub bind-sized :
    (n : ℕ) (s : RetentionStore) (token : RetentionToken) (handle : Option Handle)
    → AllEntries n s
    → AllEntries n (bind s token handle).0
unfolding bind
bind-sized n s token handle h = at_entry-keeps (AllEntries n) s token _ h λ within.
    let e = entry_at s token.slot in
    let r = record_of e token.cancellation in
    let r' = record r { active = true; engine = handle } in
    either-keeps (AllEntries n) (r.active || r.terminal) _ _ h (
      set_entry-sized n s token.slot _
        (with_record-sized n e token.cancellation r' (entry_sized n s token.slot h) (λ used.
          resized n r r' refl refl refl refl
            (entry_sized n s token.slot h token.cancellation used)))
        h)

pub append-sized :
    (n : ℕ) (s : RetentionStore) (token : RetentionToken) (ack : AckRecord)
    → AllEntries n s
    → AllEntries n (append s token n ack).0
unfolding append
append-sized n s token ack h = at_entry-keeps (AllEntries n) s token _ h λ within.
    let e = entry_at s token.slot in
    let r = record_of e token.cancellation in
    let r' = record r { response_count = add64 r.response_count 1 } in
    either-keeps (AllEntries n)
      (not r.active || r.terminal || not (eq_bool ack.cancellation token.cancellation)) _ _ h
      (either-split (AllEntries n) (r.response_count == r.response_capacity) _ _ (λ full. h)
        λ room. with_bytes-sized n (set_record s token.slot token.cancellation r') _ (
          set_entry-sized n s token.slot _
            (with_record-sized n e token.cancellation r' (entry_sized n s token.slot h) (λ used.
              let old = entry_sized n s token.slot h token.cancellation used in
              let fits = old.room in
              let at_most = old.count in
              let few = old.few in
              record { room = fits; count = ground (arith, at_most, few, room); few = few }))
            h))

pub complete-sized :
    (n : ℕ) (s : RetentionStore) (token : RetentionToken) (now : ℕ)
    → AllEntries n s
    → AllEntries n (complete s token now).0
unfolding complete
complete-sized n s token now h = at_entry-keeps (AllEntries n) s token _ h λ within.
    let e = entry_at s token.slot in
    let e' = record e { expires = expiry now e.expires } in
    let r = record_of e token.cancellation in
    let r' = record r { terminal = true; active = false; engine = none } in
    either-keeps (AllEntries n) (not r.active || r.terminal) _ _ h (
      set_entry-sized n s token.slot _
        (with_record-sized n e' token.cancellation r'
          (relabelled-sized n e e' refl refl (entry_sized n s token.slot h))
          (λ used.
            resized n r r' refl refl refl refl
              (entry_sized n s token.slot h token.cancellation used)))
        h)

pub retain-sized :
    (n : ℕ) (s : RetentionStore) (token : RetentionToken)
    → AllEntries n s
    → AllEntries n (retain s token).0
unfolding retain
retain-sized n s token h = at_entry-keeps (AllEntries n) s token _ h λ within.
    let e = entry_at s token.slot in
    let e' = record e { references = add64 e.references 1 } in
    set_entry-sized n s token.slot e'
      (relabelled-sized n e e' refl refl (entry_sized n s token.slot h)) h

pub release-sized :
    (n : ℕ) (s : RetentionStore) (token : RetentionToken)
    → AllEntries n s
    → AllEntries n (release s token).0
unfolding release
release-sized n s token h = at_entry-keeps (AllEntries n) s token _ h λ within.
    let e = entry_at s token.slot in
    let e' = record e { references = e.references - 1 } in
    let t = set_entry s token.slot e' in
    let kept : AllEntries n t =
      set_entry-sized n s token.slot e'
        (relabelled-sized n e e' refl refl (entry_sized n s token.slot h)) h in
    either-keeps (AllEntries n) (e.references == 0) _ _ h
      (if-both (AllEntries n) _ (erase-sized n t token.slot kept) kept)

pub rollback-sized :
    (n : ℕ) (s : RetentionStore) (token : RetentionToken)
    → AllEntries n s
    → AllEntries n (rollback s token).0
unfolding rollback
rollback-sized n s token h = at_entry-keeps (AllEntries n) s token _ h λ within.
    let e = entry_at s token.slot in
    let r = record_of e token.cancellation in
    let t = clear_record s token.slot token.cancellation in
    let f = entry_at t token.slot in
    let e' = record f { references = e.references - 1 } in
    let u = set_entry t token.slot e' in
    let cleared : AllEntries n t = clear_record-sized n s token.slot token.cancellation h in
    let kept : AllEntries n u =
      set_entry-sized n t token.slot e'
        (relabelled-sized n f e' refl refl (entry_sized n t token.slot cleared)) cleared in
    either-keeps (AllEntries n) (e.references == 0) _ _ h (
      either-keeps (AllEntries n) (r.active || r.terminal) _ _ h
        (if-both (AllEntries n) token.cancellation kept (erase-sized n u token.slot kept)))

pub expire_loop-sized :
    (n : ℕ) (s : RetentionStore) (now left slot : ℕ)
    → AllEntries n s
    → AllEntries n (expire_loop s now left slot)
expire_loop-sized n s now zero slot h = h
expire_loop-sized n s now (suc left) slot h =
    let expired = is_expired now (entry_at s slot) in
    expire_loop-sized n (if expired then erase s slot else s) now left (suc slot)
      (if-both (AllEntries n) expired (erase-sized n s slot h) h)

pub with_place-sized :
    (n : ℕ) (s : RetentionStore) (bytes occupied : List ℕ) (admission : AdmissionPool)
    → AllEntries n s
    → AllEntries n (record s { bytes = bytes; occupied = occupied; admission = admission })
unfolding AllEntries
with_place-sized n s bytes occupied admission h = h

pub with_pool-sized :
    (n : ℕ) (s : RetentionStore) (probes : ℕ) (admission : AdmissionPool)
    → AllEntries n s
    → AllEntries n (record s { placement_probes = probes; admission = admission })
unfolding AllEntries
with_pool-sized n s probes admission h = h

empty_entry-sized : (n : ℕ) → EntrySized n empty_entry
empty_entry-sized n true used = absurd (ground (arith, used))
empty_entry-sized n false used = absurd (ground (arith, used))

pub new_store-sized :
    (n entries byte_capacity : ℕ) (admission : AdmissionPool)
    → AllEntries n (new_store entries byte_capacity admission)
unfolding AllEntries new_store
new_store-sized n entries byte_capacity admission slot =
    subst (EntrySized n) (sym (get_or-replicate entries slot empty_entry)) (empty_entry-sized n)

pub at_most_three :
    (cancel : Bool) (responses : ℕ)
    → ltb (if cancel then 2 else 3) responses ≡ false
    → responses ≤ 3
at_most_three true responses h = ground (arith, h)
at_most_three false responses h = ground (arith, h)
