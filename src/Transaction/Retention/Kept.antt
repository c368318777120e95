-- ===== src/Transaction/Retention/Kept.antt =====
-- The operations of a token keep the extents of the store in order and apart.
use vrt_framework.Prelude.{
  ℕ, zero, suc, ◌+◌, ◌-◌, ◌≤◌, ◌<◌, ◌≡◌, refl, sym, ◌∙◌, subst, Bool, true, false, ◌&&◌, ◌||◌, not,
  Option, none, some, List, [], ◌∷◌, arith, leb, ◌==◌, if◌then◌else◌, if-both, if-split, add64,
  length, set, length-set,
}
use vrt_framework.Core.Error.{error, stale_generation, Result, err}
use vrt_framework.Transaction.Retention.{
  canonical_command_byte, PacketView, RetentionToken, Handle, AckRecord, Record, Entry, record_of,
  with_record, RetentionStore, entry_at, set_entry, set_record, entry, clear_record, erase,
}
use vrt_framework.Transaction.Retention.Reserve.{write_canonical}
use vrt_framework.Transaction.Retention.Tokens.{
  at_entry, bind, copy_at, response_offset, append, complete, expiry, retain, release, rollback,
  is_expired, expire_loop,
}
use vrt_framework.Transaction.Retention.Stored.{
  IsStored, SameRecord, set_entry-IsStored, with_bytes-IsStored,
}
use vrt_framework.Transaction.Retention.Moved.{clear_laid}

keep_with :
    (e e' : Entry) (c : Bool) (r : Record)
    → ((d : Bool) → record_of e' d ≡ record_of e d)
    → SameRecord (record_of e c) r
    → (d : Bool) → SameRecord (record_of e d) (record_of (with_record e' c r) d)
keep_with e e' true r same h true = h
keep_with e e' true r same h false =
    subst (SameRecord e.original) (sym (same false)) (refl, (refl, refl))
keep_with e e' false r same h true =
    subst (SameRecord e.cancellation) (sym (same true)) (refl, (refl, refl))
keep_with e e' false r same h false = h

renamed : (e : Entry) (n : ℕ) (d : Bool) → record_of (record e { expires = n }) d ≡ record_of e d
renamed e n true = refl
renamed e n false = refl

same_self : (r : Record) → SameRecord r r
same_self r = (refl, (refl, refl))

pub relabelled :
    (e e' : Entry)
    → e.original ≡ e'.original
    → e.cancellation ≡ e'.cancellation
    → (d : Bool) → SameRecord (record_of e d) (record_of e' d)
relabelled e e' o c true = subst (SameRecord e.cancellation) c (same_self e.cancellation)
relabelled e e' o c false = subst (SameRecord e.original) o (same_self e.original)

pub either-keeps {ℓ} :
    {A : Type ℓ} (P : RetentionStore → Type 0) (b : Bool) (x y : RetentionStore × Result A)
    → P x.0
    → P y.0
    → P (if b then x else y).0
either-keeps P true x y p q = p
either-keeps P false x y p q = q

pub either-split {ℓ} :
    {A : Type ℓ} (P : RetentionStore → Type 0) (b : Bool) (x y : RetentionStore × Result A)
    → (b ≡ true → P x.0)
    → (b ≡ false → P y.0)
    → P (if b then x else y).0
either-split P true x y p q = p refl
either-split P false x y p q = q refl

pub found-keeps {ℓ} :
    {A : Type ℓ} (P : RetentionStore → Type 0) (o : Option ℕ) (x : RetentionStore × Result A)
    (f : ℕ → RetentionStore × Result A)
    → (o ≡ none → P x.0)
    → ((slot : ℕ) → o ≡ some slot → P (f slot).0)
    → P (elim o as (λ x. RetentionStore × Result A) [ none ↦ x | some slot ↦ f slot ]).0
found-keeps P none x f p q = p refl
found-keeps P (some slot) x f p q = q slot refl

-- An operation of a token keeps what it keeps where the token has an entry.
pub at_entry-keeps {ℓ} :
    {A : Type ℓ} (P : RetentionStore → Type 0) (s : RetentionStore) (token : RetentionToken)
    (k : Entry → RetentionStore × Result A)
    → P s
    → (token.slot < length s.entries → P (k (entry_at s token.slot)).0)
    → P (at_entry s token k).0
unfolding entry
at_entry-keeps {A = A} P s token k h step =
    let Q : Option Entry → Type 0 = λ o.
      P
        (elim o as (λ x. RetentionStore × Result A) [
          | none ↦ (s, err (error stale_generation))
          | some e ↦ k e
        ]).0 in
    let e = entry_at s token.slot in
    let valid = (record_of e token.cancellation).used && e.generation == token.generation in
    if-split Q (leb (length s.entries) token.slot) {x = none} {y = if valid then some e else none}
      (λ beyond. h)
      (λ within. if-both Q valid {x = some e} {y = none} (step (ground (arith, within))) h)

clear_record-IsStored :
    (s : RetentionStore) (slot : ℕ) (c : Bool)
    → slot < length s.entries
    → IsStored s
    → IsStored (clear_record s slot c)
unfolding clear_record IsStored
clear_record-IsStored s slot c within h =
    clear_laid s.entries (length s.bytes) s.occupied slot c within h

length-clear_record :
    (s : RetentionStore) (slot : ℕ) (c : Bool)
    → length (clear_record s slot c).entries ≡ length s.entries
unfolding clear_record
length-clear_record s slot c = length-set s.entries slot _

length-copy_at :
    (bytes : List ℕ) (offset : ℕ) (image : List ℕ)
    → length (copy_at bytes offset image) ≡ length bytes
length-copy_at bytes offset [] = refl
length-copy_at bytes offset (b ∷ bs) =
    length-copy_at (set bytes offset b) (suc offset) bs ∙ length-set bytes offset b

pub length-write_canonical :
    (bytes : List ℕ) (offset : ℕ) (packet : PacketView) (n b : ℕ)
    → length (write_canonical bytes offset packet n b) ≡ length bytes
length-write_canonical bytes offset packet zero b = refl
length-write_canonical bytes offset packet (suc n) b =
    length-write_canonical (set bytes (offset + b) (canonical_command_byte packet b)) offset packet
      n (suc b)
    ∙ length-set bytes (offset + b) _

erase-IsStored :
    (s : RetentionStore) (slot : ℕ) → slot < length s.entries → IsStored s → IsStored (erase s slot)
unfolding erase
erase-IsStored s slot within h =
    let t = clear_record s slot false in
    let in_t : slot < length t.entries = omega (arith, within, length-clear_record s slot false) in
    let u = clear_record t slot true in
    let e = entry_at u slot in
    let e' = record e { references = 0; expires = 0; generation = add64 e.generation 1 } in
    set_entry-IsStored u slot e' (relabelled e e' refl refl)
      (clear_record-IsStored t slot true in_t (clear_record-IsStored s slot false within h))

length-erase : (s : RetentionStore) (slot : ℕ) → length (erase s slot).entries ≡ length s.entries
unfolding erase
length-erase s slot =
    let t = clear_record s slot false in
    length-set (clear_record t slot true).entries slot _
    ∙ length-clear_record t slot true
    ∙ length-clear_record s slot false

pub expire_loop-IsStored :
    (s : RetentionStore) (now n slot : ℕ)
    → slot + n ≤ length s.entries
    → IsStored s
    → IsStored (expire_loop s now n slot)
expire_loop-IsStored s now zero slot room h = h
expire_loop-IsStored s now (suc n) slot room h =
    let expired = is_expired now (entry_at s slot) in
    let next = if expired then erase s slot else s in
    let same : length next.entries ≡ length s.entries =
      if-both (λ (t : RetentionStore). length t.entries ≡ length s.entries) expired
        (length-erase s slot) refl in
    expire_loop-IsStored (if expired then erase s slot else s) now n (suc slot)
      (omega (arith, room, same))
      (if-both IsStored expired (erase-IsStored s slot (omega (arith, room)) h) h)

pub bind-IsStored :
    (s : RetentionStore) (token : RetentionToken) (handle : Option Handle)
    → IsStored s
    → IsStored (bind s token handle).0
unfolding bind
bind-IsStored s token handle h = at_entry-keeps IsStored s token _ h λ within.
    let e = entry_at s token.slot in
    let r = record_of e token.cancellation in
    either-keeps IsStored (r.active || r.terminal) _ _ h (
      set_entry-IsStored s token.slot _
        (keep_with e e token.cancellation _ (λ d. refl) (same_self r)) h)

pub append-IsStored :
    (s : RetentionStore) (token : RetentionToken) (ack_size : ℕ) (ack : AckRecord)
    → IsStored s
    → IsStored (append s token ack_size ack).0
unfolding append
append-IsStored s token ack_size ack h = at_entry-keeps IsStored s token _ h λ within.
    let e = entry_at s token.slot in
    let r = record_of e token.cancellation in
    let at = response_offset r ack_size r.response_count in
    either-keeps IsStored _ _ _ h (
      either-keeps IsStored (r.response_count == r.response_capacity) _ _ h (
        with_bytes-IsStored
          (set_record s token.slot token.cancellation
            (record r { response_count = add64 r.response_count 1 }))
          _ (length-copy_at s.bytes at ack.image)
          (set_entry-IsStored s token.slot _
            (keep_with e e token.cancellation _ (λ d. refl) (same_self r)) h)))

pub complete-IsStored :
    (s : RetentionStore) (token : RetentionToken) (now : ℕ)
    → IsStored s
    → IsStored (complete s token now).0
unfolding complete
complete-IsStored s token now h = at_entry-keeps IsStored s token _ h λ within.
    let e = entry_at s token.slot in
    let r = record_of e token.cancellation in
    either-keeps IsStored (not r.active || r.terminal) _ _ h (
      set_entry-IsStored s token.slot _
        (keep_with e (record e { expires = expiry now e.expires }) token.cancellation _
          (renamed e (expiry now e.expires)) (same_self r))
        h)

pub retain-IsStored :
    (s : RetentionStore) (token : RetentionToken) → IsStored s → IsStored (retain s token).0
unfolding retain
retain-IsStored s token h = at_entry-keeps IsStored s token _ h λ within.
    let e = entry_at s token.slot in
    let e' = record e { references = add64 e.references 1 } in
    set_entry-IsStored s token.slot e' (relabelled e e' refl refl) h

pub release-IsStored :
    (s : RetentionStore) (token : RetentionToken) → IsStored s → IsStored (release s token).0
unfolding release
release-IsStored s token h = at_entry-keeps IsStored s token _ h λ within.
    let e = entry_at s token.slot in
    let e' = record e { references = e.references - 1 } in
    let t = set_entry s token.slot e' in
    let kept : IsStored t = set_entry-IsStored s token.slot e' (relabelled e e' refl refl) h in
    either-keeps IsStored (e.references == 0) _ _ h (
      if-both IsStored _
        (erase-IsStored t token.slot (omega (arith, within, length-set s.entries token.slot e'))
          kept)
        kept)

pub rollback-IsStored :
    (s : RetentionStore) (token : RetentionToken) → IsStored s → IsStored (rollback s token).0
unfolding rollback
rollback-IsStored s token h = at_entry-keeps IsStored s token _ h λ within.
    let e = entry_at s token.slot in
    let r = record_of e token.cancellation in
    let t = clear_record s token.slot token.cancellation in
    let f = entry_at t token.slot in
    let e' = record f { references = e.references - 1 } in
    let u = set_entry t token.slot e' in
    let kept : IsStored u =
      set_entry-IsStored t token.slot e' (relabelled f e' refl refl)
        (clear_record-IsStored s token.slot token.cancellation within h) in
    either-keeps IsStored (e.references == 0) _ _ h (
      either-keeps IsStored (r.active || r.terminal) _ _ h (
        if-both IsStored token.cancellation kept (
          erase-IsStored u token.slot
            (omega (
              arith,
              within,
              length-set t.entries token.slot e',
              length-clear_record s token.slot token.cancellation,
            ))
            kept)))
