-- ===== src/Transaction/Retention/Reserved.antt =====
-- A reservation keeps the extents of the store in order and apart.
use vrt_framework.Prelude.{
  ℕ, suc, ◌+◌, ◌-◌, ◌*◌, ◌/◌, ◌%◌, ◌^◌, ◌≤◌, ◌<◌, ◌≡◌, refl, sym, subst, inl, inr, Bool, true,
  false, ◌&&◌, not, Option, none, some, List, [], ◌∷◌, ◌++◌, arith, ltb, ◌==◌, if◌then◌else◌,
  Bool-cases, some-injective, &&-cases, has_value, u64_max, add64, sub64, mul64, length, get_or,
  set, take, drop,
}
use vrt_framework.Core.Error.{Error, error, capacity_exhausted, invalid_state, Result, ok, err}
use native.Mathlib.Nat.{div-mul-le_self, mul-le-mul_right}
use vrt_framework.Execution.Admission.{no_request, need, acquire, AdmissionBundle}
use vrt_framework.Transaction.Retention.{
  TransactionKey, RetentionAdmission, PacketView, Entry, empty_entry, record_of, with_record,
  RetentionStore, entry_at, record_id,
}
use vrt_framework.Transaction.Retention.Reserve.{
  ill_formed, key_matches, find_key, same_canonical, duplicate, replay_existing, free_slot, place,
  fresh_record, store_record, reserve_slot, exceeds, reserve_new, reserve,
}
use vrt_framework.Transaction.Retention.Stored.{
  IsLaidOut, IsStored, set_entry-IsStored, with_pool-IsStored,
}
use vrt_framework.Transaction.Retention.Kept.{
  either-keeps, either-split, found-keeps, relabelled, length-write_canonical,
}
use vrt_framework.Transaction.Retention.Moved.{place_laid}

pub find_key-within :
    (es : List Entry) (key : TransactionKey) (i slot : ℕ)
    → find_key es key i ≡ some slot
    → slot < i + length es
unfolding find_key
find_key-within [] key i slot h = absurd (ground (arith, h))
find_key-within (e ∷ es) key i slot h = ground (arith, h, find_key-within es key (suc i) slot)

-- The free slot has no original.
pub free_slot_lem :
    (es : List Entry) (i slot : ℕ)
    → free_slot es i ≡ some slot
    → (slot < i + length es)
      × (i ≤ slot)
      × ((get_or es (slot - i) empty_entry).original.used ≡ false)
unfolding free_slot
free_slot_lem [] i slot h = absurd (ground (arith, h))
free_slot_lem (e ∷ es) i slot h =
    elim (Bool-cases (not e.original.used && not (e.generation == u64_max))) [
      | inl free ↦
          let q : i ≡ slot = ground (arith, h, free) in
          let at : slot - i ≡ 0 = omega (arith, q) in
          (
            omega (arith, q),
            omega (arith, q),
            subst (λ k. (get_or (e ∷ es) k empty_entry).original.used ≡ false) (sym at)
                (ground
                  (arith, (&&-cases (not e.original.used) (not (e.generation == u64_max)) free).0)),
          )
      | inr taken ↦
          let (above, below, unused) = free_slot_lem es (suc i) slot (ground (arith, h, taken)) in
          let at : slot - i ≡ suc (slot - suc i) = omega (arith, below) in
          (
            omega (arith, above),
            omega (arith, below),
            subst (λ k. (get_or (e ∷ es) k empty_entry).original.used ≡ false) (sym at) unused,
          )
    ]

relabelled-same :
    (e : Entry) (key : TransactionKey) (n : ℕ) (d : Bool)
    → record_of (record e { key = key; references = n }) d ≡ record_of e d
relabelled-same e key n true = refl
relabelled-same e key n false = refl

duplicate-IsStored :
    (s : RetentionStore) (packet : PacketView) (slot : ℕ)
    → IsStored s
    → IsStored (duplicate s packet slot).0
unfolding duplicate
duplicate-IsStored s packet slot h =
    let e = entry_at s slot in
    let e' = record e { references = add64 e.references 1 } in
    let r = record_of e packet.envelope.cancel in
    either-keeps IsStored (not (r.canonical == length packet.wire)) _ _ h (
      either-keeps IsStored (not (same_canonical s.bytes r.offset packet r.canonical 0)) _ _ h
        (set_entry-IsStored s slot e' (relabelled e e' refl refl) h))

store_record-IsStored :
    (s : RetentionStore) (key : TransactionKey) (packet : PacketView) (responses required slot : ℕ)
    (credits : AdmissionBundle)
    → slot < length s.entries
    → (record_of (entry_at s slot) packet.envelope.cancel).used ≡ false
    → 0 < required
    → required ≤ length s.bytes
    → (place s.entries required 0 s.occupied).offset ≤ length s.bytes - required
    → IsStored s
    → IsStored
        (store_record s key packet responses required slot
          (place s.entries required 0 s.occupied)
          credits).0
unfolding store_record IsStored
store_record-IsStored s key packet responses required slot credits within unused pos room fits h =
    let e = entry_at s slot in
    let cancel = packet.envelope.cancel in
    let p = place s.entries required 0 s.occupied in
    let e' = record e { key = key; references = add64 e.references 1 } in
    let r =
      fresh_record (record_of e cancel) (length packet.wire) responses required p.offset credits in
    subst
      (λ n. IsLaidOut (set s.entries slot (with_record e' cancel r)) n (
        take p.insertion s.occupied
        ++ (record_id slot cancel % 2 ^ 32 ∷ drop p.insertion s.occupied)))
      (sym (length-write_canonical s.bytes p.offset packet (length packet.wire) 0))
      (place_laid s.entries (length s.bytes) required s.occupied slot e' cancel r within
        (relabelled-same e key (add64 e.references 1)) unused pos room fits refl refl refl h)

-- The size of the record: it fits the bytes where the code's test lets it through.
pub required_lem :
    (capacity n responses ack_size : ℕ)
    → capacity < 2 ^ 64
    → 4 ≤ n
    → ltb capacity n ≡ false
    → ltb (sub64 capacity n / ack_size) responses ≡ false
    → (0 < add64 n (mul64 responses ack_size)) × (add64 n (mul64 responses ack_size) ≤ capacity)
required_lem capacity n responses ack_size small four room fits =
    let gap : sub64 capacity n ≡ capacity - n = ground (arith, small, room) in
    let bound : responses ≤ (capacity - n) / ack_size =
      subst (λ g. responses ≤ g / ack_size) gap (ground (arith, fits)) in
    let product : responses * ack_size ≤ capacity - n =
      omega (arith, mul-le-mul_right ack_size bound, div-mul-le_self (capacity - n) ack_size) in
    let n_fits : n ≤ capacity = ground (arith, room) in
    (omega (arith, product, small, four, n_fits), omega (arith, product, small, n_fits))

pub granted-keeps {ℓ} :
    {A : Type ℓ} (P : RetentionStore → Type 0) (r : Result AdmissionBundle)
    (f : Error → RetentionStore × Result A) (g : AdmissionBundle → RetentionStore × Result A)
    → ((e : Error) → P (f e).0)
    → ((b : AdmissionBundle) → P (g b).0)
    → P (elim r as (λ x. RetentionStore × Result A) [ err e ↦ f e | ok b ↦ g b ]).0
granted-keeps P (ok b) f g p q = q b
granted-keeps P (err e) f g p q = p e

reserve_slot-IsStored :
    (s : RetentionStore) (key : TransactionKey) (packet : PacketView) (responses ack_size slot : ℕ)
    → slot < length s.entries
    → (record_of (entry_at s slot) packet.envelope.cancel).used ≡ false
    → 4 ≤ length packet.wire
    → ltb (length s.bytes) (length packet.wire) ≡ false
    → ltb (sub64 (length s.bytes) (length packet.wire) / ack_size) responses ≡ false
    → length s.bytes < 2 ^ 64
    → IsStored s
    → IsStored (reserve_slot s key packet responses ack_size slot).0
unfolding reserve_slot
reserve_slot-IsStored s key packet responses ack_size slot within unused four room fits small h =
    let required = add64 (length packet.wire) (mul64 responses ack_size) in
    let p = place s.entries required 0 s.occupied in
    let request = need (need no_request 6 (if packet.envelope.cancel then 0 else 1)) 7 required in
    let taken = acquire s.admission request in
    let t = record s { placement_probes = p.probes } in
    let u = record t { admission = taken.0 } in
    let (pos, le) =
      required_lem (length s.bytes) (length packet.wire) responses ack_size small four room fits in
    let beyond = ltb (sub64 (length s.bytes) required) p.offset in
    elim (Bool-cases beyond) [
      | inl high ↦ rw high (with_pool-IsStored s p.probes s.admission h)
      | inr low ↦ rw low (
          granted-keeps IsStored taken.1 (λ e. (u, err e))
            (λ credits. store_record u key packet responses required slot p credits)
            (λ e. with_pool-IsStored s p.probes taken.0 h)
            (λ credits.
              store_record-IsStored u key packet responses required slot credits within unused pos
                le (ground (arith, low, le, small)) (with_pool-IsStored s p.probes taken.0 h)))
    ]

pub sub_zero : (n : ℕ) → n - 0 ≡ n
sub_zero n = omega arith

pub stored_small : (s : RetentionStore) → IsStored s → length s.bytes < 2 ^ 64
unfolding IsStored
stored_small s h = h.small

reserve_new-IsStored :
    (s : RetentionStore) (key : TransactionKey) (packet : PacketView) (responses ack_size : ℕ)
    (found : Option ℕ)
    → 4 ≤ length packet.wire
    → ((slot : ℕ)
        → found ≡ some slot
        → (slot < length s.entries)
          × ((record_of (entry_at s slot) packet.envelope.cancel).used ≡ false))
    → IsStored s
    → IsStored (reserve_new s key packet responses ack_size found).0
unfolding reserve_new
reserve_new-IsStored s key packet responses ack_size found four at h =
    let cancel = packet.envelope.cancel in
    let no_room = ltb (length s.bytes) (length packet.wire) in
    let no_fit = ltb (sub64 (length s.bytes) (length packet.wire) / ack_size) responses in
    either-split IsStored (cancel && not (has_value found)) _ _ (λ refused. h)
      λ allowed.
        either-split IsStored (exceeds s packet responses ack_size) _ _ (λ refused. h)
          λ room.
            let enough : no_room ≡ false = ground (arith, room) in
            let fits : no_fit ≡ false = ground (arith, room) in
            let slot_keeps : (slot : ℕ)
                → slot < length s.entries
                → (record_of (entry_at s slot) cancel).used ≡ false
                → IsStored (reserve_slot s key packet responses ack_size slot).0 =
              λ slot within unused.
                reserve_slot-IsStored s key packet responses ack_size slot within unused four enough
                  fits (stored_small s h) h in
            found-keeps IsStored found
              (elim (free_slot s.entries 0) as (λ x. RetentionStore × Result RetentionAdmission) [
                | none ↦ (s, err (error capacity_exhausted))
                | some slot ↦ reserve_slot s key packet responses ack_size slot
              ])
              (reserve_slot s key packet responses ack_size)
              (λ nothing.
                let original : cancel ≡ false = ground (arith, allowed, nothing) in
                found-keeps IsStored (free_slot s.entries 0) (s, err (error capacity_exhausted))
                  (reserve_slot s key packet responses ack_size) (λ full. h)
                  (λ slot free.
                    let (within, low, unused) = free_slot_lem s.entries 0 slot free in
                    slot_keeps slot (omega (arith, within)) (
                      subst (λ c. (record_of (entry_at s slot) c).used ≡ false) (sym original)
                        (subst (λ k. (get_or s.entries k empty_entry).original.used ≡ false)
                          (sub_zero slot) unused))))
              (λ slot here. slot_keeps slot (at slot here).0 (at slot here).1)

pub reserve-IsStored :
    (s : RetentionStore) (key : TransactionKey) (packet : PacketView) (responses ack_size : ℕ)
    → IsStored s
    → IsStored (reserve s key packet responses ack_size).0
unfolding reserve
reserve-IsStored s key packet responses ack_size h =
    let cancel = packet.envelope.cancel in
    either-split IsStored (ill_formed key packet responses) _ _ (λ refused. h)
      λ well_formed.
        either-split IsStored (not (key_matches key packet)) _ _ (λ refused. h)
          λ matches.
            let four : 4 ≤ length packet.wire = ground (arith, well_formed) in
            found-keeps IsStored (find_key s.entries key 0)
              (reserve_new s key packet responses ack_size none) _
              (λ nothing.
                reserve_new-IsStored s key packet responses ack_size none four
                  (λ slot e. absurd (ground (arith, e))) h)
              (λ slot here.
                either-split IsStored (record_of (entry_at s slot) cancel).used _ _
                  (λ known. duplicate-IsStored s packet slot h)
                  (λ unknown.
                    reserve_new-IsStored s key packet responses ack_size (some slot) four
                      (λ k e.
                        let q : slot ≡ k = some-injective e in
                        subst
                          (λ k.
                            (k < length s.entries)
                            × ((record_of (entry_at s k) cancel).used ≡ false))
                          q (omega (arith, find_key-within s.entries key 0 slot here), unknown))
                      h))

pub replay_existing-IsStored :
    (s : RetentionStore) (key : TransactionKey) (packet : PacketView)
    → IsStored s
    → IsStored (replay_existing s key packet).0
unfolding replay_existing
replay_existing-IsStored s key packet h = either-keeps IsStored _ _ _ h (
    either-keeps IsStored (not (key_matches key packet)) _ _ h (
      found-keeps IsStored (find_key s.entries key 0) (s, err (error invalid_state)) _
        (λ nothing. h)
        (λ slot here.
          let e = entry_at s slot in
          either-keeps IsStored (not (record_of e packet.envelope.cancel).used) _ _ h
            (either-keeps IsStored _ _ _ h (duplicate-IsStored s packet slot h)))))
