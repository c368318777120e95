-- ===== src/Transaction/Retention/Stored.antt =====
-- The store keeps the extents of its used records, and of no others, in order and apart.
use vrt_framework.Prelude.{
  ℕ, zero, suc, ◌*◌, ◌/◌, ◌%◌, ◌^◌, ◌≤◌, ◌<◌, ◌≡◌, refl, sym, ap, ◌∙◌, subst, ◌≢◌, inl, inr, Bool,
  true, false, ◌&&◌, List, [], ◌∷◌, arith, ltb, ◌==◌, if◌then◌else◌, lt→ltb, ==_iff, Bool-cases,
  if-split, if-map, &&-cases, length, get_or, set, length-set,
}
use vrt_framework.Execution.Admission.{AdmissionPool}
use vrt_framework.Transaction.Retention.{
  Record, Entry, empty_entry, record_of, with_record, RetentionStore, entry_at, indexed_record,
  record_id, set_entry,
}
use vrt_framework.Transaction.Retention.Layout.{Laid, has, SameExtent, Laid-same}

pub get_or-set {ℓ} :
    {A : Type ℓ} (xs : List A) (i j : ℕ) (v d : A)
    → get_or (set xs i v) j d ≡ (if i == j && ltb i (length xs) then v else get_or xs j d)
get_or-set [] i j v d = ground arith
get_or-set (x ∷ xs) zero zero v d = ground arith
get_or-set (x ∷ xs) zero (suc j) v d = ground arith
get_or-set (x ∷ xs) (suc i) zero v d = ground arith
get_or-set (x ∷ xs) (suc i) (suc j) v d = rw (get_or-set xs i j v d) (ground arith)

abbrev pub SameRecord : Record → Record → Type 0
SameRecord r t = (r.used ≡ t.used) × SameExtent r t

pub record IsLaidOut (entries : List Entry) (capacity : ℕ) (occupied : List ℕ) : Type 0 where
  pub laid : Laid (indexed_record entries) capacity 0 occupied
  pub known : (id : ℕ) → has id occupied ≡ (indexed_record entries id).used
  pub narrow : length entries * 2 ≤ 2 ^ 32
  pub small : capacity < 2 ^ 64

-- Every used record has its extent in the bytes, in the order of `occupied` and apart from the others;
-- there are at most 2 ^ 32 record numbers and fewer than 2 ^ 64 bytes.
unfoldable pub IsStored : RetentionStore → Type 0
IsStored s = IsLaidOut s.entries (length s.bytes) s.occupied

pub indexed-set :
    (entries : List Entry) (slot : ℕ) (e : Entry) (x : ℕ)
    → indexed_record (set entries slot e) x ≡ (
        if slot == x / 2 && ltb slot (length entries)
        then record_of e (x % 2 == 1)
        else indexed_record entries x)
unfolding indexed_record
indexed-set entries slot e x =
    ap (λ t. record_of t (x % 2 == 1)) (get_or-set entries slot (x / 2) e empty_entry)
    ∙ if-map (λ t. record_of t (x % 2 == 1)) (slot == x / 2 && ltb slot (length entries)) e
        (get_or entries (x / 2) empty_entry)

pub same_records :
    (entries entries' : List Entry) (capacity : ℕ) (occupied : List ℕ)
    → length entries ≡ length entries'
    → ((id : ℕ) → SameRecord (indexed_record entries id) (indexed_record entries' id))
    → IsLaidOut entries capacity occupied
    → IsLaidOut entries' capacity occupied
same_records entries entries' capacity occupied n same h = record {
  laid =
      Laid-same (indexed_record entries) (indexed_record entries') capacity 0 occupied
        (λ id found. (same id).1) h.laid;
  known = λ id. h.known id ∙ (same id).0;
  narrow = omega (arith, n, h.narrow);
  small = h.small;
}

-- A new entry with records of the same extents.
pub keep_entry :
    (entries : List Entry) (capacity : ℕ) (occupied : List ℕ) (slot : ℕ) (e : Entry)
    → ((c : Bool) → SameRecord (record_of (get_or entries slot empty_entry) c) (record_of e c))
    → IsLaidOut entries capacity occupied
    → IsLaidOut (set entries slot e) capacity occupied
unfolding indexed_record
keep_entry entries capacity occupied slot e same =
    same_records entries (set entries slot e) capacity occupied (sym (length-set entries slot e))
      λ id. subst (SameRecord (indexed_record entries id)) (sym (indexed-set entries slot e id)) (
        if-split (SameRecord (indexed_record entries id))
          (slot == id / 2 && ltb slot (length entries)) {y = indexed_record entries id}
          (λ here.
            let q : slot ≡ id / 2 = (==_iff slot (id / 2)).0 (&&-cases _ _ here).0 in
            subst
              (λ k.
                SameRecord (record_of (get_or entries k empty_entry) (id % 2 == 1))
                  (record_of e (id % 2 == 1)))
              q (same (id % 2 == 1)))
          (λ elsewhere. (refl, (refl, refl))))

Bool-apart : true ≢ false
Bool-apart h = ground (arith, h)

with_record_self : (e : Entry) (c : Bool) (r : Record) → record_of (with_record e c r) c ≡ r
with_record_self e true r = refl
with_record_self e false r = refl

with_record_other :
    (e : Entry) (c d : Bool) (r : Record) → c ≢ d → record_of (with_record e c r) d ≡ record_of e d
with_record_other e true true r ne = absurd (ne refl)
with_record_other e true false r ne = refl
with_record_other e false true r ne = refl
with_record_other e false false r ne = absurd (ne refl)

pub record_id-half : (slot : ℕ) (c : Bool) → record_id slot c / 2 ≡ slot
record_id-half slot true = omega arith
record_id-half slot false = omega arith

pub record_id-odd : (slot : ℕ) (c : Bool) → (record_id slot c % 2 == 1) ≡ c
record_id-odd slot true = (==_iff _ _).1 (omega arith)
record_id-odd slot false = ground arith

record_id_of : (slot id : ℕ) (c : Bool) → slot ≡ id / 2 → (id % 2 == 1) ≡ c → id ≡ record_id slot c
record_id_of slot id true half odd = omega (arith, half, (==_iff _ _).0 odd)
record_id_of slot id false half even = ground (arith, half, even)

-- One record is written; the entry's other fields may change too.
pub indexed-set_record :
    (entries : List Entry) (slot : ℕ) (e : Entry) (c : Bool) (r : Record) (id : ℕ)
    → slot < length entries
    → ((d : Bool) → record_of e d ≡ record_of (get_or entries slot empty_entry) d)
    → indexed_record (set entries slot (with_record e c r)) id
      ≡ (if id == record_id slot c then r else indexed_record entries id)
unfolding indexed_record
indexed-set_record entries slot e c r id within same =
    indexed-set entries slot (with_record e c r) id ∙ elim (Bool-cases (id == record_id slot c)) [
      | inl here ↦
          let q : id ≡ record_id slot c = (==_iff id (record_id slot c)).0 here in
          let half : (slot == id / 2) ≡ true =
            (==_iff _ _).1 (sym (ap (λ k. k / 2) q ∙ record_id-half slot c)) in
          let odd : (id % 2 == 1) ≡ c = ap (λ k. k % 2 == 1) q ∙ record_id-odd slot c in
          rw (half, odd, here, lt→ltb slot (length entries) within) (with_record_self e c r)
      | inr other ↦ elim (Bool-cases (slot == id / 2)) [
        | inl half ↦
            let q : slot ≡ id / 2 = (==_iff slot (id / 2)).0 half in
            let ne : c ≢ (id % 2 == 1) = λ odd. Bool-apart (
              sym ((==_iff id (record_id slot c)).1 (record_id_of slot id c q (sym odd)))
              ∙ other) in
            rw (half, other, lt→ltb slot (length entries) within)
              (with_record_other e c (id % 2 == 1) r ne
                ∙ same (id % 2 == 1)
                ∙ ap (λ k. record_of (get_or entries k empty_entry) (id % 2 == 1)) q)
        | inr far ↦ rw (far, other) refl
      ]
    ]

pub set_entry-IsStored :
    (s : RetentionStore) (slot : ℕ) (e : Entry)
    → ((c : Bool) → SameRecord (record_of (entry_at s slot) c) (record_of e c))
    → IsStored s
    → IsStored (set_entry s slot e)
unfolding IsStored
set_entry-IsStored s slot e same h = keep_entry s.entries (length s.bytes) s.occupied slot e same h

pub with_bytes-IsStored :
    (s : RetentionStore) (bytes : List ℕ)
    → length bytes ≡ length s.bytes
    → IsStored s
    → IsStored (record s { bytes = bytes })
unfolding IsStored
with_bytes-IsStored s bytes same h = subst (λ n. IsLaidOut s.entries n s.occupied) (sym same) h

pub with_pool-IsStored :
    (s : RetentionStore) (probes : ℕ) (admission : AdmissionPool)
    → IsStored s
    → IsStored (record s { placement_probes = probes; admission = admission })
unfolding IsStored
with_pool-IsStored s probes admission h = h
