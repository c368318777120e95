-- ===== src/Transaction/Retention/Moved.antt =====
-- The extents of the records: in the order of `occupied` they stay in order and apart when a record is emptied and when
-- one is placed at the first gap that fits.
use vrt_framework.Prelude.{
  ℕ, ◌-◌, ◌*◌, ◌%◌, ◌^◌, ◌≤◌, ◌<◌, ◌≡◌, refl, sym, ap, ◌∙◌, subst, inl, inr, Bool, true, false,
  ◌||◌, List, ◌∷◌, ◌++◌, arith, ◌==◌, if◌then◌else◌, ==_iff, ==_refl, Bool-cases, if-split, if-map,
  if-true, if-false, length, get_or, set, take, drop, length-set,
}
use vrt_framework.Transaction.Retention.{
  Record, Entry, empty_record, empty_entry, record_of, with_record, indexed_record, record_id,
  without,
}
use vrt_framework.Transaction.Retention.Reserve.{place}
use vrt_framework.Transaction.Retention.Layout.{
  has, SameExtent, Laid-same, Laid-without, has-without, has-insert, Laid-place,
}
use vrt_framework.Transaction.Retention.Stored.{
  IsLaidOut, record_id-half, record_id-odd, indexed-set_record,
}

pub indexed-record_id :
    (entries : List Entry) (slot : ℕ) (c : Bool)
    → indexed_record entries (record_id slot c) ≡ record_of (get_or entries slot empty_entry) c
unfolding indexed_record
indexed-record_id entries slot c =
    ap (λ k. record_of (get_or entries k empty_entry) (record_id slot c % 2 == 1))
      (record_id-half slot c)
    ∙ ap (record_of (get_or entries slot empty_entry)) (record_id-odd slot c)

record_id-narrow :
    (slot : ℕ) (c : Bool) (n : ℕ)
    → slot < n
    → n * 2 ≤ 2 ^ 32
    → record_id slot c % 2 ^ 32 ≡ record_id slot c
record_id-narrow slot true n lt le = omega (arith, lt, le)
record_id-narrow slot false n lt le = omega (arith, lt, le)

-- A record that is emptied, with its number taken off the list.
pub clear_laid :
    (entries : List Entry) (capacity : ℕ) (occupied : List ℕ) (slot : ℕ) (c : Bool)
    → slot < length entries
    → IsLaidOut entries capacity occupied
    → IsLaidOut
        (set entries slot (with_record (get_or entries slot empty_entry) c empty_record))
        capacity
        (if (record_of (get_or entries slot empty_entry) c).used
          then without (record_id slot c) occupied
          else occupied)
clear_laid entries capacity occupied slot c within h =
    let f = indexed_record entries in
    let id = record_id slot c in
    let entries' =
      set entries slot (with_record (get_or entries slot empty_entry) c empty_record) in
    let g = indexed_record entries' in
    let at : (x : ℕ) → g x ≡ (if x == id then empty_record else f x) =
      λ x. indexed-set_record entries slot _ c empty_record x within (λ d. refl) in
    let used_at : (x : ℕ) → (g x).used ≡ (if x == id then false else (f x).used) =
      λ x. ap (λ r. r.used) (at x) ∙ if-map (λ r. r.used) (x == id) empty_record (f x) in
    let apart : (x : ℕ) → (x == id) ≡ false → f x ≡ g x =
      λ x ne. sym (at x ∙ if-false (x == id) empty_record (f x) ne) in
    let away : (x : ℕ) → (x == id) ≡ false → SameExtent (f x) (g x) =
      λ x ne. (ap (λ r. r.offset) (apart x ne), ap (λ r. r.bytes) (apart x ne)) in
    let narrow : length entries' * 2 ≤ 2 ^ 32 = omega (
      arith,
      h.narrow,
      length-set entries slot (with_record (get_or entries slot empty_entry) c empty_record),
    ) in
    if-split (IsLaidOut entries' capacity) (record_of (get_or entries slot empty_entry) c).used
      (λ used. record {
        laid =
            Laid-same f g capacity 0 (without id occupied)
              (λ x found.
                away x (ground (arith, found, has-without f capacity 0 id x occupied h.laid)))
              (Laid-without f capacity 0 id occupied h.laid);
        known = λ x.
            has-without f capacity 0 id x occupied h.laid
            ∙ ap (λ b. if x == id then false else b) (h.known x)
            ∙ sym (used_at x);
        narrow = narrow;
        small = h.small;
      })
      (λ unused.
        let free : (f id).used ≡ false =
          ap (λ r. r.used) (indexed-record_id entries slot c) ∙ unused in
        let not_it : (x : ℕ) → has x occupied ≡ true → (x == id) ≡ false = λ x found.
          elim (Bool-cases (x == id)) [
            | inl e ↦
                let q : x ≡ id = (==_iff x id).0 e in
                absurd (ground (arith, sym found ∙ h.known x ∙ ap (λ k. (f k).used) q ∙ free))
            | inr ne ↦ ne
          ] in
        record {
          laid = Laid-same f g capacity 0 occupied (λ x found. away x (not_it x found)) h.laid;
          known = λ x. h.known x ∙ elim (Bool-cases (x == id)) [
            | inl e ↦
                let q : x ≡ id = (==_iff x id).0 e in
                ap (λ k. (f k).used) q
                ∙ free
                ∙ sym (used_at x ∙ if-true (x == id) false (f x).used e)
            | inr ne ↦ ap (λ r. r.used) (apart x ne)
          ];
          narrow = narrow;
          small = h.small;
        })

-- A record that is placed at the first gap that fits.
pub place_laid :
    (entries : List Entry) (capacity required : ℕ) (occupied : List ℕ) (slot : ℕ) (e : Entry)
    (c : Bool) (r : Record)
    → slot < length entries
    → ((d : Bool) → record_of e d ≡ record_of (get_or entries slot empty_entry) d)
    → (record_of (get_or entries slot empty_entry) c).used ≡ false
    → 0 < required
    → required ≤ capacity
    → (place entries required 0 occupied).offset ≤ capacity - required
    → r.used ≡ true
    → r.offset ≡ (place entries required 0 occupied).offset
    → r.bytes ≡ required
    → IsLaidOut entries capacity occupied
    → IsLaidOut (set entries slot (with_record e c r)) capacity (
        take (place entries required 0 occupied).insertion occupied
        ++ (record_id slot c % 2 ^ 32
            ∷ drop (place entries required 0 occupied).insertion occupied))
place_laid entries capacity required occupied slot e c r within same unused pos room fits used o n
      h =
    let f = indexed_record entries in
    let id = record_id slot c in
    let entries' = set entries slot (with_record e c r) in
    let g = indexed_record entries' in
    let p = place entries required 0 occupied in
    let fresh : (id % 2 ^ 32) ≡ id = record_id-narrow slot c (length entries) within h.narrow in
    let at : (x : ℕ) → g x ≡ (if x == id then r else f x) =
      λ x. indexed-set_record entries slot e c r x within same in
    let apart : (x : ℕ) → (x == id) ≡ false → f x ≡ g x =
      λ x ne. sym (at x ∙ if-false (x == id) r (f x) ne) in
    let it : g id ≡ r = at id ∙ if-true (id == id) r (f id) (==_refl id) in
    let free : (f id).used ≡ false = ap (λ t. t.used) (indexed-record_id entries slot c) ∙ unused in
    let not_it : (x : ℕ) → has x occupied ≡ true → (x == id) ≡ false = λ x found.
      elim (Bool-cases (x == id)) [
        | inl m ↦
            let q : x ≡ id = (==_iff x id).0 m in
            absurd (ground (arith, sym found ∙ h.known x ∙ ap (λ k. (f k).used) q ∙ free))
        | inr ne ↦ ne
      ] in
    subst
      (λ k.
        IsLaidOut entries' capacity (take p.insertion occupied ++ (k ∷ drop p.insertion occupied)))
      (sym fresh)
      (record {
        laid =
            Laid-place entries g capacity required 0 id occupied h.small pos room h.laid
              (λ x found. (
                ap (λ t. t.offset) (apart x (not_it x found)),
                ap (λ t. t.bytes) (apart x (not_it x found)),
              ))
              fits (ap (λ t. t.offset) it ∙ o) (ap (λ t. t.bytes) it ∙ n);
        known = λ x. has-insert p.insertion id x occupied ∙ elim (Bool-cases (x == id)) [
          | inl m ↦
              let q : x ≡ id = (==_iff x id).0 m in
              let back : (id == x) ≡ true = (==_iff id x).1 (sym q) in
              ap (λ b. b || has x occupied) back
              ∙ sym (ap (λ k. (g k).used) q ∙ ap (λ t. t.used) it ∙ used)
          | inr ne ↦
              let back : (id == x) ≡ false = ground (arith, ne) in
              ap (λ b. b || has x occupied) back ∙ h.known x ∙ ap (λ t. t.used) (apart x ne)
        ];
        narrow = omega (arith, h.narrow, length-set entries slot (with_record e c r));
        small = h.small;
      })
