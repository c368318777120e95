-- ===== src/Transaction/Retention/Appended.antt =====
-- A response that is appended reads back, and every other response and all canonical bytes stay.
use vrt_framework.Prelude.{
  ℕ, suc, ◌+◌, ◌*◌, ◌≤◌, ◌<◌, ◌≡◌, refl, sym, ap, ◌∙◌, subst, ◌≢◌, ◌⊎◌, inl, inr, Bool, true, false,
  ◌&&◌, not, none, some, List, arith, ltb, leb, ◌==◌, if◌then◌else◌, ==_iff, Bool-cases, if-map,
  if-same, if-true, if-false, &&-cases, add64, length, length-set,
}
use vrt_framework.Core.Error.{error, stale_generation, ok, err}
use native.Mathlib.Nat.{mul-le-mul_right}
use vrt_framework.Transaction.Retention.{
  RetentionToken, Record, Entry, AckRecord, empty_entry, with_record, RetentionStore, entry_at,
  indexed_record, record_id,
}
use vrt_framework.Transaction.Retention.Tokens.{response_offset, response, canonical}
use vrt_framework.Transaction.Retention.Layout.{Laid-has, Laid-disjoint, has}
use vrt_framework.Transaction.Retention.Stored.{IsStored, indexed-set_record, get_or-set}
use vrt_framework.Transaction.Retention.Moved.{indexed-record_id}
use vrt_framework.Transaction.Retention.Copies.{slice, slice-copy_apart}
use vrt_framework.Transaction.Retention.Views.{
  record_at, is_current, response_in, response_lem, canonical_in, canonical_lem, counted, appended,
}

-- The extent of a record has room for its canonical bytes and for all its responses, at most three.
pub record IsSized (ack_size : ℕ) (r : Record) : Type 0 where
  pub room : r.canonical + r.response_capacity * ack_size ≤ r.bytes
  pub count : r.response_count ≤ r.response_capacity
  pub few : r.response_capacity ≤ 3

abbrev pub AllSized : ℕ → List Entry → Type 0
AllSized ack_size entries =
    (id : ℕ)
    → (indexed_record entries id).used ≡ true
    → IsSized ack_size (indexed_record entries id)

pub response_end :
    (ack_size index : ℕ) (r : Record)
    → IsSized ack_size r
    → index < r.response_capacity
    → response_offset r ack_size index + ack_size ≤ r.offset + r.bytes
response_end ack_size index r h lt =
    let step : suc index * ack_size ≤ r.response_capacity * ack_size =
      mul-le-mul_right ack_size lt in
    grind (arith, step, h.room)

module _ (s : RetentionStore) (token : RetentionToken) (ack_size : ℕ) (ack : AckRecord)
    (stored : IsStored s) (sized : AllSized ack_size s.entries)
    (valid : is_current s token ≡ true) where
  abbrev r : Record
  r = record_at s token

  abbrev t : RetentionStore
  t = appended s token ack_size ack

  abbrev id_of : RetentionToken → ℕ
  id_of other = record_id other.slot other.cancellation

  indexed : (other : RetentionToken) → indexed_record s.entries (id_of other) ≡ record_at s other
  indexed other = indexed-record_id s.entries other.slot other.cancellation

  within : token.slot < length s.entries
  within = ground (arith, valid)

  pub record_after :
      (other : RetentionToken)
      → record_at t other ≡ (if id_of other == id_of token then counted r else record_at s other)
  record_after other =
      sym (indexed-record_id t.entries other.slot other.cancellation)
      ∙ indexed-set_record s.entries token.slot (entry_at s token.slot) token.cancellation
          (counted r) (id_of other) within (λ d. refl)
      ∙ ap (λ x. if id_of other == id_of token then counted r else x) (indexed other)

  same_id : (other : RetentionToken) → id_of other ≡ id_of token → record_at s other ≡ r
  same_id other q = sym (indexed other) ∙ ap (indexed_record s.entries) q ∙ indexed token

  used_after : (other : RetentionToken) → (record_at t other).used ≡ (record_at s other).used
  used_after other =
      ap (λ x. x.used) (record_after other) ∙ elim (Bool-cases (id_of other == id_of token)) [
        | inl e ↦
            let q : id_of other ≡ id_of token = (==_iff _ _).0 e in
            ap (λ x. x.used)
              (if-true (id_of other == id_of token) (counted r) (record_at s other) e)
            ∙ sym (ap (λ x. x.used) (same_id other q))
        | inr ne ↦
            ap (λ x. x.used)
              (if-false (id_of other == id_of token) (counted r) (record_at s other) ne)
      ]

  pub used_r : r.used ≡ true
  used_r = ground (arith, valid)

  generation_after : (slot : ℕ) → (entry_at t slot).generation ≡ (entry_at s slot).generation
  generation_after slot =
      let e = entry_at s token.slot in
      let e' = with_record e token.cancellation (counted r) in
      let here = token.slot == slot && ltb token.slot (length s.entries) in
      ap (λ x. x.generation) (get_or-set s.entries token.slot slot e' empty_entry)
      ∙ elim (Bool-cases here) [
        | inl holds ↦
            let q : token.slot ≡ slot =
              (==_iff token.slot slot).0
                (&&-cases (token.slot == slot) (ltb token.slot (length s.entries)) holds).0 in
            ap (λ x. x.generation) (if-true here e' (entry_at s slot) holds)
            ∙ if-map (λ (x : Entry). x.generation) token.cancellation
                (record e { cancellation = counted r }) (record e { original = counted r })
            ∙ if-same token.cancellation e.generation
            ∙ ap (λ k. (entry_at s k).generation) q
        | inr fails ↦ ap (λ x. x.generation) (if-false here e' (entry_at s slot) fails)
      ]

  pub valid_after : (other : RetentionToken) → is_current t other ≡ is_current s other
  valid_after other =
      ap
        (λ n.
          not (leb n other.slot)
          && ((record_at t other).used && (entry_at t other.slot).generation == other.generation))
        (length-set s.entries token.slot
          (with_record (entry_at s token.slot) token.cancellation (counted r)))
      ∙ ap
          (λ b.
            not (leb (length s.entries) other.slot)
            && (b && (entry_at t other.slot).generation == other.generation))
          (used_after other)
      ∙ ap
          (λ g.
            not (leb (length s.entries) other.slot)
            && ((record_at s other).used && g == other.generation))
          (generation_after other.slot)

  pub room_at :
      (other : RetentionToken)
      → (record_at s other).used ≡ true
      → IsSized ack_size (record_at s other)
  room_at other used =
      subst (IsSized ack_size) (indexed other)
        (sized (id_of other) (ap (λ x. x.used) (indexed other) ∙ used))

  -- The extents of two valid tokens with different records.
  apart :
      (other : RetentionToken)
      → (record_at s other).used ≡ true
      → id_of other ≢ id_of token
      → ((record_at s other).offset + (record_at s other).bytes ≤ r.offset)
        ⊎ (r.offset + r.bytes ≤ (record_at s other).offset)
  unfolding IsStored
  apart other used ne =
      let f = indexed_record s.entries in
      let known_other : has (id_of other) s.occupied ≡ true =
        stored.known (id_of other) ∙ ap (λ x. x.used) (indexed other) ∙ used in
      let known_r : has (id_of token) s.occupied ≡ true =
        stored.known (id_of token) ∙ ap (λ x. x.used) (indexed token) ∙ used_r in
      subst (λ x. (x.offset + x.bytes ≤ r.offset) ⊎ (r.offset + r.bytes ≤ x.offset)) (indexed other)
        (subst
          (λ x.
            ((f (id_of other)).offset + (f (id_of other)).bytes ≤ x.offset)
            ⊎ (x.offset + x.bytes ≤ (f (id_of other)).offset))
          (indexed token)
          (Laid-disjoint f (length s.bytes) 0 s.occupied (id_of other) (id_of token) stored.laid
            known_other known_r ne))

  pub inside : r.offset + r.bytes ≤ length s.bytes
  unfolding IsStored
  inside =
      subst (λ x. x.offset + x.bytes ≤ length s.bytes) (indexed token)
        (Laid-has (indexed_record s.entries) (length s.bytes) 0 s.occupied (id_of token) stored.laid
          (stored.known (id_of token) ∙ ap (λ x. x.used) (indexed token) ∙ used_r)).2

  -- A response or the canonical bytes of a record of which the extent ends before another one or
  -- begins after it.
  slice_apart :
      (n offset low high : ℕ)
      → length ack.image ≡ ack_size
      → r.response_count < r.response_capacity
      → low ≤ offset
      → offset + n ≤ high
      → (high ≤ r.offset) ⊎ (r.offset + r.bytes ≤ low)
      → slice n offset t.bytes ≡ slice n offset s.bytes
  slice_apart n offset low high size more le ge away =
      let end = response_end ack_size r.response_count r (room_at token used_r) more in
      slice-copy_apart n offset s.bytes (response_offset r ack_size r.response_count) ack.image
        (elim away [
          | inl before ↦ inl (omega (arith, before, ge))
          | inr after ↦ inr (omega (arith, after, le, end, size))
        ])

  pub canonical_kept :
      (other : RetentionToken)
      → length ack.image ≡ ack_size
      → r.response_count < r.response_capacity
      → (canonical t other).1 ≡ (canonical s other).1
  canonical_kept other size more =
      let x = record_at s other in
      canonical_lem t other
      ∙ ap (λ b. canonical_in b (record_at t other) t.bytes) (valid_after other)
      ∙ elim (Bool-cases (is_current s other)) [
        | inr invalid ↦
            if-false (is_current s other) _ _ invalid
            ∙ sym (canonical_lem s other ∙ if-false (is_current s other) _ _ invalid)
        | inl ok_other ↦ elim (Bool-cases (id_of other == id_of token)) [
          | inl e ↦
              let q : id_of other ≡ id_of token = (==_iff _ _).0 e in
              ap (λ y. canonical_in (is_current s other) y t.bytes)
                (record_after other ∙ if-true (id_of other == id_of token) (counted r) x e)
              ∙ ap (λ y. if is_current s other then ok y else err (error stale_generation))
                  (slice-copy_apart r.canonical r.offset s.bytes
                    (response_offset r ack_size r.response_count) ack.image (inl (omega arith)))
              ∙ ap (λ y. canonical_in (is_current s other) y s.bytes) (sym (same_id other q))
              ∙ sym (canonical_lem s other)
          | inr ne ↦
              let used : x.used ≡ true = ground (arith, ok_other) in
              let other_id : id_of other ≢ id_of token = λ q. absurd (ground (arith, ne, q)) in
              let fits = (room_at other used).room in
              ap (λ y. canonical_in (is_current s other) y t.bytes)
                (record_after other ∙ if-false (id_of other == id_of token) (counted r) x ne)
              ∙ ap (λ y. if is_current s other then ok y else err (error stale_generation))
                  (slice_apart x.canonical x.offset x.offset (x.offset + x.bytes) size more
                    (omega arith) (omega (arith, fits)) (apart other used other_id))
              ∙ sym (canonical_lem s other)
        ]
      ]

  -- The responses of the same record at another index.
  response_same :
      (index : ℕ)
      → r.response_count < r.response_capacity
      → index ≢ r.response_count
      → (valid_other : Bool)
      → response_in valid_other (counted r) ack_size index t.bytes
        ≡ response_in valid_other r ack_size index s.bytes
  response_same index more ne false = refl
  response_same index more ne true =
      let few = (room_at token used_r).few in
      let next : add64 r.response_count 1 ≡ suc r.response_count = omega (arith, few, more) in
      ap
        (λ c.
          if leb c index
          then ok none
          else ok (some (slice ack_size (response_offset r ack_size index) t.bytes)))
        next
      ∙ elim (Bool-cases (leb r.response_count index)) [
        | inl past ↦
            let past_too : leb (suc r.response_count) index ≡ true = ground (arith, past, ne) in
            if-true (leb (suc r.response_count) index) _ _ past_too
            ∙ sym (if-true (leb r.response_count index) _ _ past)
        | inr before ↦
            let before_too : leb (suc r.response_count) index ≡ false = ground (arith, before) in
            let lt : index < r.response_count = ground (arith, before) in
            let step : suc index * ack_size ≤ r.response_count * ack_size =
              mul-le-mul_right ack_size lt in
            if-false (leb (suc r.response_count) index) _ _ before_too
            ∙ ap (λ y. ok (some y))
                (slice-copy_apart ack_size (response_offset r ack_size index) s.bytes
                  (response_offset r ack_size r.response_count) ack.image
                  (inl (grind (arith, step))))
            ∙ sym (if-false (leb r.response_count index) _ _ before)
      ]

  -- The responses of another record.
  response_apart :
      (other : RetentionToken) (index : ℕ)
      → length ack.image ≡ ack_size
      → r.response_count < r.response_capacity
      → (record_at s other).used ≡ true
      → id_of other ≢ id_of token
      → (valid_other : Bool)
      → response_in valid_other (record_at s other) ack_size index t.bytes
        ≡ response_in valid_other (record_at s other) ack_size index s.bytes
  response_apart other index size more used ne false = refl
  response_apart other index size more used ne true =
      let x = record_at s other in
      let h = room_at other used in
      elim (Bool-cases (leb x.response_count index)) [
        | inl past ↦
            if-true (leb x.response_count index) _ _ past
            ∙ sym (if-true (leb x.response_count index) _ _ past)
        | inr before ↦
            let lt : index < x.response_capacity = ground (arith, before, h.count) in
            ap (λ y. if leb x.response_count index then ok none else ok (some y))
              (slice_apart ack_size (response_offset x ack_size index) x.offset (x.offset + x.bytes)
                size more (omega arith) (response_end ack_size index x h lt) (apart other used ne))
      ]

  pub response_kept :
      (other : RetentionToken) (index : ℕ)
      → length ack.image ≡ ack_size
      → r.response_count < r.response_capacity
      → (id_of other ≢ id_of token) ⊎ (index ≢ r.response_count)
      → (response t other ack_size index).1 ≡ (response s other ack_size index).1
  response_kept other index size more differs =
      let x = record_at s other in
      response_lem t other ack_size index
      ∙ ap (λ b. response_in b (record_at t other) ack_size index t.bytes) (valid_after other)
      ∙ elim (Bool-cases (is_current s other)) [
        | inr invalid ↦
            if-true (not (is_current s other)) _ _ (ap not invalid)
            ∙ sym (
                response_lem s other ack_size index
                ∙ if-true (not (is_current s other)) _ _ (ap not invalid))
        | inl ok_other ↦ elim (Bool-cases (id_of other == id_of token)) [
          | inl e ↦
              let q : id_of other ≡ id_of token = (==_iff _ _).0 e in
              let index_differs : index ≢ r.response_count = elim differs [
                | inl ne ↦ absurd (ne q)
                | inr ne ↦ ne
              ] in
              ap (λ y. response_in (is_current s other) y ack_size index t.bytes)
                (record_after other ∙ if-true (id_of other == id_of token) (counted r) x e)
              ∙ response_same index more index_differs (is_current s other)
              ∙ ap (λ y. response_in (is_current s other) y ack_size index s.bytes)
                  (sym (same_id other q))
              ∙ sym (response_lem s other ack_size index)
          | inr ne ↦
              let used : x.used ≡ true = ground (arith, ok_other) in
              let other_id : id_of other ≢ id_of token = λ q. absurd (ground (arith, ne, q)) in
              ap (λ y. response_in (is_current s other) y ack_size index t.bytes)
                (record_after other ∙ if-false (id_of other == id_of token) (counted r) x ne)
              ∙ response_apart other index size more used other_id (is_current s other)
              ∙ sym (response_lem s other ack_size index)
        ]
      ]
