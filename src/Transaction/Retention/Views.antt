-- ===== src/Transaction/Retention/Views.antt =====
-- What a token sees of the store: its record, where the token is valid, and the slices of its bytes.
use vrt_framework.Prelude.{
  ℕ, ◌≡◌, refl, sym, ap, ◌∙◌, subst, ◌≢◌, inl, inr, Bool, true, false, ◌&&◌, ◌||◌, not, Option,
  none, some, List, arith, leb, ◌==◌, if◌then◌else◌, Bool-cases, if-split, if-map, eq_bool, add64,
  length,
}
use vrt_framework.Core.Error.{
  error, capacity_exhausted, stale_generation, invalid_state, Result, ok, err, done, is_ok,
}
use vrt_framework.Transaction.Retention.{
  RetentionToken, Record, Entry, AckRecord, record_of, RetentionStore, entry_at, set_record, entry,
}
use vrt_framework.Transaction.Retention.Tokens.{
  at_entry, response_offset, append, append_to, copy_at, response, canonical,
}
use vrt_framework.Transaction.Retention.Copies.{slice}

abbrev pub record_at : RetentionStore → RetentionToken → Record
record_at s token = record_of (entry_at s token.slot) token.cancellation

-- Whether `entry` finds the entry of the token.
abbrev pub is_current : RetentionStore → RetentionToken → Bool
is_current s token =
    not (leb (length s.entries) token.slot)
    && ((record_at s token).used && (entry_at s token.slot).generation == token.generation)

nested {ℓ} :
    {A : Type ℓ} (beyond valid : Bool) (s : RetentionStore) (e : Entry)
    (k : Entry → RetentionStore × Result A)
    → (elim (if beyond then none else if valid then some e else none)
        as (λ x. RetentionStore × Result A) [
          | none ↦ (s, err (error stale_generation))
          | some e ↦ k e
        ])
      ≡ (if not beyond && valid then k e else (s, err (error stale_generation)))
nested true valid s e k = refl
nested false true s e k = refl
nested false false s e k = refl

at_entry_lem {ℓ} :
    {A : Type ℓ} (s : RetentionStore) (token : RetentionToken)
    (k : Entry → RetentionStore × Result A)
    → at_entry s token k ≡ (
        if is_current s token then k (entry_at s token.slot) else (s, err (error stale_generation)))
unfolding entry
at_entry_lem s token k = nested (leb (length s.entries) token.slot) _ s (entry_at s token.slot) k

abbrev pub response_in : Bool → Record → ℕ → ℕ → List ℕ → Result (Option (List ℕ))
response_in valid r ack_size index bytes =
    if not valid
    then err (error stale_generation)
    else if leb r.response_count index
    then ok none
    else ok (some (slice ack_size (response_offset r ack_size index) bytes))

pub response_lem :
    (s : RetentionStore) (token : RetentionToken) (ack_size index : ℕ)
    → (response s token ack_size index).1
      ≡ response_in (is_current s token) (record_at s token) ack_size index s.bytes
unfolding response
response_lem s token ack_size index =
    let r = record_at s token in
    ap (λ x. x.1) (at_entry_lem s token _) ∙ elim (Bool-cases (is_current s token)) [
      | inl valid ↦ rw valid (
          if-map (λ (x : RetentionStore × Result (Option (List ℕ))). x.1)
            (leb r.response_count index) _ _)
      | inr invalid ↦ rw invalid refl
    ]

abbrev pub canonical_in : Bool → Record → List ℕ → Result (List ℕ)
canonical_in valid r bytes =
    if valid then ok (slice r.canonical r.offset bytes) else err (error stale_generation)

pub canonical_lem :
    (s : RetentionStore) (token : RetentionToken)
    → (canonical s token).1 ≡ canonical_in (is_current s token) (record_at s token) s.bytes
unfolding canonical
canonical_lem s token =
    ap (λ x. x.1) (at_entry_lem s token _)
    ∙ if-map (λ (x : RetentionStore × Result (List ℕ)). x.1) (is_current s token) _ _

abbrev pub counted : Record → Record
counted r = record r { response_count = add64 r.response_count 1 }

abbrev pub appended : RetentionStore → RetentionToken → ℕ → AckRecord → RetentionStore
appended s token ack_size ack =
    let r = record_at s token in
    record (set_record s token.slot token.cancellation (counted r)) {
      bytes = copy_at s.bytes (response_offset r ack_size r.response_count) ack.image;
    }

pub append-ok :
    (s : RetentionStore) (token : RetentionToken) (ack_size : ℕ) (ack : AckRecord)
    → is_ok (append s token ack_size ack).1 ≡ true
    → (is_current s token ≡ true)
      × ((record_at s token).response_count ≢ (record_at s token).response_capacity)
      × ((append s token ack_size ack).0 ≡ appended s token ack_size ack)
unfolding append
append-ok s token ack_size ack =
    let r = record_at s token in
    let P : RetentionStore × Result (Unit {0}) → Type 0 = λ x.
      is_ok x.1 ≡ true
      → (is_current s token ≡ true)
        × (r.response_count ≢ r.response_capacity)
        × (x.0 ≡ appended s token ack_size ack) in
    subst P
      (sym (
        at_entry_lem s token
          (λ e. append_to s token ack_size ack (record_of e token.cancellation))))
      (if-split P (is_current s token) {x = append_to s token ack_size ack r}
        {y = (s, err (error stale_generation))}
        (λ valid.
          if-split P
            (not r.active || r.terminal || not (eq_bool ack.cancellation token.cancellation))
            {x = (s, err (error invalid_state))}
            {y = (if r.response_count == r.response_capacity
              then (s, err (error capacity_exhausted))
              else (appended s token ack_size ack, done))}
            (λ refused h. absurd (ground (arith, h)))
            (λ active.
              if-split P (r.response_count == r.response_capacity)
                {x = (s, err (error capacity_exhausted))}
                {y = (appended s token ack_size ack, done)} (λ full h. absurd (ground (arith, h)))
                (λ room h. (valid, (λ same. absurd (ground (arith, room, same))), refl))))
        (λ invalid h. absurd (ground (arith, h))))
