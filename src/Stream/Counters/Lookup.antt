-- ===== src/Stream/Counters/Lookup.antt =====
-- The registry as a map from keys to counters: what each loop does to `find_next`.
use vrt_framework.Prelude.{
  ℕ, suc, ◌+◌, ◌%◌, ◌≡◌, refl, ◌≢◌, ◌↔◌, ◌⊎◌, inl, inr, true, Option, none, some, [], ◌∷◌, arith,
  ◌==◌, if◌then◌else◌, Bool-cases, Option-cases, has_value, eq_option,
}
use vrt_framework.Core.Error.{error, invalid_argument, stale_generation, ok, err, >>=-eq-ok}
use vrt_framework.Stream.Counters.{
  CounterKey, same_key, Entries, registered, insert_key, free_entries, find_next, bump,
  accept_entry,
}

eq_option_iff : (a b : Option ℕ) → (eq_option a b ≡ true) ↔ (a ≡ b)
eq_option_iff none none = (λ _. refl, λ _. refl)
eq_option_iff none (some b) = (λ h. cc, λ h. cc)
eq_option_iff (some a) none = (λ h. cc, λ h. cc)
eq_option_iff (some a) (some b) = (λ h. ground arith, λ h. ground arith)

pub same_key-eq : (a b : CounterKey) → same_key a b ≡ true → a ≡ b
same_key-eq a b h = ground (arith, eq_option_iff a.stream_id b.stream_id)

pub same_key_refl : (a : CounterKey) → same_key a a ≡ true
same_key_refl a = ground (arith, eq_option_iff a.stream_id a.stream_id)

-- Two keys that are the same as a third are the same.
pub same_key_trans : (a b k : CounterKey) → same_key a b ≡ true → same_key a k ≡ same_key b k
same_key_trans a b k h = rw (same_key-eq a b h)

pub registered-find_next :
    (key : CounterKey) (es : Entries) → registered key es ≡ has_value (find_next key es)
unfolding registered find_next
registered-find_next key [] = refl
registered-find_next key (none ∷ es) = registered-find_next key es
registered-find_next key (some e ∷ es) = ground (arith, registered-find_next key es)

pub free_entries-insert :
    (key : CounterKey) (es : Entries) {es' : Entries}
    → insert_key key es ≡ some es'
    → free_entries es ≡ suc (free_entries es')
unfolding insert_key free_entries
free_entries-insert key [] h = cc
free_entries-insert key (none ∷ es) h = ground arith
free_entries-insert key (some e ∷ es) h = elim (Option-cases (insert_key key es)) [
  | inl n ↦ ground (arith, n)
  | inr (x, s) ↦ ground (arith, s, free_entries-insert key es s)
]

pub insert_key-none :
    (key : CounterKey) (es : Entries) → insert_key key es ≡ none → free_entries es ≡ 0
unfolding insert_key free_entries
insert_key-none key [] h = refl
insert_key-none key (none ∷ es) h = cc
insert_key-none key (some e ∷ es) h = elim (Option-cases (insert_key key es)) [
  | inl n ↦ insert_key-none key es n
  | inr (x, s) ↦ ground (arith, s)
]

-- A key that was not there is found with counter 0 after its insertion, and nothing else changes.
pub find_next-insert :
    (key k : CounterKey) (es : Entries) {es' : Entries}
    → find_next key es ≡ none
    → insert_key key es ≡ some es'
    → find_next k es' ≡ (if same_key key k then some 0 else find_next k es)
unfolding insert_key find_next
find_next-insert key k [] n h = cc
find_next-insert key k (none ∷ es) n h = ground arith
find_next-insert key k (some e ∷ es) n h = elim (Option-cases (insert_key key es)) [
  | inl z ↦ ground (arith, z)
  | inr (x, s) ↦ ground (
    arith,
    s,
    find_next-insert key k es {es' = x},
    same_key_trans key k e.key,
    same_key-eq e.key k,
    same_key-eq key k,
  )
]

-- What the loop of `accept` does, told by the counter that the key has.
pub accept_entry-cases :
    (key : CounterKey) (n : ℕ) (es : Entries)
    → ((find_next key es ≡ none) × (accept_entry key n es ≡ err (error invalid_argument)))
      ⊎ ((m : ℕ) × (find_next key es ≡ some m)
          × (m ≢ n)
          × (accept_entry key n es ≡ err (error stale_generation)))
      ⊎ ((es' : Entries) × (find_next key es ≡ some n) × (accept_entry key n es ≡ ok es'))
unfolding accept_entry find_next
accept_entry-cases key n [] = inl (refl, refl)
accept_entry-cases key n (none ∷ es) = elim (accept_entry-cases key n es) [
  | inl (f, a) ↦ inl (f, rw a)
  | inr (inl (m, f, d, a)) ↦ inr (inl (m, f, d, rw a))
  | inr (inr (es', f, a)) ↦ inr (inr (none ∷ es', f, rw a))
]
accept_entry-cases key n (some e ∷ es) = elim (Bool-cases (same_key e.key key)) [
  | inl here ↦ elim (Bool-cases (e.next == n)) [
    | inl eq ↦ inr (inr (some (bump e) ∷ es, ground arith, rw (here, eq)))
    | inr ne ↦ inr (inl (e.next, rw here, ground arith, rw (here, ne)))
  ]
  | inr there ↦ elim (accept_entry-cases key n es) [
    | inl (f, a) ↦ inl (rw there f, rw (there, a))
    | inr (inl (m, f, d, a)) ↦ inr (inl (m, rw there f, d, rw (there, a)))
    | inr (inr (es', f, a)) ↦ inr (inr (some e ∷ es', rw there f, rw (there, a)))
  ]
]

-- An accepted packet advances the counter of its key, modulo 16, and no other.
pub find_next-accept :
    (key k : CounterKey) (n : ℕ) (es : Entries) {es' : Entries}
    → accept_entry key n es ≡ ok es'
    → find_next k es' ≡ (if same_key key k then some ((n + 1) % 16) else find_next k es)
unfolding accept_entry find_next
find_next-accept key k n [] h = cc
find_next-accept key k n (none ∷ es) h =
    let (x, a, e) = >>=-eq-ok (accept_entry key n es) _ h in
    ground (arith, e, find_next-accept key k n es {es' = x} a)
find_next-accept key k n (some e ∷ es) h = elim (Bool-cases (same_key e.key key)) [
  | inl here ↦ ground (arith, here, same_key_trans e.key key k here)
  | inr there ↦
      let (x, a, q) = >>=-eq-ok (accept_entry key n es) _ (rw there at h) in
      ground (
        arith,
        q,
        there,
        find_next-accept key k n es {es' = x} a,
        same_key-eq e.key k,
        same_key-eq key k,
        same_key_refl k,
      )
]
