-- ===== src/Stream/Counters/Sequence.antt =====
-- The counters that a sender's accepted packets carry.
use vrt_framework.Prelude.{
  ℕ, ◌+◌, ◌%◌, ◌≡◌, refl, sym, ap, ◌∙◌, subst, ◌≢◌, ◌↔◌, ◌⊎◌, inl, inr, Bool, true, false, List, [],
  ◌∷◌, arith, if◌then◌else◌, Bool-cases,
}
use vrt_framework.Core.Error.{
  error, invalid_argument, stale_generation, ok, err, done, is_ok, ok-injective, ok-injective,
}
use vrt_framework.Stream.Counters.{
  CounterKey, same_key, Entries, CounterRegistry, next, accept_entry, accept, replace_entries,
  found_count,
}
use vrt_framework.Stream.Counters.Lookup.{same_key_refl, accept_entry-cases, find_next-accept}

accept-ok :
    (r : CounterRegistry) (key : CounterKey) (n : ℕ) (es : Entries)
    → r.frozen ≡ true
    → accept_entry key n r.entries ≡ ok es
    → accept r key n ≡ (record r { entries = es }, done)
unfolding accept replace_entries
accept-ok r key n es frozen a = rw (frozen, a)

next-accepted :
    (r : CounterRegistry) (key k : CounterKey) (n : ℕ) (es : Entries)
    → r.frozen ≡ true
    → accept_entry key n r.entries ≡ ok es
    → next (record r { entries = es }) k ≡ (if same_key key k then ok ((n + 1) % 16) else next r k)
unfolding next found_count
next-accepted r key k n es frozen a =
    ground (arith, find_next-accept key k n r.entries {es' = es} a)

-- What `accept` does in a frozen registry, on every branch: an unknown key and a count other than the
-- next one are refused and change nothing; the next count is accepted, the counter of the key goes up
-- by one modulo 16, and no other counter moves.
pub accept_lem :
    (r : CounterRegistry) (key : CounterKey) (count : ℕ)
    → r.frozen ≡ true
    → ((next r key ≡ err (error invalid_argument))
        × (accept r key count ≡ (r, err (error invalid_argument))))
      ⊎ ((n : ℕ) × (next r key ≡ ok n)
          × (n ≢ count)
          × (accept r key count ≡ (r, err (error stale_generation))))
      ⊎ ((next r key ≡ ok count)
          × ((accept r key count).1 ≡ ok tt)
          × ((k : CounterKey)
              → next (accept r key count).0 k
                ≡ (if same_key key k then ok ((count + 1) % 16) else next r k)))
unfolding next accept replace_entries found_count
accept_lem r key count frozen = elim (accept_entry-cases key count r.entries) [
  | inl (f, a) ↦ inl (rw (frozen, f), rw (frozen, a))
  | inr (inl (m, f, d, a)) ↦ inr (inl (m, rw (frozen, f), d, rw (frozen, a)))
  | inr (inr (es, f, a)) ↦ inr (
      inr (
        rw (frozen, f),
        rw (frozen, a),
        λ k.
            subst (λ q. next q.0 k ≡ (if same_key key k then ok ((count + 1) % 16) else next r k))
              (sym (accept-ok r key count es frozen a)) (next-accepted r key k count es frozen a),
      ))
]

-- Accepting packets one after the other.
pub accept_each : CounterRegistry → CounterKey → List ℕ → CounterRegistry × Bool
accept_each r key [] = (r, true)
accept_each r key (n ∷ ns) =
    let r' = accept r key n in if is_ok r'.1 then accept_each r'.0 key ns else (r'.0, false)

-- The counts from `n` on, modulo 16.
abbrev pub Consecutive : ℕ → List ℕ → Type 0
Consecutive n [] = Unit {0}
Consecutive n (x ∷ xs) = (x ≡ n) × Consecutive ((n + 1) % 16) xs

frozen-accept :
    (r : CounterRegistry) (key : CounterKey) (n : ℕ) → (accept r key n).0.frozen ≡ r.frozen
unfolding accept replace_entries
frozen-accept r key n = ground arith

next-accept_self :
    (r : CounterRegistry) (key : CounterKey) (n : ℕ)
    → r.frozen ≡ true
    → next r key ≡ ok n
    → ((accept r key n).1 ≡ ok tt) × (next (accept r key n).0 key ≡ ok ((n + 1) % 16))
next-accept_self r key n frozen h = elim (accept_lem r key n frozen) [
  | inl (f, _) ↦ cc (sym f ∙ h)
  | inr (inl (m, f, d, _)) ↦ absurd (d (ok-injective (sym f ∙ h)))
  | inr (inr (_, a, others)) ↦ (a, others key ∙ rw (same_key_refl key))
]

accept-is_ok :
    (r : CounterRegistry) (key : CounterKey) (n m : ℕ)
    → r.frozen ≡ true
    → next r key ≡ ok n
    → is_ok (accept r key m).1 ≡ true
    → m ≡ n
accept-is_ok r key n m frozen h a = elim (accept_lem r key m frozen) [
  | inl (f, _) ↦ cc (sym f ∙ h)
  | inr (inl (k, f, d, q)) ↦ cc (rw q at a)
  | inr (inr (f, _, _)) ↦ ok-injective (sym f ∙ h)
]

-- In a frozen registry a sequence of packets of one key is accepted to the end exactly if the packets
-- carry the key's next count, the one after it, and so on, modulo 16.
pub accept_each-Consecutive :
    (ns : List ℕ) (r : CounterRegistry) (key : CounterKey) (n : ℕ)
    → r.frozen ≡ true
    → next r key ≡ ok n
    → ((accept_each r key ns).1 ≡ true) ↔ Consecutive n ns
unfolding accept_each
accept_each-Consecutive [] r key n frozen h = (λ _. tt, λ _. refl)
accept_each-Consecutive (m ∷ ns) r key n frozen h = (
  λ all. elim (Bool-cases (is_ok (accept r key m).1)) [
    | inr stop ↦ cc (rw stop at all)
    | inl go ↦
        let e = accept-is_ok r key n m frozen h go in
        let (a, h') = next-accept_self r key m frozen (h ∙ ap ok (sym e)) in
        (
          e,
          subst (λ k. Consecutive ((k + 1) % 16) ns) e
              ((accept_each-Consecutive ns (accept r key m).0 key ((m + 1) % 16)
                  (frozen-accept r key m ∙ frozen) h').0
                (rw go at all)),
        )
  ],
  λ c.
      let (a, h') = next-accept_self r key m frozen (h ∙ ap ok (sym c.0)) in
      rw a (
        (accept_each-Consecutive ns (accept r key m).0 key ((m + 1) % 16)
            (frozen-accept r key m ∙ frozen) h').1
          (subst (λ k. Consecutive ((k + 1) % 16) ns) (sym c.0) c.1)),
)
