-- ===== src/Stream/Counters/Keys.antt =====
-- Which keys the registry holds: no key twice, and installation of a batch all or nothing.
use vrt_framework.Prelude.{
  ℕ, ◌+◌, ◌%◌, ◌≡◌, refl, sym, ap, ◌∙◌, subst, ◌⊎◌, inl, inr, Bool, false, ◌||◌, none, some, List,
  [], ◌∷◌, arith, if◌then◌else◌, Bool-cases, Option-cases, if-both, has_value, length,
}
use vrt_framework.Core.Error.{
  Error, Result, ok, err, >>=-eq-ok, Result-cases, ok-injective, guard-eq-ok, ok-injective,
}
use vrt_framework.Stream.Counters.{
  CounterKey, same_key, Entries, CounterRegistry, bad_key, registered, insert_key, inserted,
  add_entry, add, install_entry, install_all, install, free_entries, available, freeze, find_next,
  accept_entry, accept, replace_entries,
}
use vrt_framework.Stream.Counters.Lookup.{
  same_key-eq, same_key_refl, registered-find_next, free_entries-insert, find_next-insert,
}

-- No key stands in two entries.
abbrev pub Distinct : Entries → Type 0
Distinct [] = Unit {0}
Distinct (none ∷ es) = Distinct es
Distinct (some e ∷ es) = (registered e.key es ≡ false) × Distinct es

registered-insert :
    (key k : CounterKey) (es : Entries) {es' : Entries}
    → insert_key key es ≡ some es'
    → registered k es' ≡ (same_key key k || registered k es)
unfolding insert_key registered
registered-insert key k [] h = cc
registered-insert key k (none ∷ es) h = ground arith
registered-insert key k (some e ∷ es) h = elim (Option-cases (insert_key key es)) [
  | inl z ↦ ground (arith, z)
  | inr (x, s) ↦ ground (arith, s, registered-insert key k es {es' = x} s)
]

insert-Distinct :
    (key : CounterKey) (es : Entries) {es' : Entries}
    → registered key es ≡ false
    → insert_key key es ≡ some es'
    → Distinct es
    → Distinct es'
unfolding insert_key registered
insert-Distinct key [] r h d = cc
insert-Distinct key (none ∷ es) r h d = ground arith
insert-Distinct key (some e ∷ es) {es'} r h d = elim (Option-cases (insert_key key es)) [
  | inl z ↦ ground (arith, z)
  | inr (x, s) ↦
      let fresh : registered e.key x ≡ false = ground (
        arith,
        registered-insert key e.key es {es' = x} s,
        same_key-eq key e.key,
        same_key_refl key,
      ) in
      let kept : Distinct x = insert-Distinct key es {es' = x} (ground arith) s d.1 in
      let same : some e ∷ x ≡ es' = ground (arith, s) in subst Distinct same (fresh, kept)
]

accept-registered :
    (key k : CounterKey) (n : ℕ) (es : Entries) {es' : Entries}
    → accept_entry key n es ≡ ok es'
    → registered k es' ≡ registered k es
unfolding accept_entry registered
accept-registered key k n [] h = cc
accept-registered key k n (none ∷ es) h =
    let (x, a, e) = >>=-eq-ok (accept_entry key n es) _ h in
    ground (arith, e, accept-registered key k n es {es' = x} a)
accept-registered key k n (some e ∷ es) h = elim (Bool-cases (same_key e.key key)) [
  | inl here ↦ ground (arith, here)
  | inr there ↦
      let (x, a, q) = >>=-eq-ok (accept_entry key n es) _ (rw there at h) in
      ground (arith, q, there, accept-registered key k n es {es' = x} a)
]

accept-Distinct :
    (key : CounterKey) (n : ℕ) (es : Entries) {es' : Entries}
    → accept_entry key n es ≡ ok es'
    → Distinct es
    → Distinct es'
unfolding accept_entry registered
accept-Distinct key n [] h d = cc
accept-Distinct key n (none ∷ es) {es'} h d =
    let (x, a, q) = >>=-eq-ok (accept_entry key n es) _ h in
    subst Distinct (ok-injective q) (accept-Distinct key n es {es' = x} a d)
accept-Distinct key n (some e ∷ es) {es'} h d = elim (Bool-cases (same_key e.key key)) [
  | inl here ↦
      let same : some (record e { next = (e.next + 1) % 16 }) ∷ es ≡ es' = ground (arith, here) in
      subst Distinct same (d.0, d.1)
  | inr there ↦
      let (x, a, q) = >>=-eq-ok (accept_entry key n es) _ (rw there at h) in
      subst Distinct (ok-injective q) (
        accept-registered key e.key n es {es' = x} a ∙ d.0,
        accept-Distinct key n es {es' = x} a d.1,
      )
]

-- The insertion that `add` and `install` share.
inserted-ok :
    (key : CounterKey) (es : Entries) {es' : Entries}
    → inserted (insert_key key es) ≡ ok es'
    → insert_key key es ≡ some es'
unfolding inserted
inserted-ok key es h = elim (Option-cases (insert_key key es)) [
  | inl z ↦ cc (rw z at h)
  | inr (x, s) ↦ s ∙ ap some (ok-injective (rw s at h))
]

-- Of one successful installation: the key was new, and a free entry has taken it.
install_entry-ok :
    (key : CounterKey) (es : Entries) {es' : Entries}
    → install_entry key es ≡ ok es'
    → (registered key es ≡ false) × (insert_key key es ≡ some es')
unfolding install_entry
install_entry-ok key es h =
    let (g1, h1) = guard-eq-ok (bad_key key) _ _ h in
    let (g2, h2) = guard-eq-ok (registered key es) _ _ h1 in (g2, inserted-ok key es h2)

add_entry-ok :
    (key : CounterKey) (es : Entries) {es' : Entries}
    → add_entry key es ≡ ok es'
    → (registered key es ≡ false) × (insert_key key es ≡ some es')
unfolding add_entry
add_entry-ok key es h =
    let (g1, h1) = guard-eq-ok (bad_key key) _ _ h in
    let (g2, h2) = guard-eq-ok (registered key es) _ _ h1 in (g2, inserted-ok key es h2)

install_all-Distinct :
    (keys : List CounterKey) (es : Entries) {es' : Entries}
    → install_all keys es ≡ ok es'
    → Distinct es
    → Distinct es'
unfolding install_all
install_all-Distinct [] es h d = subst Distinct (ok-injective h) d
install_all-Distinct (key ∷ keys) es h d =
    let (x, a, h') = >>=-eq-ok (install_entry key es) _ h in
    let (new, ins) = install_entry-ok key es a in
    install_all-Distinct keys x h' (insert-Distinct key es new ins d)

-- A call of a method that can change the registry.
pub data RegistryCall : Type 0 where
  adds : CounterKey → RegistryCall
  installs : List CounterKey → RegistryCall
  accepts : CounterKey → ℕ → RegistryCall
  freezes : RegistryCall

pub call : CounterRegistry → RegistryCall → CounterRegistry
call r (adds key) = (add r key).0
call r (installs batch) = (install r batch).0
call r (accepts key n) = (accept r key n).0
call r freezes = freeze r

replace-Distinct :
    (r : CounterRegistry) (x : Result Entries)
    → Distinct r.entries
    → ((es : Entries) → x ≡ ok es → Distinct es)
    → Distinct (replace_entries r x).0.entries
unfolding replace_entries
replace-Distinct r (ok es) d f = f es refl
replace-Distinct r (err e) d f = d

-- No call of the registry makes a key stand in two entries.
pub call-DistinctKeys :
    (r : CounterRegistry) (c : RegistryCall) → Distinct r.entries → Distinct (call r c).entries
unfolding call add install accept freeze
call-DistinctKeys r (adds key) d =
    if-both {A = CounterRegistry × Result (Unit {0})} (λ p. Distinct p.0.entries) r.frozen d
      (replace-Distinct r (add_entry key r.entries) d λ es h.
        let (new, ins) = add_entry-ok key r.entries h in insert-Distinct key r.entries new ins d)
call-DistinctKeys r (installs batch) d =
    replace-Distinct r (install_all batch r.entries) d
      λ es h. install_all-Distinct batch r.entries h d
call-DistinctKeys r (accepts key n) d =
    if-both {A = CounterRegistry × Result (Unit {0})} (λ p. Distinct p.0.entries) r.frozen
      (replace-Distinct r (accept_entry key n r.entries) d
        λ es h. accept-Distinct key n r.entries h d)
      d
call-DistinctKeys r freezes d = d

abbrev pub among : CounterKey → List CounterKey → Bool
among k [] = false
among k (key ∷ keys) = same_key key k || among k keys

absent_lem : (key : CounterKey) (es : Entries) → registered key es ≡ false → find_next key es ≡ none
absent_lem key es h = elim (Option-cases (find_next key es)) [
  | inl n ↦ n
  | inr (x, s) ↦ cc (sym h ∙ registered-find_next key es ∙ ap has_value s)
]

install_all_lem :
    (keys : List CounterKey) (es : Entries) {es' : Entries}
    → install_all keys es ≡ ok es'
    → ((k : CounterKey) → find_next k es' ≡ (if among k keys then some 0 else find_next k es))
      × (free_entries es ≡ free_entries es' + length keys)
unfolding install_all
install_all_lem [] es {es'} h =
    (λ k. ap (find_next k) (sym (ok-injective h)), omega (arith, ap free_entries (ok-injective h)))
install_all_lem (key ∷ keys) es {es'} h =
    let (x, a, h') = >>=-eq-ok (install_entry key es) _ h in
    let (new, ins) = install_entry-ok key es a in
    let (find, free) = install_all_lem keys x h' in
    let absent : find_next key es ≡ none = absent_lem key es new in
    (
      λ k. find k ∙ ground (arith, find_next-insert key k es {es' = x} absent ins),
      omega (arith, free, free_entries-insert key es ins),
    )

-- `install` takes the whole batch or nothing: it fails and the registry is unchanged, or it succeeds,
-- and then each key of the batch counts from 0, every other key is as it was, and as many entries are
-- used up as the batch has keys.
pub install_batch_atomic :
    (r : CounterRegistry) (batch : List CounterKey)
    → ((e : Error) × (install r batch ≡ (r, err e)))
      ⊎ (((install r batch).1 ≡ ok tt)
          × ((k : CounterKey)
              → find_next k (install r batch).0.entries
                ≡ (if among k batch then some 0 else find_next k r.entries))
          × (available r ≡ available (install r batch).0 + length batch))
unfolding install available replace_entries
install_batch_atomic r batch = elim (Result-cases (install_all batch r.entries)) [
  | inl (es, h) ↦ inr (rw h (let p = install_all_lem batch r.entries h in (refl, p.0, p.1)))
  | inr (e, h) ↦ inl (e, rw h refl)
]
