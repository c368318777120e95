-- ===== src/Stream/Counters.antt =====
-- include/vita/runtime/stream/counters.hpp: the packet counters of the configured streams.
-- The registry's mutex makes each method one step, and a method that changes the registry returns it.
pub mod Lookup
pub mod Keys
pub mod Sequence
use vrt_framework.Prelude.{
  ℕ, zero, suc, ◌+◌, ◌-◌, ◌*◌, ◌/◌, ◌%◌, ◌^◌, ◌≤◌, ◌<◌, min, max, bit_and, bit_or, ◌≡◌, refl, sym,
  ap, ◌∙◌, subst, ◌≢◌, ◌↔◌, ◌⊎◌, inl, inr, Bool, true, false, ◌&&◌, ◌||◌, not, Option, none, some,
  List, [], ◌∷◌, ◌++◌, append-nil, append_assoc, arith, ltb, leb, ◌==◌, if◌then◌else◌, ltb→lt,
  lt→ltb, leb→le, ==_iff, ==_refl, Bool-cases, Option-cases, has_value, eq_option, eq_bool, u64_max,
  add64, sub64, mul64, bit, length, get_elem?, get_or, set, take, drop, replicate, length-append,
  length-set, get_elem?-set_self, get_elem?-set_ne, take-append-drop, length-take, length-drop,
  length-replicate, drop-append, take-append,
}
use vrt_framework.Core.Error.{
  ErrorCode, Error, error, error_at, error_needs, invalid_argument, unsupported_layout,
  unsupported_capability, overflow, short_input, short_output, capacity_exhausted, stale_generation,
  invalid_state, callback_failure, no_cpu_access, resource_limit, identity_conflict, Result, ok,
  err, ◌>>=◌, ◌>>◌, guard, done, is_ok, >>=-eq-ok, Result-cases, ok-injective, guard-eq-ok,
}
use mathlib.Core.Option

pub record CounterKey : Type 0 where
  pub sender : ℕ
  pub stream_id : Option ℕ
  pub type : ℕ

abbrev pub same_key : CounterKey → CounterKey → Bool
same_key a b = a.sender == b.sender && eq_option a.stream_id b.stream_id && a.type == b.type

pub record Entry : Type 0 where
  pub key : CounterKey
  pub next : ℕ

abbrev pub Entries : Type 0
Entries = List (Option Entry)

pub record CounterRegistry : Type 0 where
  pub entries : Entries
  pub frozen : Bool

-- `CounterRegistry<n>`
pub empty_registry : ℕ → CounterRegistry
empty_registry n = record { entries = replicate n none; frozen = false }

-- A packet type above 7, a stream that its type does not have, or none where it has one. The types
-- without a stream identifier are 0, `signal_without_sid`, and 2, `extension_without_sid`.
unfoldable pub bad_key : CounterKey → Bool
bad_key key = ltb 7 key.type || eq_bool (key.type == 0 || key.type == 2) (has_value key.stream_id)

-- The loop `for (e : entries) if (e && e->key == key)`.
unfoldable pub registered : CounterKey → Entries → Bool
registered key [] = false
registered key (none ∷ es) = registered key es
registered key (some e ∷ es) = same_key e.key key || registered key es

-- The loop that fills the first free entry; `none` when there is none.
unfoldable pub insert_key : CounterKey → Entries → Option Entries
insert_key key [] = none
insert_key key (none ∷ es) = some (some (record { key = key; next = 0 }) ∷ es)
insert_key key (some e ∷ es) = Option.map (◌∷◌ (some e)) (insert_key key es)

-- What `add` and `install` do with an insertion.
unfoldable pub inserted : Option Entries → Result Entries
inserted none = err (error capacity_exhausted)
inserted (some es) = ok es

-- One key of `add`; a key that is there already is an invalid argument.
unfoldable pub add_entry : CounterKey → Entries → Result Entries
unfolding bad_key registered inserted
add_entry key es =
    if bad_key key
    then err (error invalid_argument)
    else if registered key es
    then err (error invalid_argument)
    else inserted (insert_key key es)

-- A method's new state: that of the result, or the old one.
unfoldable pub replace_entries :
    CounterRegistry → Result Entries → CounterRegistry × Result (Unit {0})
replace_entries r (ok es) = (record r { entries = es }, done)
replace_entries r (err e) = (r, err e)

unfoldable pub add : CounterRegistry → CounterKey → CounterRegistry × Result (Unit {0})
unfolding add_entry replace_entries
add r key =
    if r.frozen then (r, err (error invalid_state)) else replace_entries r (add_entry key r.entries)

-- One key of `install`; a key that is there already is an identity conflict.
unfoldable pub install_entry : CounterKey → Entries → Result Entries
unfolding bad_key registered inserted
install_entry key es =
    if bad_key key
    then err (error invalid_argument)
    else if registered key es
    then err (error identity_conflict)
    else inserted (insert_key key es)

-- The loop of `install` over the batch, on the candidate copy.
unfoldable pub install_all : List CounterKey → Entries → Result Entries
unfolding install_entry
install_all [] es = ok es
install_all (key ∷ keys) es = install_entry key es >>= λ es'. install_all keys es'

unfoldable pub install : CounterRegistry → List CounterKey → CounterRegistry × Result (Unit {0})
unfolding install_all replace_entries
install r batch = replace_entries r (install_all batch r.entries)

unfoldable pub free_entries : Entries → ℕ
free_entries [] = 0
free_entries (none ∷ es) = suc (free_entries es)
free_entries (some e ∷ es) = free_entries es

unfoldable pub available : CounterRegistry → ℕ
unfolding free_entries
available r = free_entries r.entries

unfoldable pub freeze : CounterRegistry → CounterRegistry
freeze r = record r { frozen = true }

-- The loop of `next`.
unfoldable pub find_next : CounterKey → Entries → Option ℕ
find_next key [] = none
find_next key (none ∷ es) = find_next key es
find_next key (some e ∷ es) = if same_key e.key key then some e.next else find_next key es

unfoldable pub found_count : Option ℕ → Result ℕ
found_count none = err (error invalid_argument)
found_count (some n) = ok n

unfoldable pub next : CounterRegistry → CounterKey → Result ℕ
unfolding find_next found_count
next r key = if r.frozen then found_count (find_next key r.entries) else err (error invalid_state)

-- The entry after an accepted packet: `(next + 1) & 15`.
unfoldable pub bump : Entry → Entry
bump e = record e { next = (e.next + 1) % 16 }

-- The loop of `accept`: the first entry of the key decides.
unfoldable pub accept_entry : CounterKey → ℕ → Entries → Result Entries
unfolding bump
accept_entry key count [] = err (error invalid_argument)
accept_entry key count (none ∷ es) = accept_entry key count es >>= λ es'. ok (none ∷ es')
accept_entry key count (some e ∷ es) =
    let rest = accept_entry key count es in
    if same_key e.key key
    then (if e.next == count then ok (some (bump e) ∷ es) else err (error stale_generation))
    else (rest >>= λ es'. ok (some e ∷ es'))

unfoldable pub accept : CounterRegistry → CounterKey → ℕ → CounterRegistry × Result (Unit {0})
unfolding accept_entry replace_entries
accept r key count =
    if r.frozen
    then replace_entries r (accept_entry key count r.entries)
    else (r, err (error invalid_state))
