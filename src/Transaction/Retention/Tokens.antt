-- ===== src/Transaction/Retention/Tokens.antt =====
-- include/vita/runtime/transaction/retention.hpp: the operations on the record of a token, and expiry.
-- `ack_size` stands for the size of an `AckRecord`.
use vrt_framework.Prelude.{
  ℕ, zero, suc, ◌+◌, ◌-◌, ◌*◌, Bool, true, false, ◌&&◌, ◌||◌, not, Option, none, some, List, [],
  ◌∷◌, ltb, leb, ◌==◌, if◌then◌else◌, eq_bool, u64_max, add64, length, set, take, drop,
}
use vrt_framework.Core.Error.{
  error, capacity_exhausted, stale_generation, invalid_state, Result, ok, err, done,
}
use vrt_framework.Timing.Time.{deadline}
use vrt_framework.Transaction.Retention.{
  RetentionToken, Handle, AckRecord, Record, Entry, record_of, with_record, RetentionStore,
  entry_at, set_entry, set_record, entry, clear_record, erase,
}

-- Each operation of a token begins with the entry of their token.
abbrev pub at_entry {ℓ} :
    {A : Type ℓ}
    → RetentionStore
    → RetentionToken
    → (Entry → RetentionStore × Result A)
    → RetentionStore × Result A
at_entry s token k = elim (entry s token) [
  | none ↦ (s, err (error stale_generation))
  | some e ↦ k e
]

unfoldable pub bind :
    RetentionStore → RetentionToken → Option Handle → RetentionStore × Result (Unit {0})
unfolding entry
bind s token handle = at_entry s token λ e.
    let r = record_of e token.cancellation in
    if r.active || r.terminal then (s, err (error invalid_state)) else (
      set_record s token.slot token.cancellation (record r { active = true; engine = handle }),
      done,
    )

unfoldable pub engine_handle :
    RetentionStore → RetentionToken → RetentionStore × Result (Option Handle)
unfolding entry
engine_handle s token = at_entry s token λ e. (s, ok (record_of e token.cancellation).engine)

-- `std::memcpy` into the bytes of the store
abbrev pub copy_at : List ℕ → ℕ → List ℕ → List ℕ
copy_at bytes offset [] = bytes
copy_at bytes offset (b ∷ bs) = copy_at (set bytes offset b) (suc offset) bs

abbrev pub response_offset : Record → ℕ → ℕ → ℕ
response_offset r ack_size index = r.offset + r.canonical + index * ack_size

-- `append` to the record of an entry
abbrev pub append_to :
    RetentionStore → RetentionToken → ℕ → AckRecord → Record → RetentionStore × Result (Unit {0})
append_to s token ack_size ack r =
    let t =
      set_record s token.slot token.cancellation
        (record r { response_count = add64 r.response_count 1 }) in
    if not r.active || r.terminal || not (eq_bool ack.cancellation token.cancellation)
    then (s, err (error invalid_state))
    else if r.response_count == r.response_capacity
    then (s, err (error capacity_exhausted))
    else (
      record t { bytes = copy_at s.bytes (response_offset r ack_size r.response_count) ack.image },
      done,
    )

unfoldable pub append :
    RetentionStore → RetentionToken → ℕ → AckRecord → RetentionStore × Result (Unit {0})
unfolding entry
append s token ack_size ack =
    at_entry s token λ e. append_to s token ack_size ack (record_of e token.cancellation)

-- The bytes of a response, where there is one at the index.
unfoldable pub response :
    RetentionStore → RetentionToken → ℕ → ℕ → RetentionStore × Result (Option (List ℕ))
unfolding entry
response s token ack_size index = at_entry s token λ e.
    let r = record_of e token.cancellation in
    if leb r.response_count index
    then (s, ok none)
    else (s, ok (some (take ack_size (drop (response_offset r ack_size index) s.bytes))))

abbrev pub minimum_retention_ns : ℕ
minimum_retention_ns = 30000000000

unfoldable pub expiry : ℕ → ℕ → ℕ
unfolding deadline
expiry now expires = elim (deadline now minimum_retention_ns) [
  | err e ↦ u64_max
  | ok end ↦ if ltb expires end then end else expires
]

unfoldable pub complete : RetentionStore → RetentionToken → ℕ → RetentionStore × Result (Unit {0})
unfolding entry expiry
complete s token now = at_entry s token λ e.
    let r = record_of e token.cancellation in
    if not r.active || r.terminal then (s, err (error invalid_state)) else (
      set_entry s token.slot (
          with_record (record e { expires = expiry now e.expires }) token.cancellation
            (record r { terminal = true; active = false; engine = none })),
      done,
    )

unfoldable pub canonical : RetentionStore → RetentionToken → RetentionStore × Result (List ℕ)
unfolding entry
canonical s token = at_entry s token λ e.
    let r = record_of e token.cancellation in (s, ok (take r.canonical (drop r.offset s.bytes)))

unfoldable pub terminal : RetentionStore → RetentionToken → RetentionStore × Result Bool
unfolding entry
terminal s token = at_entry s token λ e. (s, ok (record_of e token.cancellation).terminal)

unfoldable pub retain : RetentionStore → RetentionToken → RetentionStore × Result (Unit {0})
unfolding entry
retain s token =
    at_entry s token
      λ e. (set_entry s token.slot (record e { references = add64 e.references 1 }), done)

unfoldable pub release : RetentionStore → RetentionToken → RetentionStore × Result (Unit {0})
unfolding entry erase
release s token = at_entry s token λ e.
    let left = e.references - 1 in
    let t = set_entry s token.slot (record e { references = left }) in
    if e.references == 0 then (s, err (error stale_generation)) else (
      if left == 0 && not e.original.active && not e.original.terminal
          then erase t token.slot
          else t,
      done,
    )

unfoldable pub rollback : RetentionStore → RetentionToken → RetentionStore × Result (Unit {0})
unfolding entry erase clear_record
rollback s token = at_entry s token λ e.
    let r = record_of e token.cancellation in
    let t = clear_record s token.slot token.cancellation in
    let u =
      set_entry t token.slot (record (entry_at t token.slot) { references = e.references - 1 }) in
    if e.references == 0
    then (s, err (error stale_generation))
    else if r.active || r.terminal
    then (s, err (error invalid_state))
    else (if token.cancellation then u else erase u token.slot, done)

abbrev pub is_expired : ℕ → Entry → Bool
is_expired now e =
    e.original.used
    && e.original.terminal
    && (not e.cancellation.used || e.cancellation.terminal)
    && e.references == 0
    && leb e.expires now

-- The loop of `expire`, with `n` entries left.
abbrev pub expire_loop : RetentionStore → ℕ → ℕ → ℕ → RetentionStore
expire_loop s now zero slot = s
expire_loop s now (suc n) slot =
    expire_loop (if is_expired now (entry_at s slot) then erase s slot else s) now n (suc slot)

unfoldable pub expire : RetentionStore → ℕ → RetentionStore
unfolding erase
expire s now = expire_loop s now (length s.entries) 0

abbrev pub size_of_entries : List Entry → ℕ
size_of_entries [] = 0
size_of_entries (e ∷ es) = (if e.original.used then 1 else 0) + size_of_entries es

unfoldable pub size : RetentionStore → ℕ
size s = size_of_entries s.entries
