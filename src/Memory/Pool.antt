-- ===== src/Memory/Pool.antt =====
-- include/vita/memory/pool.hpp: pools of externally owned blocks and the leases on them. Addresses are
-- numbers, and a null address is `none`; a lease names its block, and `attached` is false where its
-- state pointer is null. The return callback is code of the client's and has no effect on the pool.
-- `release` and `return_block` are the two locked parts of `reset`; a history in Leases takes them as one
-- step, so it has no other call in between, while the block is held back.
pub mod Fit
pub mod Leases
pub mod Counted
use vrt_framework.Prelude.{
  ℕ, zero, suc, ◌+◌, ◌-◌, ◌*◌, ◌/◌, ◌%◌, ◌^◌, ◌≤◌, ◌<◌, min, max, bit_and, bit_or, ◌≡◌, refl, sym,
  ap, ◌∙◌, subst, ◌≢◌, ◌↔◌, ◌⊎◌, inl, inr, Bool, true, false, ◌&&◌, ◌||◌, not, Option, none, some,
  List, [], ◌∷◌, ◌++◌, append-nil, append_assoc, arith, ltb, leb, ◌==◌, if◌then◌else◌, ltb→lt,
  lt→ltb, leb→le, ==_iff, ==_refl, Bool-cases, Option-cases, some-injective, if-both, has_value,
  eq_option, eq_bool, u64_max, add64, sub64, mul64, bit, length, get_elem?, get_or, set, take, drop,
  replicate, length-append, length-set, get_elem?-set_self, get_elem?-set_ne, take-append-drop,
  length-take, length-drop, length-replicate, drop-append, take-append,
}
use vrt_framework.Core.Error.{
  ErrorCode, Error, error, error_at, error_needs, invalid_argument, unsupported_layout,
  unsupported_capability, overflow, short_input, short_output, capacity_exhausted, stale_generation,
  invalid_state, callback_failure, no_cpu_access, resource_limit, identity_conflict, Result, ok,
  err, ◌>>=◌, ◌>>◌, guard, done, is_ok, >>=-eq-ok, Result-cases, ok-injective, guard-eq-ok,
  >>-eq-ok,
}

-- `MemoryDomain`: 0 cpu, 1 device.
pub record BufferSpec : Type 0 where
  pub has_lifetime : Bool
  pub cpu_address : Option ℕ
  pub block_size : ℕ
  pub block_count : ℕ
  pub alignment : ℕ
  pub domain : ℕ
  pub device_address : ℕ

pub record BufferRequest : Type 0 where
  pub capacity : ℕ
  pub alignment : ℕ
  pub domain : ℕ
  pub cpu_access : Bool

pub record Block : Type 0 where
  pub address : Option ℕ
  pub capacity : ℕ
  pub alignment : ℕ
  pub references : ℕ
  pub domain : ℕ
  pub device_address : ℕ

-- `has_state` is false for a pool whose state pointer is null, and the rest is then not read.
pub record ExternalPool : Type 0 where
  pub has_state : Bool
  pub blocks : List Block
  pub returns : ℕ

-- `v && !(v & (v-1))`
abbrev pub power_of_two : ℕ → Bool
power_of_two v = not (v == 0) && bit_and v (v - 1) == 0

pub record BufferLease : Type 0 where
  pub attached : Bool
  pub index : ℕ
  pub used : ℕ

abbrev pub no_block : Block
no_block = record {
  address = none;
  capacity = 0;
  alignment = 0;
  references = 0;
  domain = 0;
  device_address = 0;
}

abbrev pub block_at : ExternalPool → ℕ → Block
block_at p i = get_or p.blocks i no_block

abbrev pub put_block : ExternalPool → ℕ → Block → ExternalPool
put_block p i b = record p { blocks = set p.blocks i b }

abbrev pub set_references : ExternalPool → ℕ → ℕ → ExternalPool
set_references p i n = put_block p i (record (block_at p i) { references = n })

unfoldable pub share : ExternalPool → BufferLease → ExternalPool × BufferLease
share p l = (set_references p l.index (add64 (block_at p l.index).references 1), l)

-- The first part of `reset`, under the lock: the block of the last lease is held back.
unfoldable pub release : ExternalPool → BufferLease → ExternalPool × Bool
release p l =
    let n = sub64 (block_at p l.index).references 1 in
    if n == 0 then (set_references p l.index u64_max, true) else (set_references p l.index n, false)

-- The second part, after the callback.
unfoldable pub return_block : BufferLease → ExternalPool × Bool → ExternalPool
return_block l (p, false) = p
return_block l (p, true) = record (set_references p l.index 0) { returns = add64 p.returns 1 }

unfoldable pub reset : ExternalPool → BufferLease → ExternalPool × BufferLease
unfolding release return_block
reset p l =
    if l.attached
    then (return_block l (release p l), record l { attached = false; used = 0 })
    else (p, l)

unfoldable pub set_size : ExternalPool → BufferLease → ℕ → BufferLease × Result (Unit {0})
set_size p l n =
    if not l.attached || ltb (block_at p l.index).capacity n
    then (l, err (error invalid_argument))
    else (record l { used = n }, done)

-- An address and an extent.
unfoldable pub writable_bytes : ExternalPool → BufferLease → Result (ℕ × ℕ)
writable_bytes p l =
    if not l.attached
    then err (error invalid_state)
    else region (block_at p l.index).address (block_at p l.index).capacity
  where
    region : Option ℕ → ℕ → Result (ℕ × ℕ)
    region none n = err (error no_cpu_access)
    region (some a) n = ok (a, n)

-- The checks of one specification in `create`, with the count so far.
unfoldable pub bad_spec : BufferSpec → Bool
bad_spec s =
    not s.has_lifetime
    || s.block_size == 0
    || s.block_count == 0
    || not (power_of_two s.alignment)
    || not (s.block_size % s.alignment == 0)
    || (s.domain == 0 && not (has_value s.cpu_address))
    || misaligned s.cpu_address
  where
    misaligned : Option ℕ → Bool
    misaligned none = false
    misaligned (some a) = not (a % s.alignment == 0)

unfoldable pub count_blocks : List BufferSpec → ℕ → Result ℕ
unfolding bad_spec
count_blocks [] count = ok count
count_blocks (s ∷ specs) count =
    if bad_spec s
    then err (error invalid_argument)
    else if ltb (u64_max / s.block_size) s.block_count || ltb (sub64 u64_max count) s.block_count
    then err (error overflow)
    else if not (s.device_address == 0)
        && ltb (sub64 u64_max s.device_address) (mul64 s.block_count s.block_size)
    then err (error overflow)
    else count_blocks specs (add64 count s.block_count)

abbrev pub shift_address : Option ℕ → ℕ → Option ℕ
shift_address none n = none
shift_address (some a) n = some (a + n)

-- The blocks of one specification from number `i` on.
unfoldable pub spec_blocks : BufferSpec → ℕ → ℕ → List Block
spec_blocks s i zero = []
spec_blocks s i (suc n) =
    record {
      address = shift_address s.cpu_address (i * s.block_size);
      capacity = s.block_size;
      alignment = s.alignment;
      references = 0;
      domain = s.domain;
      device_address = if s.device_address == 0 then 0 else s.device_address + i * s.block_size;
    }
    ∷ spec_blocks s (i + 1) n

unfoldable pub all_blocks : List BufferSpec → List Block
unfolding spec_blocks
all_blocks [] = []
all_blocks (s ∷ specs) = spec_blocks s 0 s.block_count ++ all_blocks specs

-- `create`, with the size of a block record of the allocator
unfoldable pub create : ℕ → List BufferSpec → Result ExternalPool
unfolding count_blocks all_blocks
create block_record specs = do
  count ← count_blocks specs 0
  guard (not (count == 0 || ltb (u64_max / block_record) count)) (error invalid_argument)
  ok (record { has_state = true; blocks = all_blocks specs; returns = 0 })

-- A block that can serve a request at all.
abbrev pub suits : BufferRequest → Block → Bool
suits r b =
    leb r.capacity b.capacity
    && leb r.alignment b.alignment
    && b.domain == r.domain
    && (not r.cpu_access || has_value b.address)

abbrev pub smaller : Option (ℕ × ℕ) → ℕ → Bool
smaller none n = true
smaller (some (i, c)) n = ltb n c

-- The loop of `acquire`: the selected block with its capacity.
unfoldable pub select : BufferRequest → List Block → ℕ → Option (ℕ × ℕ) → Option (ℕ × ℕ)
select r [] i selected = selected
select r (b ∷ bs) i selected = select r bs (i + 1) (
    if b.references == 0 && suits r b && smaller selected b.capacity
    then some (i, b.capacity)
    else selected)

abbrev pub lease_selected : ExternalPool → Option (ℕ × ℕ) → ExternalPool × Result BufferLease
lease_selected p none = (p, err (error capacity_exhausted))
lease_selected p (some (i, _)) =
    (set_references p i 1, ok (record { attached = true; index = i; used = 0 }))

unfoldable pub acquire : ExternalPool → BufferRequest → ExternalPool × Result BufferLease
unfolding select
acquire p r =
    if not p.has_state || r.capacity == 0 || not (power_of_two r.alignment)
    then (p, err (error invalid_argument))
    else lease_selected p (select r p.blocks 0 none)

unfoldable pub any_suits : BufferRequest → List Block → Bool
any_suits r [] = false
any_suits r (b ∷ bs) = suits r b || any_suits r bs

unfoldable pub supports : ExternalPool → BufferRequest → Bool
unfolding any_suits
supports p r =
    if not p.has_state || r.capacity == 0 || not (power_of_two r.alignment)
    then false
    else any_suits r p.blocks

unfoldable pub add_capacities : List Block → ℕ → Result ℕ
add_capacities [] total = ok total
add_capacities (b ∷ bs) total =
    if ltb (sub64 u64_max total) b.capacity
    then err (error overflow)
    else add_capacities bs (add64 total b.capacity)

unfoldable pub raw_bytes : ExternalPool → Result ℕ
unfolding add_capacities
raw_bytes p = if p.has_state then add_capacities p.blocks 0 else ok 0
