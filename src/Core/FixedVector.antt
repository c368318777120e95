-- ===== src/Core/FixedVector.antt =====
-- include/vita/core/fixed_vector.hpp: the slots are a list of optionals of the capacity's length.
use vrt_framework.Prelude.{
  ℕ, zero, suc, ◌+◌, ◌-◌, Option, none, some, List, Bool, set, replicate, length, ◌==◌,
  if◌then◌else◌,
}
use vrt_framework.Core.Error.{error_needs, capacity_exhausted, Result, err, done}

pub record FixedVector {ℓ} (A : Type ℓ) : Type ℓ where
  pub slots : List (Option A)
  pub size : ℕ

module _ {ℓ} {A : Type ℓ} where
  pub empty_vector : ℕ → FixedVector A
  empty_vector n = record { slots = replicate n none; size = 0 }

  pub is_empty : FixedVector A → Bool
  is_empty v = v.size == 0

  pub is_full : FixedVector A → Bool
  is_full v = v.size == length v.slots

  -- `emplace_back`, which `push_back` calls
  pub push_back : FixedVector A → A → FixedVector A × Result (Unit {0})
  unfolding is_full
  push_back v x =
      if is_full v
      then (v, err (error_needs capacity_exhausted 0 (v.size + 1)))
      else (record { slots = set v.slots v.size (some x); size = v.size + 1 }, done)

  pub pop_back : FixedVector A → FixedVector A
  pop_back v =
      if v.size == 0 then v else record { slots = set v.slots (v.size - 1) none; size = v.size - 1 }

  -- the loop of `clear`, over the live elements
  clear_loop : ℕ → FixedVector A → FixedVector A
  clear_loop zero v = v
  clear_loop (suc n) v = clear_loop n (pop_back v)

  pub clear : FixedVector A → FixedVector A
  unfolding clear_loop
  clear v = clear_loop v.size v
