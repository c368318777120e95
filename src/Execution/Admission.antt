-- ===== src/Execution/Admission.antt =====
-- include/vita/runtime/execution/admission.hpp: credits of the runtime's resources. An array of counts
-- is a function of the index, of which the indices below `resource_count` matter; the mutex of the pool
-- makes each method one step. The bundles of a pool stand in a list beside it.
pub mod Conservation
use vrt_framework.Prelude.{
  ℕ, zero, suc, ◌+◌, ◌-◌, ◌*◌, ◌/◌, ◌%◌, ◌^◌, ◌≤◌, ◌<◌, min, max, bit_and, bit_or, ◌≡◌, refl, sym,
  ap, ◌∙◌, subst, ◌≢◌, ◌↔◌, ◌⊎◌, inl, inr, Bool, true, false, ◌&&◌, ◌||◌, not, Option, none, some,
  List, [], ◌∷◌, ◌++◌, append-nil, append_assoc, arith, ltb, leb, ◌==◌, if◌then◌else◌, ltb→lt,
  lt→ltb, leb→le, ==_iff, ==_refl, Bool-cases, Option-cases, some-injective, if-both, has_value,
  eq_option, eq_bool, u64_max, add64, sub64, mul64, bit, length, get_elem?, get_or, set, take, drop,
  replicate, length-append, length-set, get_elem?-set_self, get_elem?-set_ne, take-append-drop,
  length-take, length-drop, length-replicate, drop-append, take-append,
}
use vrt_framework.Core.Error.{
  ErrorCode, Error, error, error_at, error_needs, invalid_argument, unsupported_layout,
  unsupported_capability, overflow, short_input, short_output, capacity_exhausted, stale_generation,
  invalid_state, callback_failure, no_cpu_access, resource_limit, identity_conflict, Result, ok,
  err, ◌>>=◌, ◌>>◌, guard, done, is_ok, >>=-eq-ok, Result-cases, ok-injective, guard-eq-ok,
  >>-eq-ok,
}

-- transaction, plan_bytes, schedule, revision, completion, response, duplicate_entry, duplicate_bytes,
-- context_publication, ordinary_queue, cancellation_queue, cancellation_response, emergency_response
-- and data_queue are the resources 0 to 13.
abbrev pub resource_count : ℕ
resource_count = 14

abbrev pub Counts : Type 0
Counts = ℕ → ℕ

abbrev pub no_counts : Counts
no_counts i = 0

pub record AdmissionRequest : Type 0 where
  pub counts : Counts
  pub valid : Bool

abbrev pub no_request : AdmissionRequest
no_request = record { counts = no_counts; valid = true }

unfoldable pub need : AdmissionRequest → ℕ → ℕ → AdmissionRequest
need r index n =
    if leb resource_count index
    then record r { valid = false }
    else record r { counts = λ i. if i == index then n else r.counts i }

-- `detail::AdmissionState`
pub record AdmissionPool : Type 0 where
  pub capacities : AdmissionRequest
  pub used : Counts
  pub is_open : Bool

abbrev pub new_pool : AdmissionRequest → AdmissionPool
new_pool capacities = record { capacities = capacities; used = no_counts; is_open = true }

-- A bundle whose `state_` is null is not attached to the pool.
pub record AdmissionBundle : Type 0 where
  pub attached : Bool
  pub held : Counts

abbrev pub no_bundle : AdmissionBundle
no_bundle = record { attached = false; held = no_counts }

-- A loop over the resources that stops where the test holds.
abbrev pub some_below : ℕ → (ℕ → Bool) → Bool
some_below zero p = false
some_below (suc n) p = some_below n p || p n

unfoldable pub reset : AdmissionPool → AdmissionBundle → AdmissionPool × AdmissionBundle
reset pool b =
    if b.attached
    then (record pool { used = λ i. sub64 (pool.used i) (b.held i) }, no_bundle)
    else (pool, b)

unfoldable pub transfer :
    AdmissionBundle → AdmissionRequest → AdmissionBundle × Result AdmissionBundle
transfer b request =
    if not b.attached
    then (b, err (error invalid_state))
    else if not request.valid
    then (b, err (error invalid_argument))
    else if some_below resource_count (λ i. ltb (b.held i) (request.counts i))
    then (b, err (error invalid_argument))
    else (
      record b { held = λ i. sub64 (b.held i) (request.counts i) },
      ok (record { attached = true; held = request.counts }),
    )

unfoldable pub acquire : AdmissionPool → AdmissionRequest → AdmissionPool × Result AdmissionBundle
acquire pool request =
    if not request.valid || not pool.capacities.valid
    then (pool, err (error invalid_argument))
    else if not pool.is_open
    then (pool, err (error invalid_state))
    else if some_below resource_count
        (λ i. ltb (sub64 (pool.capacities.counts i) (pool.used i)) (request.counts i))
    then (pool, err (error capacity_exhausted))
    else (
      record pool { used = λ i. add64 (pool.used i) (request.counts i) },
      ok (record { attached = true; held = request.counts }),
    )

unfoldable pub held : AdmissionBundle → ℕ → ℕ
held b r = if ltb r resource_count then b.held r else 0

unfoldable pub capacity : AdmissionPool → ℕ → ℕ
capacity pool r = if ltb r resource_count then pool.capacities.counts r else 0

unfoldable pub used : AdmissionPool → ℕ → ℕ
used pool r = if ltb r resource_count then pool.used r else 0

unfoldable pub close : AdmissionPool → AdmissionPool
close pool = record pool { is_open = false }

unfoldable pub reference_capacities : AdmissionRequest
unfolding need
reference_capacities =
    need
      (need
        (need
          (need
            (need
              (need
                (need
                  (need
                    (need
                      (need (need (need (need (need no_request 0 256) 1 2097152) 2 128) 3 2048) 4
                        1024)
                      5 768)
                    6 4096)
                  7 8388608)
                8 2048)
              9 256)
            13 4096)
          10 64)
        11 64)
      12 256
