-- ===== src/Execution/Budget.antt =====
-- include/vita/runtime/execution/budget.hpp: the ledger of the framework's memory. The rows are a list of
-- fifteen; `reference_budget` needs the sizes of C++ objects and is not modelled.
pub mod Ledger
use vrt_framework.Prelude.{
  ℕ, zero, suc, ◌+◌, ◌-◌, ◌*◌, ◌/◌, ◌%◌, ◌^◌, ◌≤◌, ◌<◌, min, max, bit_and, bit_or, ◌≡◌, refl, sym,
  ap, ◌∙◌, subst, ◌≢◌, ◌↔◌, ◌⊎◌, inl, inr, Bool, true, false, ◌&&◌, ◌||◌, not, Option, none, some,
  List, [], ◌∷◌, ◌++◌, append-nil, append_assoc, arith, ltb, leb, ◌==◌, if◌then◌else◌, ltb→lt,
  lt→ltb, leb→le, ==_iff, ==_refl, Bool-cases, Option-cases, some-injective, if-both, has_value,
  eq_option, eq_bool, u64_max, add64, sub64, mul64, bit, length, get_elem?, get_or, set, take, drop,
  replicate, length-append, length-set, get_elem?-set_self, get_elem?-set_ne, take-append-drop,
  length-take, length-drop, length-replicate, drop-append, take-append,
}
use vrt_framework.Core.Error.{
  ErrorCode, Error, error, error_at, error_needs, invalid_argument, unsupported_layout,
  unsupported_capability, overflow, short_input, short_output, capacity_exhausted, stale_generation,
  invalid_state, callback_failure, no_cpu_access, resource_limit, identity_conflict, Result, ok,
  err, ◌>>=◌, ◌>>◌, guard, done, is_ok, >>=-eq-ok, Result-cases, ok-injective, guard-eq-ok,
  >>-eq-ok,
}

-- raw_blocks 0, providers 1, duplicate_values 2, duplicate_index 3, plans 4, transactions 5, revisions 6,
-- context_history 7, queues 8, completion 9, scheduling 10, retention 11, metrics 12,
-- adapters_stacks 13 and headroom 14.
abbrev pub budget_category_count : ℕ
budget_category_count = 15

abbrev pub headroom : ℕ
headroom = 14

abbrev pub framework_budget : ℕ
framework_budget = 67108864

abbrev pub retention_headroom_transfer : ℕ
retention_headroom_transfer = 704512

abbrev pub sdr_state_headroom_transfer : ℕ
sdr_state_headroom_transfer = 99712

pub record BudgetRow : Type 0 where
  pub reserved : ℕ
  pub charged : ℕ

abbrev pub no_row : BudgetRow
no_row = record { reserved = 0; charged = 0 }

abbrev pub BudgetLedger : Type 0
BudgetLedger = List BudgetRow

abbrev pub reserve : List ℕ → BudgetLedger
reserve [] = []
reserve (n ∷ ns) = record { reserved = n; charged = 0 } ∷ reserve ns

-- The constructor's reservations.
abbrev pub new_ledger : BudgetLedger
new_ledger = reserve (
    30998528
    ∷ 2621440
    ∷ 8388608
    ∷ 524288
    ∷ 2097152
    ∷ 1048576
    ∷ (1114112 + sdr_state_headroom_transfer)
    ∷ 1048576
    ∷ 3145728
    ∷ 524288
    ∷ 1048576
    ∷ (262144 + retention_headroom_transfer)
    ∷ 1048576
    ∷ 4194304
    ∷ (9043968 - retention_headroom_transfer - sdr_state_headroom_transfer)
    ∷ [])

-- `row(category)`, with an empty row out of range
abbrev pub row : BudgetLedger → ℕ → BudgetRow
row rows i = get_or rows i no_row

abbrev pub unused : BudgetRow → ℕ
unused r = sub64 r.reserved r.charged

unfoldable pub charge : BudgetLedger → ℕ → ℕ → BudgetLedger × Result (Unit {0})
charge rows index bytes =
    let r = row rows index in
    if leb (length rows) index
    then (rows, err (error invalid_argument))
    else if ltb (unused r) bytes
    then (rows, err (error capacity_exhausted))
    else (set rows index (record r { charged = add64 r.charged bytes }), done)

-- `charge_objects<T>`, with the size of `T`
unfoldable pub charge_objects : BudgetLedger → ℕ → ℕ → ℕ → BudgetLedger × Result (Unit {0})
unfolding charge
charge_objects rows size index count =
    if ltb (u64_max / size) count
    then (rows, err (error overflow))
    else charge rows index (mul64 count size)

-- The two assignments of a transfer: the second row is read after the first is written.
unfoldable pub move_reserve : BudgetLedger → ℕ → ℕ → ℕ → BudgetLedger
move_reserve rows from to bytes =
    let a = row rows from in
    let rows' = set rows from (record a { reserved = sub64 a.reserved bytes }) in
    let b = row rows' to in set rows' to (record b { reserved = add64 b.reserved bytes })

unfoldable pub transfer_headroom : BudgetLedger → ℕ → ℕ → BudgetLedger × Result (Unit {0})
unfolding move_reserve
transfer_headroom rows index bytes =
    if leb (length rows - 1) index
    then (rows, err (error invalid_argument))
    else if ltb (unused (row rows headroom)) bytes
    then (rows, err (error capacity_exhausted))
    else (move_reserve rows headroom index bytes, done)

unfoldable pub transfer_unused : BudgetLedger → ℕ → ℕ → ℕ → BudgetLedger × Result (Unit {0})
unfolding move_reserve
transfer_unused rows from to bytes =
    if leb (length rows) from || leb (length rows) to || from == to
    then (rows, err (error invalid_argument))
    else if ltb (unused (row rows from)) bytes
    then (rows, err (error capacity_exhausted))
    else if ltb (sub64 u64_max (row rows to).reserved) bytes
    then (rows, err (error overflow))
    else (move_reserve rows from to bytes, done)

unfoldable pub charged_bytes : BudgetLedger → ℕ
charged_bytes [] = 0
charged_bytes (r ∷ rows) = add64 r.charged (charged_bytes rows)

unfoldable pub reserved_bytes : BudgetLedger → ℕ
reserved_bytes [] = 0
reserved_bytes (r ∷ rows) = add64 r.reserved (reserved_bytes rows)
