-- ===== src/Execution/Budget/Ledger.antt =====
-- The ledger never reserves or charges more than the framework's budget.
use vrt_framework.Prelude.{
  ℕ, zero, suc, ◌+◌, ◌-◌, ◌/◌, ◌^◌, ◌≤◌, ◌<◌, ◌≡◌, refl, ap, ◌∙◌, ◌≢◌, inl, inr, false, ◌||◌, List,
  [], ◌∷◌, arith, ltb, leb, ◌==◌, Bool-cases, if-both, u64_max, add64, sub64, mul64, length, set,
  length-set,
}
use vrt_framework.Core.Error.{Result}
use vrt_framework.Execution.Budget.{
  BudgetRow, BudgetLedger, row, unused, headroom, framework_budget, new_ledger, charge,
  charge_objects, move_reserve, transfer_headroom, transfer_unused, charged_bytes, reserved_bytes,
}

pub data LedgerCall : Type 0 where
  charges : ℕ → ℕ → LedgerCall
  charges_objects : ℕ → ℕ → ℕ → LedgerCall
  takes_headroom : ℕ → ℕ → LedgerCall
  moves : ℕ → ℕ → ℕ → LedgerCall

unfoldable pub call : BudgetLedger → LedgerCall → BudgetLedger
call rows (charges i n) = (charge rows i n).0
call rows (charges_objects size i n) = (charge_objects rows size i n).0
call rows (takes_headroom i n) = (transfer_headroom rows i n).0
call rows (moves i j n) = (transfer_unused rows i j n).0

unfoldable pub run : BudgetLedger → List LedgerCall → BudgetLedger
unfolding call
run rows [] = rows
run rows (c ∷ cs) = run (call rows c) cs

abbrev pub total_reserved : BudgetLedger → ℕ
total_reserved [] = 0
total_reserved (r ∷ rows) = r.reserved + total_reserved rows

-- No row is charged more than its reservation.
abbrev pub AllWithin : BudgetLedger → Type 0
AllWithin [] = Unit {0}
AllWithin (r ∷ rows) = (r.charged ≤ r.reserved) × AllWithin rows

pub record IsLedger (rows : BudgetLedger) (total : ℕ) : Type 0 where
  pub count : length rows ≡ 15
  pub reservations : total_reserved rows ≡ total
  pub charges_within : AllWithin rows

total-set :
    (rows : BudgetLedger) (i : ℕ) (r : BudgetRow)
    → i < length rows
    → total_reserved (set rows i r) + (row rows i).reserved ≡ total_reserved rows + r.reserved
total-set [] i r h = absurd (omega arith)
total-set (x ∷ rows) zero r h = omega arith
total-set (x ∷ rows) (suc i) r h = omega (arith, total-set rows i r (omega arith))

row-le : (rows : BudgetLedger) (i : ℕ) → (row rows i).reserved ≤ total_reserved rows
row-le [] i = omega arith
row-le (x ∷ rows) zero = omega arith
row-le (x ∷ rows) (suc i) = omega (arith, row-le rows i)

row-two :
    (rows : BudgetLedger) (i j : ℕ)
    → i ≢ j
    → (row rows i).reserved + (row rows j).reserved ≤ total_reserved rows
row-two [] i j h = omega arith
row-two (x ∷ rows) zero zero h = absurd (h refl)
row-two (x ∷ rows) zero (suc j) h = omega (arith, row-le rows j)
row-two (x ∷ rows) (suc i) zero h = omega (arith, row-le rows i)
row-two (x ∷ rows) (suc i) (suc j) h = omega (arith, row-two rows i j (λ e. h (ap suc e)))

row-AllWithin :
    (rows : BudgetLedger) (i : ℕ) → AllWithin rows → (row rows i).charged ≤ (row rows i).reserved
row-AllWithin [] i w = omega arith
row-AllWithin (x ∷ rows) zero w = w.0
row-AllWithin (x ∷ rows) (suc i) w = row-AllWithin rows i w.1

AllWithin-set :
    (rows : BudgetLedger) (i : ℕ) (r : BudgetRow)
    → AllWithin rows
    → r.charged ≤ r.reserved
    → AllWithin (set rows i r)
AllWithin-set [] i r w h = tt
AllWithin-set (x ∷ rows) zero r w h = (h, w.1)
AllWithin-set (x ∷ rows) (suc i) r w h = (w.0, AllWithin-set rows i r w.1 h)

row-set_ne :
    (rows : BudgetLedger) (i j : ℕ) (r : BudgetRow) → i ≢ j → row (set rows i r) j ≡ row rows j
row-set_ne [] i j r h = refl
row-set_ne (x ∷ rows) zero zero r h = absurd (h refl)
row-set_ne (x ∷ rows) zero (suc j) r h = refl
row-set_ne (x ∷ rows) (suc i) zero r h = refl
row-set_ne (x ∷ rows) (suc i) (suc j) r h = row-set_ne rows i j r (λ e. h (ap suc e))

charge-IsLedger :
    (rows : BudgetLedger) (i n total : ℕ)
    → total < 2 ^ 64
    → IsLedger rows total
    → IsLedger (charge rows i n).0 total
unfolding charge
charge-IsLedger rows i n total fit v = elim (Bool-cases (leb (length rows) i)) [
  | inl out ↦ rw out v
  | inr in_range ↦ elim (Bool-cases (ltb (unused (row rows i)) n)) [
    | inl full ↦ rw (in_range, full) v
    | inr room ↦
        let r = row rows i in
        let r' : BudgetRow = record r { charged = add64 r.charged n } in
        let w = row-AllWithin rows i v.charges_within in
        let le = row-le rows i in
        let small : r.reserved < 2 ^ 64 = omega (arith, le, v.reservations) in
        let lt : i < length rows = ground (arith, in_range) in
        rw (in_range, room)
          (record {
            count = length-set rows i r' ∙ v.count;
            reservations = omega (arith, total-set rows i r' lt, v.reservations);
            charges_within = AllWithin-set rows i r' v.charges_within (ground (arith, room));
          })
  ]
]

-- The movement of an unused part of one row to another row.
move-IsLedger :
    (rows : BudgetLedger) (i j n total : ℕ)
    → total < 2 ^ 64
    → i < length rows
    → j < length rows
    → i ≢ j
    → ltb (unused (row rows i)) n ≡ false
    → IsLedger rows total
    → IsLedger (move_reserve rows i j n) total
unfolding move_reserve
move-IsLedger rows i j n total fit hi hj ne room v =
    let a = row rows i in
    let b = row rows j in
    let a' : BudgetRow = record a { reserved = sub64 a.reserved n } in
    let rows' : BudgetLedger = set rows i a' in
    let wa = row-AllWithin rows i v.charges_within in
    let wb = row-AllWithin rows j v.charges_within in
    let two = row-two rows i j ne in
    let same : row rows' j ≡ b = row-set_ne rows i j a' ne in
    let len = length-set rows i a' in
    let le : n ≤ a.reserved - a.charged = ground (arith, room, two, v.reservations) in
    let w' =
      AllWithin-set rows i a' v.charges_within (omega (arith, le, two, v.reservations, wa)) in
    let t' = total-set rows i a' hi in
    let b' : BudgetRow = record b { reserved = add64 b.reserved n } in
    let t'' = total-set rows' j b' (omega (arith, len)) in
    rw same (record {
      count = length-set rows' j b' ∙ len ∙ v.count;
      reservations = omega (arith, t', t'', v.reservations, two, le, ap (λ r. r.reserved) same);
      charges_within = AllWithin-set rows' j b' w' (omega (arith, wb, two, v.reservations, le));
    })

headroom-IsLedger :
    (rows : BudgetLedger) (i n total : ℕ)
    → total < 2 ^ 64
    → IsLedger rows total
    → IsLedger (transfer_headroom rows i n).0 total
unfolding transfer_headroom
headroom-IsLedger rows i n total fit v = elim (Bool-cases (leb (length rows - 1) i)) [
  | inl out ↦ rw out v
  | inr inside ↦ elim (Bool-cases (ltb (unused (row rows headroom)) n)) [
    | inl full ↦ rw (inside, full) v
    | inr room ↦
        let lt : i < 14 = ground (arith, inside, v.count) in
        rw (inside, room)
          (move-IsLedger rows headroom i n total fit (omega (arith, v.count))
            (omega (arith, v.count, lt)) (λ e. omega (arith, e, lt)) room v)
  ]
]

unused-IsLedger :
    (rows : BudgetLedger) (i j n total : ℕ)
    → total < 2 ^ 64
    → IsLedger rows total
    → IsLedger (transfer_unused rows i j n).0 total
unfolding transfer_unused
unused-IsLedger rows i j n total fit v =
    elim (Bool-cases (leb (length rows) i || leb (length rows) j || i == j)) [
      | inl out ↦ rw out v
      | inr inside ↦ elim (Bool-cases (ltb (unused (row rows i)) n)) [
        | inl full ↦ rw (inside, full) v
        | inr room ↦ elim (Bool-cases (ltb (sub64 u64_max (row rows j).reserved) n)) [
          | inl wraps ↦ rw (inside, room, wraps) v
          | inr fits ↦
              rw (inside, room, fits)
                (move-IsLedger rows i j n total fit (ground (arith, inside))
                  (ground (arith, inside)) (λ e. ground (arith, inside, e)) room v)
        ]
      ]
    ]

call-IsLedger :
    (rows : BudgetLedger) (c : LedgerCall) (total : ℕ)
    → total < 2 ^ 64
    → IsLedger rows total
    → IsLedger (call rows c) total
unfolding call charge_objects
call-IsLedger rows (charges i n) total fit v = charge-IsLedger rows i n total fit v
call-IsLedger rows (charges_objects size i n) total fit v =
    if-both {A = BudgetLedger × Result (Unit {0})} (λ p. IsLedger p.0 total)
      (ltb (u64_max / size) n) v (charge-IsLedger rows i (mul64 n size) total fit v)
call-IsLedger rows (takes_headroom i n) total fit v = headroom-IsLedger rows i n total fit v
call-IsLedger rows (moves i j n) total fit v = unused-IsLedger rows i j n total fit v

run-IsLedger :
    (rows : BudgetLedger) (cs : List LedgerCall) (total : ℕ)
    → total < 2 ^ 64
    → IsLedger rows total
    → IsLedger (run rows cs) total
unfolding run
run-IsLedger rows [] total fit v = v
run-IsLedger rows (c ∷ cs) total fit v =
    run-IsLedger (call rows c) cs total fit (call-IsLedger rows c total fit v)

reserved_bytes-total :
    (rows : BudgetLedger) → total_reserved rows < 2 ^ 64 → reserved_bytes rows ≡ total_reserved rows
unfolding reserved_bytes
reserved_bytes-total [] h = refl
reserved_bytes-total (r ∷ rows) h = omega (arith, reserved_bytes-total rows (omega arith))

charged_bytes-total :
    (rows : BudgetLedger)
    → total_reserved rows < 2 ^ 64
    → AllWithin rows
    → charged_bytes rows ≤ total_reserved rows
unfolding charged_bytes
charged_bytes-total [] h w = omega arith
charged_bytes-total (r ∷ rows) h w = omega (arith, charged_bytes-total rows (omega arith) w.1, w.0)

new_ledger-IsLedger : IsLedger new_ledger framework_budget
new_ledger-IsLedger = record {
  count = refl;
  reservations = refl;
  charges_within = (
    omega arith,
    (
      omega arith,
      (
        omega arith,
        (
          omega arith,
          (
            omega arith,
            (
              omega arith,
              (
                omega arith,
                (
                  omega arith,
                  (
                    omega arith,
                    (
                      omega arith,
                      (omega arith, (omega arith, (omega arith, (omega arith, (omega arith, tt))))),
                    ),
                  ),
                ),
              ),
            ),
          ),
        ),
      ),
    ),
  );
}

-- After any history of charges and transfers on a new ledger the reservations add up to exactly the
-- framework's budget, the charges to at most that, and no row is charged more than its reservation.
pub run_budget :
    (cs : List LedgerCall)
    → (reserved_bytes (run new_ledger cs) ≡ framework_budget)
      × (charged_bytes (run new_ledger cs) ≤ framework_budget)
      × AllWithin (run new_ledger cs)
run_budget cs =
    let v = run-IsLedger new_ledger cs framework_budget (omega arith) new_ledger-IsLedger in
    let fit : total_reserved (run new_ledger cs) < 2 ^ 64 = omega (arith, v.reservations) in
    (
      reserved_bytes-total (run new_ledger cs) fit ∙ v.reservations,
      omega (arith, charged_bytes-total (run new_ledger cs) fit v.charges_within, v.reservations),
      v.charges_within,
    )
