-- ===== src/Execution/Tests.antt =====
-- include/vita/runtime/execution: a bundle that is split and reset, and a charged ledger.
use vrt_framework.Prelude.{◌≤◌, ◌≡◌, refl, true, [], ◌∷◌, arith}
use vrt_framework.Execution.Admission.{AdmissionRequest, no_request, new_pool}
use vrt_framework.Execution.Admission.Conservation.{
  System, AdmissionCall, acquires, splits, drops, closes, AllCalls, IsBalanced, run-IsBalanced,
}
use vrt_framework.Execution.Admission.Conservation
use vrt_framework.Execution.Budget.{framework_budget, new_ledger, charged_bytes, reserved_bytes}
use vrt_framework.Execution.Budget.Ledger.{
  LedgerCall, charges, takes_headroom, moves, AllWithin, run_budget,
}
use vrt_framework.Execution.Budget.Ledger

abbrev two : AdmissionRequest
two = record { counts = λ i. 2; valid = true }

abbrev ten : AdmissionRequest
ten = record { counts = λ i. 10; valid = true }

abbrev fresh : System
fresh = record { pool = new_pool ten; bundles = [] }

fresh-IsBalanced : IsBalanced fresh 3
fresh-IsBalanced = record { balance = refl; within = omega arith; fits = omega arith }

run-IsBalanced_example :
    IsBalanced
      (Conservation.run fresh (acquires two ∷ splits 0 no_request ∷ drops 1 ∷ closes ∷ []))
      3
run-IsBalanced_example =
    run-IsBalanced fresh (acquires two ∷ splits 0 no_request ∷ drops 1 ∷ closes ∷ []) 3
      (omega arith) (omega arith, (omega arith, (tt, (tt, tt)))) fresh-IsBalanced

run_budget_example :
    (reserved_bytes (Ledger.run new_ledger (charges 4 100 ∷ takes_headroom 2 5 ∷ moves 1 0 7 ∷ []))
      ≡ framework_budget)
    × (charged_bytes (Ledger.run new_ledger (charges 4 100 ∷ takes_headroom 2 5 ∷ moves 1 0 7 ∷ []))
        ≤ framework_budget)
    × AllWithin (Ledger.run new_ledger (charges 4 100 ∷ takes_headroom 2 5 ∷ moves 1 0 7 ∷ []))
run_budget_example = run_budget (charges 4 100 ∷ takes_headroom 2 5 ∷ moves 1 0 7 ∷ [])
