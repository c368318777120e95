-- ===== src/Completion/Tests.antt =====
-- include/vita/runtime/completion: an arena of two slots.
use vrt_framework.Prelude.{
  ◌≡◌, refl, true, false, ◌&&◌, none, some, [], ◌∷◌, arith, ◌==◌, if◌then◌else◌, has_value,
}
use vrt_framework.Completion.Ticket.{
  CompletionResult, CompletionState, Ticket, no_result, new_arena, tag, reserved, free, retired,
  max_ticket_generation, is_reserved, try_claim, publish, reserve, first_free, consume,
  generation_of, slot_at, ticket_state, QuiescenceState, arm, prove_quiescent,
}
use vrt_framework.Completion.Ticket.Claims.{
  System, reserves, claims, finishes, consumes, call, run, IsSystem,
}
use vrt_framework.Completion.Ticket.Once.{claim_once}
use vrt_framework.Completion.Ticket.Delivery.{consume-publish, prove_quiescent_lem}

abbrev arena : CompletionState
arena = record {
  slots =
      record { tagged = tag 1 reserved; operation = 42; payload = no_result }
      ∷ record { tagged = tag 3 free; operation = 0; payload = no_result }
      ∷ [];
  rejected = 0;
}

-- It is what `reserve` leaves, but for the generation of the second slot.
reserve_lem : (reserve (new_arena 2 1) 42).0.slots ≡ (
    record { tagged = tag 1 reserved; operation = 42; payload = no_result }
    ∷ record { tagged = tag 1 free; operation = 0; payload = no_result }
    ∷ [])
unfolding reserve first_free
reserve_lem = refl

abbrev ticket : Ticket
ticket = record { slot = 0; generation = 1 }

abbrev system : System
system = record { arena = arena; writers = [] }

system-IsSystem : IsSystem system
system-IsSystem = record { held = tt; disjoint = tt }

reserved_lem : is_reserved arena ticket ≡ true
unfolding is_reserved
reserved_lem = refl

claim_once_example :
    (try_claim
      (run
        (call system (claims ticket))
        (finishes 0 no_result ∷ consumes 0 ∷ reserves 9 ∷ [])).arena
      ticket).1
    ≡ none
claim_once_example =
    claim_once system ticket (finishes 0 no_result ∷ consumes 0 ∷ reserves 9 ∷ []) system-IsSystem
      reserved_lem

abbrev result : CompletionResult
result = record no_result { value = 5 }

consume-publish_example :
    ((publish arena ticket result).1 ≡ true)
    × ((consume (publish arena ticket result).0 0).1
        ≡ some (record { operation = 42; result = result }))
    × (ticket_state (consume (publish arena ticket result).0 0).0 0
        ≡ (if 1 == max_ticket_generation then retired else free))
    × (generation_of (slot_at (consume (publish arena ticket result).0 0).0 0)
        ≡ (if 1 == max_ticket_generation then 1 else 2))
    × ((slot_at (consume (publish arena ticket result).0 0).0 0).payload ≡ no_result)
    × (consume (consume (publish arena ticket result).0 0).0 0
        ≡ ((consume (publish arena ticket result).0 0).0, none))
consume-publish_example = consume-publish arena ticket result reserved_lem

abbrev quiescence : QuiescenceState
quiescence = record { storage = some 8; generation = 4 }

prove_quiescent_lem_example :
    ((prove_quiescent quiescence 4).1 ≡ (4 == 4 && has_value quiescence.storage))
    × ((prove_quiescent quiescence 4).0.storage ≡ (if 4 == 4 then none else some 8))
    × ((prove_quiescent (prove_quiescent quiescence 4).0 4).1 ≡ false)
    × ((prove_quiescent (arm (prove_quiescent quiescence 4).0 0 9).0.0 4).1 ≡ false)
prove_quiescent_lem_example = prove_quiescent_lem quiescence 4 0 9 (omega arith) (omega arith)
