-- ===== src/Completion/Ticket/Once.antt =====
-- A claimed reservation stays claimed: every call makes the words of the slots grow.
use vrt_framework.Prelude.{
  ℕ, zero, suc, ◌+◌, ◌-◌, ◌/◌, ◌%◌, ◌^◌, ◌≤◌, ◌≡◌, refl, ap, ◌∙◌, ◌≢◌, inl, inr, true, false, not,
  none, some, List, [], ◌∷◌, arith, ltb, leb, ◌==◌, ==_iff, ==_refl, Bool-cases, Option-cases,
  some-injective, if-both, add64, length, get_elem?, get_or,
}
use vrt_framework.Core.Error.{error, invalid_state}
use vrt_framework.Completion.Ticket.{
  CompletionResult, CompletionSlot, CompletionState, Ticket, no_slot, slot_at, put_slot, tag, free,
  reserved, writing, ready, state_of, generation_of, max_ticket_generation, is_reserved, try_claim,
  finish, first_free, reserve, recycled, consume,
}
use vrt_framework.Completion.Ticket.Claims.{
  System, TicketCall, reserves, claims, finishes, consumes, remove, call, run, word_at, AllWriting,
  IsSystem, slot-put, grows-put, AllWriting-put, not_writing-Apart, Disjoint-remove,
  AllWriting-remove, writer_at,
}

-- The invariant holds again, and no word became smaller.
pub record Advances (s s' : System) : Type 0 where
  pub kept : IsSystem s'
  pub grows : (i : ℕ) → word_at s.arena i ≤ word_at s'.arena i

stays : (s : System) → IsSystem s → Advances s s
stays s v = record { kept = v; grows = λ i. omega arith }

-- A write to a slot that is not in writing.
quiet :
    (s : System) (i : ℕ) (x : CompletionSlot)
    → word_at s.arena i % 256 ≢ writing
    → word_at s.arena i ≤ x.tagged
    → IsSystem s
    → Advances s (record s { arena = put_slot s.arena i x })
quiet s i x n le v = record {
  kept = record {
    held =
        AllWriting-put s.arena i x s.writers (not_writing-Apart s.arena i s.writers n v.held)
          v.held;
    disjoint = v.disjoint;
  };
  grows = grows-put s.arena i x le;
}

first_free-free :
    (xs : List CompletionSlot) (k i : ℕ)
    → first_free xs k ≡ some i
    → (k ≤ i) × (state_of (get_or xs (i - k) no_slot) ≡ free)
unfolding first_free
first_free-free [] k i h = cc
first_free-free (x ∷ xs) k i h = elim (Bool-cases (state_of x == free)) [
  | inl here ↦
      let e : k ≡ i = some-injective (rw here at h) in
      let z : i - k ≡ 0 = omega (arith, e) in (omega (arith, e), rw z ((==_iff _ free).0 here))
  | inr there ↦
      let (le, f) = first_free-free xs (k + 1) i (rw there at h) in
      let z : i - k ≡ suc (i - (k + 1)) = omega (arith, le) in (omega (arith, le), rw z f)
]

out_of_range : (xs : List CompletionSlot) (i : ℕ) → length xs ≤ i → get_or xs i no_slot ≡ no_slot
out_of_range [] i h = refl
out_of_range (x ∷ xs) zero h = absurd (omega arith)
out_of_range (x ∷ xs) (suc i) h = out_of_range xs i (omega arith)

pub word-put_self :
    (a : CompletionState) (i : ℕ) (x : CompletionSlot)
    → word_at a i ≢ 5
    → word_at (put_slot a i x) i ≡ x.tagged
word-put_self a i x n = elim (Bool-cases (ltb i (length a.slots))) [
  | inl inside ↦
      ap (λ (s : CompletionSlot). s.tagged) (slot-put a.slots i i x) ∙ rw (==_refl i, inside) refl
  | inr outside ↦
      absurd (
        n (
          ap (λ (s : CompletionSlot). s.tagged) (out_of_range a.slots i (ground (arith, outside)))))
]

reserve-Advances :
    (s : System) (operation : ℕ)
    → IsSystem s
    → Advances s (record s { arena = (reserve s.arena operation).0 })
unfolding reserve
reserve-Advances s operation v = elim (Option-cases (first_free s.arena.slots 0)) [
  | inl full ↦ rw full (stays s v)
  | inr (i, f) ↦
      let (_, z) = first_free-free s.arena.slots 0 i f in
      let e : i - 0 ≡ i = omega arith in
      let z' : state_of (slot_at s.arena i) ≡ free = rw e at z in
      let x : CompletionSlot = record (slot_at s.arena i) {
        operation = operation;
        tagged = tag (generation_of (slot_at s.arena i)) reserved;
      } in
      rw f (quiet s i x (λ q. omega (arith, z', q)) (omega (arith, z')) v)
]

claim-Advances : (s : System) (t : Ticket) → IsSystem s → Advances s (call s (claims t))
unfolding call try_claim is_reserved
claim-Advances s t v =
    elim (Bool-cases ((slot_at s.arena t.slot).tagged == tag t.generation reserved)) [
      | inr refused ↦ rw refused (record {
        kept = record { held = held_lem s.writers v.held; disjoint = v.disjoint };
        grows = λ i. omega arith;
      })
      | inl taken ↦
          let e : word_at s.arena t.slot ≡ tag t.generation reserved = (==_iff _ _).0 taken in
          let x : CompletionSlot = record (slot_at s.arena t.slot) {
            tagged = tag t.generation writing;
          } in
          let q = quiet s t.slot x (λ w. omega (arith, e, w)) (omega (arith, e)) v in
          rw taken (record {
            kept = record {
              held = (word-put_self s.arena t.slot x (λ w. omega (arith, e, w)), q.kept.held);
              disjoint = (
                not_writing-Apart s.arena t.slot s.writers (λ w. omega (arith, e, w)) v.held,
                v.disjoint,
              );
            };
            grows = q.grows;
          })
    ]
  where
    held_lem :
        (ws : List Ticket)
        → AllWriting s.arena ws
        → AllWriting (record s.arena { rejected = add64 s.arena.rejected 1 }) ws
    held_lem [] a = tt
    held_lem (w ∷ ws) a = (a.0, held_lem ws a.1)

finish-Advances :
    (s : System) (k : ℕ) (r : CompletionResult) → IsSystem s → Advances s (call s (finishes k r))
unfolding call finish
finish-Advances s k r v = elim (Option-cases (get_elem? s.writers k)) [
  | inl gone ↦ rw gone (stays s v)
  | inr (w, h) ↦
      let (e, apart) = writer_at s.arena k s.writers w h v.held v.disjoint in
      let x : CompletionSlot = record (slot_at s.arena w.slot) {
        payload = r;
        tagged = tag w.generation ready;
      } in
      rw h (record {
        kept = record {
          held =
              AllWriting-put s.arena w.slot x (remove k s.writers) apart
                (AllWriting-remove s.arena k s.writers v.held);
          disjoint = Disjoint-remove k s.writers v.disjoint;
        };
        grows = grows-put s.arena w.slot x (omega (arith, e));
      })
]

recycled-grows : (w : ℕ) → w % 256 ≡ ready → w ≤ recycled (w / 2 ^ 8)
recycled-grows w h =
    if-both (λ n. w ≤ n) (w / 2 ^ 8 == max_ticket_generation) (omega arith) (omega arith)

consume-Advances : (s : System) (i : ℕ) → IsSystem s → Advances s (call s (consumes i))
unfolding call consume
consume-Advances s i v = elim (Bool-cases (leb (length s.arena.slots) i)) [
  | inl outside ↦ rw outside (stays s v)
  | inr inside ↦ elim (Bool-cases (not (state_of (slot_at s.arena i) == ready))) [
    | inl unready ↦ rw (inside, unready) (stays s v)
    | inr isready ↦
        let e : word_at s.arena i % 256 ≡ ready = ground (arith, isready) in
        let x : CompletionSlot = record (slot_at s.arena i) {
          payload = record {
            status = 0;
            error_value = error invalid_state;
            value = 0;
            effective_monotonic_ns = 0;
          };
          tagged = recycled (generation_of (slot_at s.arena i));
        } in
        rw (inside, isready)
          (quiet s i x (λ q. omega (arith, e, q)) (recycled-grows (word_at s.arena i) e) v)
  ]
]

call-Advances : (s : System) (c : TicketCall) → IsSystem s → Advances s (call s c)
unfolding call
call-Advances s (reserves operation) v = reserve-Advances s operation v
call-Advances s (claims t) v = claim-Advances s t v
call-Advances s (finishes k r) v = finish-Advances s k r v
call-Advances s (consumes i) v = consume-Advances s i v

run-Advances : (s : System) (cs : List TicketCall) → IsSystem s → Advances s (run s cs)
unfolding run
run-Advances s [] v = stays s v
run-Advances s (c ∷ cs) v =
    let a = call-Advances s c v in
    let b = run-Advances (call s c) cs a.kept in
    record { kept = b.kept; grows = λ i. omega (arith, a.grows i, b.grows i) }

claimed :
    (s : System) (t : Ticket)
    → is_reserved s.arena t ≡ true
    → word_at (call s (claims t)).arena t.slot ≡ tag t.generation writing
unfolding call try_claim is_reserved
claimed s t h =
    let e : word_at s.arena t.slot ≡ tag t.generation reserved = (==_iff _ _).0 h in
    let x : CompletionSlot = record (slot_at s.arena t.slot) {
      tagged = tag t.generation writing;
    } in
    rw h (word-put_self s.arena t.slot x (λ w. omega (arith, e, w)))

-- Once a reservation has been claimed, no later claim of it succeeds, whatever calls the threads make
-- in between: they reserve, claim, finish what they claimed, and consume, in any order.
pub claim_once :
    (s : System) (t : Ticket) (cs : List TicketCall)
    → IsSystem s
    → is_reserved s.arena t ≡ true
    → (try_claim (run (call s (claims t)) cs).arena t).1 ≡ none
unfolding try_claim is_reserved
claim_once s t cs v h =
    let a = claim-Advances s t v in
    let b = run-Advances (call s (claims t)) cs a.kept in
    let w : word_at (call s (claims t)).arena t.slot ≡ tag t.generation writing = claimed s t h in
    let no_more : ((slot_at (run (call s (claims t)) cs).arena t.slot).tagged
          == tag t.generation reserved)
        ≡ false =
      ground (arith, b.grows t.slot, w) in
    rw no_more refl
