-- ===== src/Completion/Ticket/Delivery.antt =====
-- What is published under a ticket is what is consumed from its slot.
use vrt_framework.Prelude.{
  ℕ, zero, suc, ◌/◌, ◌%◌, ◌^◌, ◌≤◌, ◌<◌, ◌≡◌, refl, ap, ◌∙◌, ◌≢◌, inl, inr, true, false, ◌&&◌, not,
  none, some, List, [], ◌∷◌, arith, leb, ◌==◌, if◌then◌else◌, lt→ltb, ==_iff, ==_refl, Bool-cases,
  Option-cases, has_value, length, get_or, set, length-set, ltb, subst, ◌+◌,
}
use vrt_framework.Completion.Ticket.{
  CompletionResult, CompletionSlot, CompletionState, Ticket, no_slot, no_result, slot_at, put_slot,
  tag, free, reserved, writing, ready, retired, state_of, generation_of, max_ticket_generation,
  is_reserved, try_claim, finish, publish, recycled, consume, ticket_state, QuiescenceState, arm,
  prove_quiescent,
}
use vrt_framework.Completion.Ticket.Claims.{slot-put}

slot-put_self :
    (a : CompletionState) (i : ℕ) (x : CompletionSlot)
    → i < length a.slots
    → slot_at (put_slot a i x) i ≡ x
slot-put_self a i x h = slot-put a.slots i i x ∙ rw (==_refl i, lt→ltb i (length a.slots) h) refl

in_range : (xs : List CompletionSlot) (i : ℕ) → (get_or xs i no_slot).tagged ≢ 5 → i < length xs
in_range [] i h = absurd (h refl)
in_range (x ∷ xs) zero h = omega arith
in_range (x ∷ xs) (suc i) h = omega (arith, in_range xs i h)

module _ (s : CompletionState) (t : Ticket) (r : CompletionResult)
    (h : is_reserved s t ≡ true) where
  word : (slot_at s t.slot).tagged ≡ tag t.generation reserved
  unfolding is_reserved
  word = (==_iff _ _).0 h

  inside : t.slot < length s.slots
  inside = in_range s.slots t.slot (λ e. omega (arith, e, word))

  abbrev written : CompletionSlot
  written = record (slot_at s t.slot) { payload = r; tagged = tag t.generation ready }

  published : publish s t r ≡ (
    put_slot
        (put_slot s t.slot (record (slot_at s t.slot) { tagged = tag t.generation writing }))
        t.slot
        written,
    true,
  )
  unfolding publish try_claim finish
  published =
      let x : CompletionSlot = record (slot_at s t.slot) { tagged = tag t.generation writing } in
      let e = slot-put_self s t.slot x inside in
      rw h (
        ap
          (λ y. (
            put_slot (put_slot s t.slot x) t.slot
                (record y { payload = r; tagged = tag t.generation ready }),
            true,
          ))
          e)

  slot-publish : slot_at (publish s t r).0 t.slot ≡ written
  slot-publish =
      let x : CompletionSlot = record (slot_at s t.slot) { tagged = tag t.generation writing } in
      ap (λ p. slot_at p.0 t.slot) published
      ∙ slot-put_self (put_slot s t.slot x) t.slot written
          (omega (arith, inside, length-set s.slots t.slot x))

  length-publish : length (publish s t r).0.slots ≡ length s.slots
  length-publish =
      let x : CompletionSlot = record (slot_at s t.slot) { tagged = tag t.generation writing } in
      ap (λ p. length p.0.slots) published
      ∙ length-set (set s.slots t.slot x) t.slot written
      ∙ length-set s.slots t.slot x

abbrev emptied : CompletionSlot → CompletionSlot
emptied x = record x { payload = no_result; tagged = recycled (generation_of x) }

consume-ready :
    (a : CompletionState) (i : ℕ) (x : CompletionSlot)
    → i < length a.slots
    → slot_at a i ≡ x
    → state_of x ≡ ready
    → consume a i
      ≡ (put_slot a i (emptied x), some (record { operation = x.operation; result = x.payload }))
unfolding consume
consume-ready a i x lt e r =
    let out : leb (length a.slots) i ≡ false = ground (arith, lt) in
    let isready : not (state_of x == ready) ≡ false = rw r refl in rw (out, e, isready) refl

ticket_state-put :
    (a : CompletionState) (i : ℕ) (x : CompletionSlot)
    → i < length a.slots
    → ticket_state (put_slot a i x) i ≡ state_of x
unfolding ticket_state
ticket_state-put a i x lt =
    rw (length-set a.slots i x, lt→ltb i (length a.slots) lt, slot-put_self a i x lt) refl

recycled-state : (g : ℕ) → recycled g % 256 ≡ (if g == max_ticket_generation then retired else free)
recycled-state g = elim (Bool-cases (g == max_ticket_generation)) [
  | inl last ↦ rw last (omega arith)
  | inr more ↦ rw more (omega arith)
]

recycled-generation :
    (g : ℕ) → recycled g / 2 ^ 8 ≡ (if g == max_ticket_generation then g else g + 1)
recycled-generation g = elim (Bool-cases (g == max_ticket_generation)) [
  | inl last ↦ rw last (omega arith)
  | inr more ↦ rw more (omega arith)
]

consume-idle :
    (a : CompletionState) (i : ℕ) → (ticket_state a i == ready) ≡ false → consume a i ≡ (a, none)
unfolding consume ticket_state
consume-idle a i h = elim (Bool-cases (ltb i (length a.slots))) [
  | inl inside ↦
      let idle : (state_of (slot_at a i) == ready) ≡ false =
        subst (λ b. ((if b then state_of (slot_at a i) else retired) == ready) ≡ false) inside h in
      let out : leb (length a.slots) i ≡ false = ground (arith, inside) in rw (out, idle) refl
  | inr outside ↦ let out : leb (length a.slots) i ≡ true = ground (arith, outside) in rw out refl
]

recycled-idle : (g : ℕ) → ((if g == max_ticket_generation then retired else free) == ready) ≡ false
recycled-idle g = elim (Bool-cases (g == max_ticket_generation)) [
  | inl last ↦ rw last refl
  | inr more ↦ rw more refl
]

module _ (s : CompletionState) (t : Ticket) (r : CompletionResult)
    (h : is_reserved s t ≡ true) where
  consumption : consume (publish s t r).0 t.slot ≡ (
    put_slot (publish s t r).0 t.slot (emptied (written s t r h)),
    some (record { operation = (slot_at s t.slot).operation; result = r }),
  )
  consumption =
      consume-ready (publish s t r).0 t.slot (written s t r h)
        (omega (arith, length-publish s t r h, inside s t r h)) (slot-publish s t r h) (omega arith)

  slot-consume : slot_at (consume (publish s t r).0 t.slot).0 t.slot ≡ emptied (written s t r h)
  slot-consume =
      ap (λ q. slot_at q.0 t.slot) consumption
      ∙ slot-put_self (publish s t r).0 t.slot (emptied (written s t r h))
          (omega (arith, length-publish s t r h, inside s t r h))

  generation-written : generation_of (written s t r h) ≡ t.generation
  generation-written = omega arith

  ticket_state-consume :
      ticket_state (consume (publish s t r).0 t.slot).0 t.slot
      ≡ (if t.generation == max_ticket_generation then retired else free)
  ticket_state-consume =
      ap (λ q. ticket_state q.0 t.slot) consumption
      ∙ ticket_state-put (publish s t r).0 t.slot (emptied (written s t r h))
          (omega (arith, length-publish s t r h, inside s t r h))
      ∙ ap (λ k. recycled k % 256) generation-written
      ∙ recycled-state t.generation

-- Publishing under a reserved ticket succeeds, and the next consumption of its slot gives the operation
-- of the reservation with exactly the published result. This consumption clears the result in the slot,
-- and leaves the slot free with the ticket's generation plus one, or, if the ticket's generation is the
-- last one, retired with the same generation. A second consumption of the slot then gives nothing and
-- changes nothing.
pub consume-publish :
    (s : CompletionState) (t : Ticket) (r : CompletionResult)
    → is_reserved s t ≡ true
    → ((publish s t r).1 ≡ true)
      × ((consume (publish s t r).0 t.slot).1
          ≡ some (record { operation = (slot_at s t.slot).operation; result = r }))
      × (ticket_state (consume (publish s t r).0 t.slot).0 t.slot
          ≡ (if t.generation == max_ticket_generation then retired else free))
      × (generation_of (slot_at (consume (publish s t r).0 t.slot).0 t.slot)
          ≡ (if t.generation == max_ticket_generation then t.generation else t.generation + 1))
      × ((slot_at (consume (publish s t r).0 t.slot).0 t.slot).payload ≡ no_result)
      × (consume (consume (publish s t r).0 t.slot).0 t.slot
          ≡ ((consume (publish s t r).0 t.slot).0, none))
consume-publish s t r h = (
  ap (λ q. q.1) (published s t r h),
  ap (λ q. q.1) (consumption s t r h),
  ticket_state-consume s t r h,
  ap generation_of (slot-consume s t r h)
      ∙ ap (λ k. recycled k / 2 ^ 8) (generation-written s t r h)
      ∙ recycled-generation t.generation,
  ap (λ x. x.payload) (slot-consume s t r h),
  consume-idle (consume (publish s t r).0 t.slot).0 t.slot
      (ap (λ k. k == ready) (ticket_state-consume s t r h) ∙ recycled-idle t.generation),
)

-- For a guard that was armed at a generation the state has reached, a proof of quiescence succeeds
-- exactly if no later arming took place and storage is retained, and then releases it; a second proof is
-- refused, and so is a proof by the same guard after storage is armed again through another guard.
pub prove_quiescent_lem :
    (q : QuiescenceState) (own other storage : ℕ)
    → own ≤ q.generation
    → q.generation < 2 ^ 64
    → ((prove_quiescent q own).1 ≡ (own == q.generation && has_value q.storage))
      × ((prove_quiescent q own).0.storage ≡ (if own == q.generation then none else q.storage))
      × ((prove_quiescent (prove_quiescent q own).0 own).1 ≡ false)
      × ((prove_quiescent (arm (prove_quiescent q own).0 other storage).0.0 own).1 ≡ false)
unfolding prove_quiescent arm
prove_quiescent_lem q own other storage le fit = elim (Option-cases q.storage) [
  | inl n ↦ elim (Bool-cases (own == q.generation)) [
    | inl same ↦ (
      ground (arith, n, same),
      ground (arith, n, same),
      ground (arith, n, same),
      ground (arith, n, same),
    )
    | inr old ↦ (
      ground (arith, n, old),
      ground (arith, n, old),
      ground (arith, n, old),
      ground (arith, n, old),
    )
  ]
  | inr (x, n) ↦ elim (Bool-cases (own == q.generation)) [
    | inl same ↦ (
      ground (arith, n, same),
      ground (arith, n, same),
      ground (arith, n, same),
      ground (arith, n, same),
    )
    | inr old ↦ (
      ground (arith, n, old),
      ground (arith, n, old),
      ground (arith, n, old),
      ground (arith, n, old),
    )
  ]
]
