-- ===== src/Completion/Ticket/Claims.antt =====
-- A reservation is claimed at most once, whatever the order of the calls.
use vrt_framework.Prelude.{
  ℕ, zero, suc, ◌%◌, ◌≤◌, ◌≡◌, refl, sym, ap, ◌∙◌, subst, ◌≢◌, inl, inr, false, ◌&&◌, Option, none,
  some, List, [], ◌∷◌, arith, ltb, ◌==◌, if◌then◌else◌, Bool-cases, some-injective, length,
  get_elem?, get_or, set,
}
use vrt_framework.Completion.Ticket.{
  CompletionResult, CompletionSlot, CompletionState, Ticket, no_slot, slot_at, put_slot, tag,
  writing, try_claim, finish, reserve, consume,
}

-- The arena with the writers that have been claimed and not finished.
pub record System : Type 0 where
  pub arena : CompletionState
  pub writers : List Ticket

-- A call by any thread: `finishes k` uses up the writer at place `k`.
pub data TicketCall : Type 0 where
  reserves : ℕ → TicketCall
  claims : Ticket → TicketCall
  finishes : ℕ → CompletionResult → TicketCall
  consumes : ℕ → TicketCall

abbrev pub add_writer : List Ticket → Option Ticket → List Ticket
add_writer ws none = ws
add_writer ws (some w) = w ∷ ws

abbrev pub remove : ℕ → List Ticket → List Ticket
remove k [] = []
remove zero (w ∷ ws) = ws
remove (suc k) (w ∷ ws) = w ∷ remove k ws

abbrev pub finish_at : System → ℕ → CompletionResult → Option Ticket → System
finish_at s k r none = s
finish_at s k r (some w) = record { arena = finish s.arena w r; writers = remove k s.writers }

unfoldable pub call : System → TicketCall → System
call s (reserves operation) = record s { arena = (reserve s.arena operation).0 }
call s (claims t) =
    let c = try_claim s.arena t in record { arena = c.0; writers = add_writer s.writers c.1 }
call s (finishes k r) = finish_at s k r (get_elem? s.writers k)
call s (consumes i) = record s { arena = (consume s.arena i).0 }

unfoldable pub run : System → List TicketCall → System
unfolding call
run s [] = s
run s (c ∷ cs) = run (call s c) cs

abbrev pub word_at : CompletionState → ℕ → ℕ
word_at a i = (slot_at a i).tagged

-- Every writer's slot is in writing under the writer's generation.
abbrev pub AllWriting : CompletionState → List Ticket → Type 0
AllWriting a [] = Unit {0}
AllWriting a (w ∷ ws) = (word_at a w.slot ≡ tag w.generation writing) × AllWriting a ws

-- No two writers have the same slot.
abbrev pub Apart : ℕ → List Ticket → Type 0
Apart i [] = Unit {0}
Apart i (w ∷ ws) = (i ≢ w.slot) × Apart i ws

abbrev pub Disjoint : List Ticket → Type 0
Disjoint [] = Unit {0}
Disjoint (w ∷ ws) = Apart w.slot ws × Disjoint ws

pub record IsSystem (s : System) : Type 0 where
  pub held : AllWriting s.arena s.writers
  pub disjoint : Disjoint s.writers

pub slot-put :
    (xs : List CompletionSlot) (i j : ℕ) (x : CompletionSlot)
    → get_or (set xs i x) j no_slot
      ≡ (if i == j && ltb i (length xs) then x else get_or xs j no_slot)
slot-put [] i j x = ground arith
slot-put (y ∷ xs) zero zero x = ground arith
slot-put (y ∷ xs) zero (suc j) x = ground arith
slot-put (y ∷ xs) (suc i) zero x = ground arith
slot-put (y ∷ xs) (suc i) (suc j) x = ground (arith, slot-put xs i j x)

-- Writing a word that is not smaller makes no word smaller.
pub grows-put :
    (a : CompletionState) (i : ℕ) (x : CompletionSlot)
    → word_at a i ≤ x.tagged
    → (j : ℕ) → word_at a j ≤ word_at (put_slot a i x) j
grows-put a i x h j = elim (Bool-cases (i == j && ltb i (length a.slots))) [
  | inr other ↦
      let e = ap (λ (s : CompletionSlot). s.tagged) (slot-put a.slots i j x) in
      rw (e, other) (omega arith)
  | inl here ↦
      let e = ap (λ (s : CompletionSlot). s.tagged) (slot-put a.slots i j x) in
      let same : i ≡ j = ground (arith, here) in rw (e, here, ← same) h
]

-- A write to another slot changes no word here.
pub word-put_ne :
    (a : CompletionState) (i j : ℕ) (x : CompletionSlot)
    → i ≢ j
    → word_at (put_slot a i x) j ≡ word_at a j
word-put_ne a i j x ne =
    let e = ap (λ (s : CompletionSlot). s.tagged) (slot-put a.slots i j x) in
    let other : (i == j && ltb i (length a.slots)) ≡ false = ground (arith, ne) in e ∙ rw other refl

pub AllWriting-put :
    (a : CompletionState) (i : ℕ) (x : CompletionSlot) (ws : List Ticket)
    → Apart i ws
    → AllWriting a ws
    → AllWriting (put_slot a i x) ws
AllWriting-put a i x [] p v = tt
AllWriting-put a i x (w ∷ ws) p v =
    (word-put_ne a i w.slot x p.0 ∙ v.0, AllWriting-put a i x ws p.1 v.1)

-- A slot that is not in writing has no writer.
pub not_writing-Apart :
    (a : CompletionState) (i : ℕ) (ws : List Ticket)
    → word_at a i % 256 ≢ writing
    → AllWriting a ws
    → Apart i ws
not_writing-Apart a i [] h v = tt
not_writing-Apart a i (w ∷ ws) h v =
    ((λ e. h (rw e (rw v.0 (omega arith)))), not_writing-Apart a i ws h v.1)

Apart-remove : (i k : ℕ) (ws : List Ticket) → Apart i ws → Apart i (remove k ws)
Apart-remove i k [] p = tt
Apart-remove i zero (w ∷ ws) p = p.1
Apart-remove i (suc k) (w ∷ ws) p = (p.0, Apart-remove i k ws p.1)

pub Disjoint-remove : (k : ℕ) (ws : List Ticket) → Disjoint ws → Disjoint (remove k ws)
Disjoint-remove k [] d = tt
Disjoint-remove zero (w ∷ ws) d = d.1
Disjoint-remove (suc k) (w ∷ ws) d = (Apart-remove w.slot k ws d.0, Disjoint-remove k ws d.1)

pub AllWriting-remove :
    (a : CompletionState) (k : ℕ) (ws : List Ticket) → AllWriting a ws → AllWriting a (remove k ws)
AllWriting-remove a k [] v = tt
AllWriting-remove a zero (w ∷ ws) v = v.1
AllWriting-remove a (suc k) (w ∷ ws) v = (v.0, AllWriting-remove a k ws v.1)

-- The writer at a place: its slot is in writing, and the others have other slots.
pub writer_at :
    (a : CompletionState) (k : ℕ) (ws : List Ticket) (w : Ticket)
    → get_elem? ws k ≡ some w
    → AllWriting a ws
    → Disjoint ws
    → (word_at a w.slot ≡ tag w.generation writing) × Apart w.slot (remove k ws)
writer_at a k [] w h v d = cc
writer_at a zero (x ∷ ws) w h v d =
    subst (λ t. (word_at a t.slot ≡ tag t.generation writing) × Apart t.slot ws) (some-injective h)
      (v.0, d.0)
writer_at a (suc k) (x ∷ ws) w h v d =
    let (e, p) = writer_at a k ws w h v.1 d.1 in (e, ((λ q. away k ws h d.0 (sym q)), p))
  where
    away : (k : ℕ) (ys : List Ticket) → get_elem? ys k ≡ some w → Apart x.slot ys → x.slot ≢ w.slot
    away k [] h p = cc
    away zero (y ∷ ys) h p = λ q. p.0 (q ∙ ap (λ (t : Ticket). t.slot) (sym (some-injective h)))
    away (suc k) (y ∷ ys) h p = away k ys h p.1
