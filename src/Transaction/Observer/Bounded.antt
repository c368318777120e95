-- ===== src/Transaction/Observer/Bounded.antt =====
-- The history has room for every observation, and contradictory ones confirm nothing.
use vrt_framework.Prelude.{
  ℕ, ◌+◌, ◌*◌, ◌≤◌, ◌<◌, ◌≡◌, refl, sym, ◌∙◌, inl, inr, Bool, true, false, ◌&&◌, ◌||◌, not, Option,
  none, some, List, [], ◌∷◌, arith, ◌==◌, if◌then◌else◌, ==_iff, Bool-cases, if-both, if-true, bit,
  length,
}
use vrt_framework.Core.Error.{error, invalid_argument, Result, ok, err, ◌>>=◌, guard}
use vrt_framework.Codec.Envelope.{Command}
use vrt_framework.Codec.Measure.{validate_cam}
use vrt_framework.Transaction.Observer.{
  ObservationKind, unconfirmed, local_sent, local_failure, validation, execution, state, timed,
  late_response, cancellation_execution, cancellation_state, cancellation_timed, number,
  same_observation, Observation, new_observation, ControllerObserver, new_observer, same_phase,
  merge, record_loop, record_event, local_send, timeout, cancellation_timeout, Response,
  kind_of_response, observed, scan_fields, receive_cam, receive_command, recorded, receive,
}

-- A phase is a kind with the kind of the response; these are the phases there are.
abbrev pub phase : Observation → ℕ
phase o = number o.kind * 11 + number o.response_kind

abbrev pub phases : List ℕ
phases = 11 ∷ 22 ∷ 66 ∷ 110 ∷ 36 ∷ 48 ∷ 60 ∷ 96 ∷ 108 ∷ 80 ∷ 81 ∷ 82 ∷ 85 ∷ 86 ∷ []

abbrev pub has_phase : ℕ → List ℕ → Bool
has_phase k [] = false
has_phase k (p ∷ ps) = k == p || has_phase k ps

abbrev pub count : ℕ → List Observation → ℕ
count k [] = 0
count k (o ∷ os) = (if phase o == k then 1 else 0) + count k os

-- What holds of every observation of a history: its phase is one of the 14, and if it is contradictory it
-- is no success, confirms nothing and leaves the outcome open.
pub record IsTold (o : Observation) : Type 0 where
  pub known : has_phase (phase o) phases ≡ true
  pub settled :
      o.contradictory ≡ true
      → (o.success ≡ false)
        × (o.confirms_execution ≡ false)
        × (o.validation_accepted ≡ false)
        × (o.unknown_remote_outcome ≡ true)

abbrev pub AllTold : List Observation → Type 0
AllTold [] = Unit {0}
AllTold (o ∷ os) = IsTold o × AllTold os

number-lt : (k : ObservationKind) → number k < 11
number-lt unconfirmed = omega arith
number-lt local_sent = omega arith
number-lt local_failure = omega arith
number-lt validation = omega arith
number-lt execution = omega arith
number-lt state = omega arith
number-lt timed = omega arith
number-lt late_response = omega arith
number-lt cancellation_execution = omega arith
number-lt cancellation_state = omega arith
number-lt cancellation_timed = omega arith

digits : (k l r t : ℕ) → r < 11 → t < 11 → (k == l && r == t) ≡ (k * 11 + r == l * 11 + t)
digits k l r t hr ht = ground arith

other_number : (a b k : ℕ) → (a == b) ≡ false → a ≡ k → (b == k) ≡ false
other_number a b k ne q = ground arith

same_phase_lem : (a b : Observation) → same_phase a b ≡ (phase a == phase b)
same_phase_lem a b =
    digits (number a.kind) (number b.kind) (number a.response_kind) (number b.response_kind)
      (number-lt a.response_kind) (number-lt b.response_kind)

phase-merge : (a b : Observation) → phase (merge a b) ≡ phase a
phase-merge a b = if-both (λ o. phase o ≡ phase a) (same_observation a b) refl refl

merge-IsTold : (a b : Observation) → IsTold a → IsTold (merge a b)
merge-IsTold a b h =
    if-both IsTold (same_observation a b) h
      (record { known = h.known; settled = λ c. (refl, refl, refl, refl) })

record_loop-AllTold :
    (os : List Observation) (e : Observation) → IsTold e → AllTold os → AllTold (record_loop os e).0
record_loop-AllTold [] e new told = (new, tt)
record_loop-AllTold (o ∷ os) e new (h, told) =
    if-both (λ (x : List Observation × Observation). AllTold x.0) (same_phase o e)
      (merge-IsTold o e h, told) (h, record_loop-AllTold os e new told)

count-other :
    (os : List Observation) (e : Observation) (k : ℕ)
    → (phase e == k) ≡ false
    → count k (record_loop os e).0 ≡ count k os
count-other [] e k ne = rw ne refl
count-other (o ∷ os) e k ne = elim (Bool-cases (same_phase o e)) [
  | inl same ↦ rw (same, phase-merge o e) refl
  | inr new ↦ rw (new, count-other os e k ne) refl
]

count-record_loop :
    (os : List Observation) (e : Observation) (k : ℕ)
    → count k os ≤ 1
    → count k (record_loop os e).0 ≤ 1
count-record_loop [] e k h = if-both (λ n. n + 0 ≤ 1) (phase e == k) (omega arith) (omega arith)
count-record_loop (o ∷ os) e k h = elim (Bool-cases (same_phase o e)) [
  | inl same ↦ rw (same, phase-merge o e) h
  | inr new ↦ elim (Bool-cases (phase o == k)) [
    | inl here ↦
        let q : phase o ≡ k = (==_iff (phase o) k).0 here in
        let other : (phase e == k) ≡ false =
          other_number (phase o) (phase e) k (sym (same_phase_lem o e) ∙ new) q in
        rw (new, here, count-other os e k other) (ground (arith, h, here))
    | inr away ↦ rw (new, away) (omega (arith, count-record_loop os e k (ground (arith, h, away))))
  ]
]

abbrev pub counts : List ℕ → List Observation → ℕ
counts [] os = 0
counts (p ∷ ps) os = count p os + counts ps os

counts-cons :
    (ps : List ℕ) (o : Observation) (os : List Observation)
    → counts ps os + (if has_phase (phase o) ps then 1 else 0) ≤ counts ps (o ∷ os)
counts-cons [] o os = omega arith
counts-cons (p ∷ ps) o os = ground (arith, counts-cons ps o os)

length-counts : (os : List Observation) → AllTold os → length os ≤ counts phases os
length-counts [] told = omega arith
length-counts (o ∷ os) (h, told) =
    let one : (if◌then◌else◌ {A = ℕ} (has_phase (phase o) phases) 1 0) ≡ 1 =
      if-true {A = ℕ} (has_phase (phase o) phases) 1 0 h.known in
    omega (arith, one, counts-cons phases o os, length-counts os told)

counts-bound :
    (ps : List ℕ) (os : List Observation) → ((k : ℕ) → count k os ≤ 1) → counts ps os ≤ length ps
counts-bound [] os once = omega arith
counts-bound (p ∷ ps) os once = omega (arith, once p, counts-bound ps os once)

-- What a controller may rely on: each phase stands once in the history, and all is told.
pub record IsRecord (c : ControllerObserver) : Type 0 where
  pub once : (k : ℕ) → count k c.history ≤ 1
  pub told : AllTold c.history

record_event-IsRecord :
    (c : ControllerObserver) (e : Observation) → IsTold e → IsRecord c → IsRecord (record_event c e)
unfolding record_event
record_event-IsRecord c e new h = record {
  once = λ k. count-record_loop c.history e k (h.once k);
  told = record_loop-AllTold c.history e new h.told;
}

flagged-IsRecord :
    (c : ControllerObserver) (a b : Bool)
    → IsRecord c
    → IsRecord (record c { timed_out = a; cancellation_timed_out = b })
flagged-IsRecord c a b h = record { once = h.once; told = h.told }

calm : (o : Observation) → has_phase (phase o) phases ≡ true → o.contradictory ≡ false → IsTold o
calm o known c = record { known = known; settled = λ t. absurd (ground (arith, c, t)) }

-- An event of a controller.
pub data ObserverEvent : Type 0 where
  sends : Bool → ObserverEvent
  times_out : ObserverEvent
  cancellation_times_out : ObserverEvent
  receives : Response → ObserverEvent

unfoldable pub step : ControllerObserver → ObserverEvent → ControllerObserver
unfolding local_send timeout cancellation_timeout receive
step c (sends succeeded) = local_send c succeeded
step c times_out = timeout c
step c cancellation_times_out = cancellation_timeout c
step c (receives response) = (receive c response).0

unfoldable pub run : ControllerObserver → List ObserverEvent → ControllerObserver
unfolding step
run c [] = c
run c (e ∷ es) = run (step c e) es

abbrev pub is_response : ObservationKind → Bool
is_response unconfirmed = false
is_response local_sent = false
is_response local_failure = false
is_response validation = true
is_response execution = true
is_response state = true
is_response timed = false
is_response late_response = false
is_response cancellation_execution = true
is_response cancellation_state = true
is_response cancellation_timed = false

response_phase :
    (k : ObservationKind)
    → is_response k ≡ true
    → (late : Bool)
    → has_phase (number (if late then late_response else k) * 11 + number k) phases ≡ true
response_phase unconfirmed h late = absurd (ground (arith, h))
response_phase local_sent h late = absurd (ground (arith, h))
response_phase local_failure h late = absurd (ground (arith, h))
response_phase validation h true = refl
response_phase validation h false = refl
response_phase execution h true = refl
response_phase execution h false = refl
response_phase state h true = refl
response_phase state h false = refl
response_phase timed h late = absurd (ground (arith, h))
response_phase late_response h late = absurd (ground (arith, h))
response_phase cancellation_execution h true = refl
response_phase cancellation_execution h false = refl
response_phase cancellation_state h true = refl
response_phase cancellation_state h false = refl
response_phase cancellation_timed h late = absurd (ground (arith, h))

observed-phase :
    (late cancel : Bool) (cam : ℕ)
    → has_phase
        (number (if late then late_response else kind_of_response cancel cam) * 11
          + number (kind_of_response cancel cam))
        phases
      ≡ true
unfolding kind_of_response
observed-phase late cancel cam =
    response_phase (kind_of_response cancel cam)
      (if-both (λ k. is_response k ≡ true) cancel
        (if-both (λ k. is_response k ≡ true) (bit cam 19) refl refl)
        (if-both (λ k. is_response k ≡ true) (bit cam 20) refl
          (if-both (λ k. is_response k ≡ true) (bit cam 19) refl refl)))
      late

observed-IsTold :
    (c : ControllerObserver) (cancel : Bool) (cam : ℕ) (scanned : Bool × Bool)
    → IsTold (observed c cancel cam scanned)
unfolding observed
observed-IsTold c cancel cam (indeterminate, failed) =
    calm (observed c cancel cam (indeterminate, failed))
      (observed-phase (if cancel then c.cancellation_timed_out else c.timed_out) cancel cam) refl

abbrev pub GivesTold : Result Observation → Type 0
GivesTold (err e) = Unit {0}
GivesTold (ok o) = IsTold o

bind-GivesTold :
    {A : Type 0} (r : Result A) (k : A → Result Observation)
    → ((a : A) → GivesTold (k a))
    → GivesTold (r >>= k)
bind-GivesTold (err e) k h = tt
bind-GivesTold (ok a) k h = h a

receive_cam-GivesTold :
    (c : ControllerObserver) (response : Response) (cam : ℕ)
    → GivesTold (receive_cam c response cam)
receive_cam-GivesTold c response cam =
    bind-GivesTold (validate_cam response.envelope cam) _ λ valid.
      bind-GivesTold (guard _ (error invalid_argument)) _ λ allowed.
        bind-GivesTold (scan_fields response.fields false (bit cam 16)) _
          λ scanned. observed-IsTold c response.envelope.cancel cam scanned

receive_command-GivesTold :
    (c : ControllerObserver) (response : Response) (command : Option Command)
    → GivesTold (receive_command c response command)
receive_command-GivesTold c response none = tt
receive_command-GivesTold c response (some command) =
    if-both GivesTold
      (not response.envelope.ack
        || not (command.message_id == c.message_id)
        || response.requires_request_context
        || response.opaque)
      {x = err (error invalid_argument)} tt (receive_cam-GivesTold c response command.cam)

recorded-IsRecord :
    (c : ControllerObserver) (r : Result Observation)
    → GivesTold r
    → IsRecord c
    → IsRecord (recorded c r).0
recorded-IsRecord c (err e) told h = h
recorded-IsRecord c (ok o) told h = record_event-IsRecord c o told h

step-IsRecord : (c : ControllerObserver) (e : ObserverEvent) → IsRecord c → IsRecord (step c e)
unfolding step local_send timeout cancellation_timeout receive
step-IsRecord c (sends true) h =
    record_event-IsRecord c (new_observation local_sent) (calm _ refl refl) h
step-IsRecord c (sends false) h =
    record_event-IsRecord c (new_observation local_failure) (calm _ refl refl) h
step-IsRecord c times_out h = if-both IsRecord c.timed_out h (
    record_event-IsRecord (record c { timed_out = true }) (new_observation timed)
      (calm (new_observation timed) refl refl) (flagged-IsRecord c true c.cancellation_timed_out h))
step-IsRecord c cancellation_times_out h =
    let e = record (new_observation cancellation_timed) { is_cancellation = true } in
    if-both IsRecord c.cancellation_timed_out h (
      record_event-IsRecord (record c { cancellation_timed_out = true }) e (calm e refl refl)
        (flagged-IsRecord c c.timed_out true h))
step-IsRecord c (receives response) h =
    recorded-IsRecord c (receive_command c response response.envelope.command)
      (receive_command-GivesTold c response response.envelope.command) h

run-IsRecord : (c : ControllerObserver) (es : List ObserverEvent) → IsRecord c → IsRecord (run c es)
unfolding run
run-IsRecord c [] h = h
run-IsRecord c (e ∷ es) h = run-IsRecord (step c e) es (step-IsRecord c e h)

new_observer-IsRecord : (message_id : ℕ) → IsRecord (new_observer message_id)
unfolding new_observer
new_observer-IsRecord message_id = record { once = λ k. omega arith; told = tt }

-- Whatever a new controller sends, receives and waits for: its history has at most 14 observations, so that
-- the array of 16 has room for every one, and each contradictory one is no success, confirms
-- no execution and no validation, and leaves the outcome unknown.
pub run-bounded :
    (message_id : ℕ) (es : List ObserverEvent)
    → (length (run (new_observer message_id) es).history ≤ 14)
      × AllTold (run (new_observer message_id) es).history
run-bounded message_id es =
    let c = run (new_observer message_id) es in
    let h = run-IsRecord (new_observer message_id) es (new_observer-IsRecord message_id) in
    (omega (arith, length-counts c.history h.told, counts-bound phases c.history h.once), h.told)
