-- ===== src/Transaction/Observer.antt =====
-- include/vita/runtime/transaction/outcomes.hpp: what a controller observes of a request. The history
-- is the list of the first `count_` observations of its array of 16.
pub mod Bounded
use vrt_framework.Prelude.{
  ℕ, zero, suc, ◌+◌, ◌-◌, ◌*◌, ◌/◌, ◌%◌, ◌^◌, ◌≤◌, ◌<◌, min, max, bit_and, bit_or, ◌≡◌, refl, sym,
  ap, ◌∙◌, subst, ◌≢◌, ◌↔◌, ◌⊎◌, inl, inr, Bool, true, false, ◌&&◌, ◌||◌, not, Option, none, some,
  List, [], ◌∷◌, ◌++◌, append-nil, append_assoc, arith, ltb, leb, ◌==◌, if◌then◌else◌, ltb→lt,
  lt→ltb, leb→le, ==_iff, ==_refl, Bool-cases, Option-cases, some-injective, if-both, if-split,
  if-map, if-same, if-true, if-false, &&-cases, has_value, eq_option, eq_bool, u64_max, add64,
  sub64, mul64, bit, length, get_elem?, get_or, set, take, drop, replicate, length-append,
  length-set, get_elem?-set_self, get_elem?-set_ne, take-append-drop, length-take, length-drop,
  length-replicate, drop-append, take-append,
}
use vrt_framework.Core.Error.{
  ErrorCode, Error, error, error_at, error_needs, invalid_argument, unsupported_layout,
  unsupported_capability, overflow, short_input, short_output, capacity_exhausted, stale_generation,
  invalid_state, callback_failure, no_cpu_access, resource_limit, identity_conflict, Result, ok,
  err, ◌>>=◌, ◌>>◌, guard, done, is_ok, >>=-eq-ok, Result-cases, ok-injective, guard-eq-ok,
  >>-eq-ok,
}
use vrt_framework.Codec.Envelope.{Envelope, Command}
use vrt_framework.Codec.Measure.{validate_cam}

pub data ObservationKind : Type 0 where
  unconfirmed local_sent local_failure validation execution state timed late_response
        cancellation_execution cancellation_state cancellation_timed :
      ObservationKind

abbrev pub number : ObservationKind → ℕ
number unconfirmed = 0
number local_sent = 1
number local_failure = 2
number validation = 3
number execution = 4
number state = 5
number timed = 6
number late_response = 7
number cancellation_execution = 8
number cancellation_state = 9
number cancellation_timed = 10

abbrev pub same_kind : ObservationKind → ObservationKind → Bool
same_kind a b = number a == number b

pub record Observation : Type 0 where
  pub kind : ObservationKind
  pub hypothetical : Bool
  pub partial : Bool
  pub success : Bool
  pub unknown_remote_outcome : Bool
  pub response_kind : ObservationKind
  pub confirms_execution : Bool
  pub contradictory : Bool
  pub is_cancellation : Bool
  pub confirms_cancellation : Bool
  pub cancellation_outcome_known : Bool
  pub validation_outcome_known : Bool
  pub validation_accepted : Bool

abbrev pub new_observation : ObservationKind → Observation
new_observation kind = record {
  kind = kind;
  hypothetical = false;
  partial = false;
  success = false;
  unknown_remote_outcome = true;
  response_kind = unconfirmed;
  confirms_execution = false;
  contradictory = false;
  is_cancellation = false;
  confirms_cancellation = false;
  cancellation_outcome_known = false;
  validation_outcome_known = false;
  validation_accepted = false;
}

unfoldable pub same_observation : Observation → Observation → Bool
same_observation a b =
    same_kind a.kind b.kind
    && eq_bool a.hypothetical b.hypothetical
    && eq_bool a.partial b.partial
    && eq_bool a.success b.success
    && eq_bool a.unknown_remote_outcome b.unknown_remote_outcome
    && same_kind a.response_kind b.response_kind
    && eq_bool a.confirms_execution b.confirms_execution
    && eq_bool a.contradictory b.contradictory
    && eq_bool a.is_cancellation b.is_cancellation
    && eq_bool a.confirms_cancellation b.confirms_cancellation
    && eq_bool a.cancellation_outcome_known b.cancellation_outcome_known
    && eq_bool a.validation_outcome_known b.validation_outcome_known
    && eq_bool a.validation_accepted b.validation_accepted

pub record ControllerObserver : Type 0 where
  pub message_id : ℕ
  pub timed_out : Bool
  pub cancellation_timed_out : Bool
  pub current : Observation
  pub history : List Observation

unfoldable pub new_observer : ℕ → ControllerObserver
new_observer message_id = record {
  message_id = message_id;
  timed_out = false;
  cancellation_timed_out = false;
  current = new_observation unconfirmed;
  history = [];
}

abbrev pub same_phase : Observation → Observation → Bool
same_phase a b = same_kind a.kind b.kind && same_kind a.response_kind b.response_kind

-- What becomes of an observation when another one of its phase comes.
abbrev pub merge : Observation → Observation → Observation
merge old event = if same_observation old event then old else record old {
  contradictory = true;
  success = false;
  unknown_remote_outcome = true;
  confirms_execution = false;
  confirms_cancellation = false;
  cancellation_outcome_known = false;
  validation_outcome_known = false;
  validation_accepted = false;
}

-- The loop of `record`: the history after it, and what is now the current observation.
abbrev pub record_loop : List Observation → Observation → List Observation × Observation
record_loop [] event = (event ∷ [], event)
record_loop (o ∷ os) event =
    let rest = record_loop os event in
    if same_phase o event then (merge o event ∷ os, merge o event) else (o ∷ rest.0, rest.1)

unfoldable pub record_event : ControllerObserver → Observation → ControllerObserver
unfolding same_observation
record_event c event =
    let recorded = record_loop c.history event in
    record c { history = recorded.0; current = recorded.1 }

unfoldable pub local_send : ControllerObserver → Bool → ControllerObserver
unfolding record_event
local_send c succeeded =
    record_event c (new_observation (if succeeded then local_sent else local_failure))

unfoldable pub timeout : ControllerObserver → ControllerObserver
unfolding record_event
timeout c =
    if c.timed_out then c else record_event (record c { timed_out = true }) (new_observation timed)

unfoldable pub cancellation_timeout : ControllerObserver → ControllerObserver
unfolding record_event
cancellation_timeout c =
    if c.cancellation_timed_out
    then c
    else record_event (record c { cancellation_timed_out = true })
        (record (new_observation cancellation_timed) { is_cancellation = true })

-- What `receive` reads of a field view: its diagnostic, where it is one, and its group.
pub record FieldView : Type 0 where
  pub is_diagnostics : Bool
  pub diagnostic : Result ℕ
  pub is_error : Bool

pub record Response : Type 0 where
  pub envelope : Envelope
  pub fields : List FieldView
  pub requires_request_context : Bool
  pub opaque : Bool

-- The loop over the fields, with `indeterminate` and `validation_error`.
unfoldable pub scan_fields : List FieldView → Bool → Bool → Result (Bool × Bool)
scan_fields [] indeterminate failed = ok (indeterminate, failed)
scan_fields (f ∷ fs) indeterminate failed =
    let rest = scan_fields fs indeterminate failed in
    if f.is_diagnostics
    then (f.diagnostic >>= λ diagnostic.
        scan_fields fs (indeterminate || bit diagnostic 3)
          (failed || (f.is_error && not (diagnostic == 0))))
    else rest

unfoldable pub kind_of_response : Bool → ℕ → ObservationKind
kind_of_response cancel cam =
    if cancel
    then (if bit cam 19 then cancellation_execution else cancellation_state)
    else if bit cam 20
    then validation
    else if bit cam 19
    then execution
    else state

unfoldable pub observed : ControllerObserver → Bool → ℕ → Bool × Bool → Observation
unfolding kind_of_response
observed c cancel cam (indeterminate, failed) =
    let kind = kind_of_response cancel cam in
    let action = cam / 2 ^ 23 % 4 in
    let timing = cam / 2 ^ 12 % 8 in
    let partial = bit cam 11 in
    let executed = bit cam 10 in
    let confirmed =
      same_kind kind execution
      && action == 2
      && not partial
      && executed
      && not indeterminate
      && not (timing == 7) in
    let late = if cancel then c.cancellation_timed_out else c.timed_out in
    let cancel_known = same_kind kind cancellation_execution && not indeterminate in
    record {
      kind = if late then late_response else kind;
      hypothetical = action == 1;
      partial = partial;
      success = confirmed && not late;
      unknown_remote_outcome = not confirmed;
      response_kind = kind;
      confirms_execution = confirmed;
      contradictory = false;
      is_cancellation = cancel;
      confirms_cancellation = cancel_known && executed;
      cancellation_outcome_known = cancel_known;
      validation_outcome_known = same_kind kind validation;
      validation_accepted =
          same_kind kind validation
          && executed
          && not partial
          && not failed
          && not indeterminate
          && not (timing == 7);
    }

abbrev pub receive_cam : ControllerObserver → Response → ℕ → Result Observation
receive_cam c response cam = do
  validate_cam response.envelope cam
  guard (not (response.envelope.cancel && (bit cam 20 || not (cam / 2 ^ 23 % 4 == 2))))
      (error invalid_argument)
  scanned ← scan_fields response.fields false (bit cam 16)
  ok (observed c response.envelope.cancel cam scanned)

abbrev pub receive_command : ControllerObserver → Response → Option Command → Result Observation
receive_command c response none = err (error invalid_argument)
receive_command c response (some command) =
    if not response.envelope.ack
      || not (command.message_id == c.message_id)
      || response.requires_request_context
      || response.opaque
    then err (error invalid_argument)
    else receive_cam c response command.cam

abbrev pub recorded :
    ControllerObserver → Result Observation → ControllerObserver × Result (Unit {0})
recorded c (err e) = (c, err e)
recorded c (ok event) = (record_event c event, done)

unfoldable pub receive : ControllerObserver → Response → ControllerObserver × Result (Unit {0})
unfolding validate_cam scan_fields observed record_event
receive c response = recorded c (receive_command c response response.envelope.command)

abbrev pub find_timed : List Observation → Option Observation
find_timed [] = none
find_timed (o ∷ os) = let rest = find_timed os in if same_kind o.kind timed then some o else rest

unfoldable pub timeout_observation : ControllerObserver → Option Observation
timeout_observation c = find_timed c.history
