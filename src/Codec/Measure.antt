-- ===== src/Codec/Measure.antt =====
-- include/vita/codec/wire.hpp: `validate_cam` and `measure_envelope`.
pub mod Inversion
use vrt_framework.Prelude.{
  ℕ, zero, suc, ◌+◌, ◌-◌, ◌*◌, ◌/◌, ◌%◌, ◌^◌, ◌≤◌, ◌<◌, min, max, bit_and, bit_or, ◌≡◌, refl, sym,
  ap, ◌∙◌, subst, ◌≢◌, ◌↔◌, ◌⊎◌, inl, inr, Bool, true, false, ◌&&◌, ◌||◌, not, Option, none, some,
  List, [], ◌∷◌, ◌++◌, append-nil, append_assoc, arith, ltb, leb, ◌==◌, if◌then◌else◌, ltb→lt,
  lt→ltb, leb→le, ==_iff, ==_refl, Bool-cases, Option-cases, if-both, has_value, eq_option, eq_bool,
  u64_max, add64, sub64, mul64, bit, length, get_elem?, get_or, set, take, drop, replicate,
  length-append, length-set, get_elem?-set_self, get_elem?-set_ne, take-append-drop, length-take,
  length-drop, length-replicate, drop-append, take-append,
}
use vrt_framework.Core.Error.{
  ErrorCode, Error, error, error_at, error_needs, invalid_argument, unsupported_layout,
  unsupported_capability, overflow, short_input, short_output, capacity_exhausted, stale_generation,
  invalid_state, callback_failure, no_cpu_access, resource_limit, identity_conflict, Result, ok,
  err, ◌>>=◌, ◌>>◌, guard, done, is_ok, >>=-eq-ok, Result-cases, ok-injective, guard-eq-ok,
}
use vrt_framework.Codec.Envelope.{
  is_data, is_command, Timestamp, ClassId, Identifier, size_words, Command, Envelope,
}

-- include/vita/codec/layout.hpp
unfoldable pub checked_add : ℕ → ℕ → Result ℕ
checked_add a b = if ltb (sub64 u64_max a) b then err (error_at overflow a) else ok (add64 a b)

-- The reserved bits of a CAM word: 21, 15, two or four from 8 on, and all or one of the low eight.
unfoldable pub reserved_bits : Bool → Bool → ℕ → Bool
reserved_bits ack extension cam =
    bit cam 21
    || bit cam 15
    || not ((if ack then cam / 2 ^ 8 % 4 else cam / 2 ^ 8 % 16) == 0)
    || not ((if extension then cam % 2 else cam % 256) == 0)

-- The number of set bits among 18, 19 and 20: which acknowledgements are asked for.
abbrev pub requests : ℕ → ℕ
requests cam = cam / 2 ^ 18 % 2 + cam / 2 ^ 19 % 2 + cam / 2 ^ 20 % 2

abbrev pub action : ℕ → ℕ
action cam = cam / 2 ^ 23 % 4

abbrev pub timing_mode : ℕ → ℕ
timing_mode cam = cam / 2 ^ 12 % 8

-- A cancellation must be marked partial, must not ask for validation, and reports state only with execution.
unfoldable pub bad_cancellation : ℕ → Bool
bad_cancellation cam =
    not (action cam == 2) || not (bit cam 27) || bit cam 20 || (bit cam 18 && not (bit cam 19))

-- `validate_cam` for the command's CAM word.
unfoldable pub validate_cam : Envelope → ℕ → Result (Unit {0})
unfolding reserved_bits bad_cancellation
validate_cam e cam = do
  guard (not (reserved_bits e.ack (e.type == 7) cam)) (error invalid_argument)
  guard (not (action cam == 3)) (error invalid_argument)
  guard (not (ltb 4 (timing_mode cam) && not (e.ack && timing_mode cam == 7)))
      (error invalid_argument)
  guard
      (not
        (not (timing_mode cam == 0) && not e.ack && e.timestamp.tsi == 0 && e.timestamp.tsf == 0))
      (error invalid_argument)
  guard (not (e.ack && not (requests cam == 1))) (error invalid_argument)
  guard (not (e.ack && bit cam 18 && (bit cam 17 || bit cam 16))) (error invalid_argument)
  guard (not (e.cancel && not e.ack && bad_cancellation cam)) (error invalid_argument)

-- The lambda `check_id`, with the enable and the type bit of the identifier.
unfoldable pub check_id : ℕ → Identifier → ℕ → ℕ → Bool
check_id cam id enable uuid =
    not (ltb 2 id.kind)
    && eq_bool (bit cam enable) (not (id.kind == 0))
    && (id.kind == 0 || eq_bool (bit cam uuid) (id.kind == 2))
    && (not (id.kind == 2)
        || not (id.word_0 == 0 && id.word_1 == 0 && id.word_2 == 0 && id.word_3 == 0))

unfoldable pub bad_class_id : Option ClassId → Bool
bad_class_id none = false
bad_class_id (some c) = ltb 0xffffff c.oui || ltb 31 c.pad_bits

-- A flag or a command that the type of the packet does not have.
unfoldable pub foreign_flags : Envelope → Bool
foreign_flags e =
    if is_data e.type
    then e.ack || e.cancel || e.tsm || has_value e.command
    else if is_command e.type
    then e.trailer || e.nd0 || e.spectrum || e.tsm || not (has_value e.command)
    else e.trailer || e.ack || e.cancel || e.spectrum || has_value e.command

abbrev pub has_sid : ℕ → Bool
has_sid type = not (type == 0) && not (type == 2)

-- The words before the command's.
unfoldable pub head_words : Envelope → ℕ
head_words e =
    1
    + (if has_sid e.type then 1 else 0)
    + (if has_value e.class_id then 2 else 0)
    + (if e.timestamp.tsi == 0 then 0 else 1)
    + (if e.timestamp.tsf == 0 then 0 else 2)
    + (if e.trailer then 1 else 0)

unfoldable pub check_command : Envelope → Command → Result ℕ
unfolding validate_cam check_id
check_command e c = do
  validate_cam e c.cam
  guard (check_id c.cam c.controllee 31 30 && check_id c.cam c.controller 29 28)
      (error invalid_argument)
  ok (2 + size_words c.controllee + size_words c.controller)

unfoldable pub command_words : Envelope → Option Command → Result ℕ
unfolding check_command
command_words e none = ok 0
command_words e (some c) = check_command e c

unfoldable pub bad_ranges : Envelope → Bool
bad_ranges e =
    ltb 7 e.type || ltb 15 e.packet_count || ltb 3 e.timestamp.tsi || ltb 3 e.timestamp.tsf

unfoldable pub measure_envelope : Envelope → ℕ → Result ℕ
unfolding bad_ranges bad_class_id foreign_flags head_words command_words checked_add
measure_envelope e payload_bytes = do
  guard (not (bad_ranges e)) (error invalid_argument)
  guard (eq_bool (has_sid e.type) (has_value e.stream_id)) (error invalid_argument)
  guard (not (bad_class_id e.class_id)) (error invalid_argument)
  guard (not (foreign_flags e)) (error invalid_argument)
  guard (payload_bytes % 4 == 0) (error invalid_argument)
  guard (not (is_data e.type && payload_bytes == 0)) (error invalid_argument)
  words ← command_words e e.command
  total ← checked_add (head_words e + words) (payload_bytes / 4)
  if ltb 65535 total then err (error overflow) else ok (total * 4)
