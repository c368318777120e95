-- ===== src/Codec/Measure/Inversion.antt =====
-- What `measure_envelope` has checked when it gives a size.
use vrt_framework.Prelude.{
  ℕ, ◌+◌, ◌*◌, ◌/◌, ◌%◌, ◌^◌, ◌≤◌, ◌<◌, ◌≡◌, refl, sym, Bool, true, false, ◌&&◌, not, Option, none,
  some, arith, ltb, if◌then◌else◌, ==_iff, has_value, eq_bool,
}
use vrt_framework.Core.Error.{error, overflow, ok, err, ◌>>=◌, >>=-eq-ok, ok-injective, >>-eq-ok}
use vrt_framework.Codec.Envelope.{size_words, Command, Envelope}
use vrt_framework.Codec.Measure.{
  checked_add, check_id, has_sid, head_words, check_command, command_words, bad_ranges,
  bad_class_id, foreign_flags, measure_envelope, validate_cam,
}

-- The command's own part: its identifiers agree with the CAM word.
abbrev pub CommandChecked : Option Command → ℕ → Type 0
CommandChecked none words = words ≡ 0
CommandChecked (some c) words =
    ((check_id c.cam c.controllee 31 30 && check_id c.cam c.controller 29 28) ≡ true)
    × (words ≡ 2 + size_words c.controllee + size_words c.controller)

pub record Measured (e : Envelope) (payload_bytes size : ℕ) : Type 0 where
  pub ranges : bad_ranges e ≡ false
  pub stream : eq_bool (has_sid e.type) (has_value e.stream_id) ≡ true
  pub class : bad_class_id e.class_id ≡ false
  pub flags : foreign_flags e ≡ false
  pub aligned : payload_bytes % 4 ≡ 0
  pub words : ℕ
  pub command : CommandChecked e.command words
  pub total : head_words e + words + payload_bytes / 4 ≤ 65535
  pub size_lem : size ≡ (head_words e + words + payload_bytes / 4) * 4

command-checked :
    (e : Envelope) (c : Option Command) (words : ℕ)
    → command_words e c ≡ ok words
    → CommandChecked c words
unfolding command_words check_command
command-checked e none words h = sym (ok-injective h)
command-checked e (some c) words h =
    let (_, _, h1) = >>=-eq-ok (validate_cam e c.cam) _ h in
    let (g, h2) = >>-eq-ok _ _ _ h1 in (g, sym (ok-injective h2))

command-small : (c : Option Command) (words : ℕ) → CommandChecked c words → words ≤ 10
command-small none words h = omega arith
command-small (some c) words (g, h) = ground arith

head-small : (e : Envelope) → head_words e ≤ 8
unfolding head_words
head-small e = ground arith

size-checked :
    (n p size : ℕ)
    → n ≤ 18
    → p < 2 ^ 64
    → (checked_add n (p / 4) >>= λ t. if ltb 65535 t then err (error overflow) else ok (t * 4))
      ≡ ok size
    → (n + p / 4 ≤ 65535) × (size ≡ (n + p / 4) * 4)
unfolding checked_add
size-checked n p size hn hp h = (ground arith, ground arith)

not-true : {b : Bool} → not b ≡ true → b ≡ false
not-true {b = true} h = sym h
not-true {b = false} h = refl

-- A size that `measure_envelope` gives is that of an envelope with all of this.
pub measure_envelope-Measured :
    (e : Envelope) (payload_bytes size : ℕ)
    → payload_bytes < 2 ^ 64
    → measure_envelope e payload_bytes ≡ ok size
    → Measured e payload_bytes size
unfolding measure_envelope
measure_envelope-Measured e payload_bytes size small h =
    let (g1, h1) = >>-eq-ok _ _ _ h in
    let (g2, h2) = >>-eq-ok _ _ _ h1 in
    let (g3, h3) = >>-eq-ok _ _ _ h2 in
    let (g4, h4) = >>-eq-ok _ _ _ h3 in
    let (g5, h5) = >>-eq-ok _ _ _ h4 in
    let (g6, h6) = >>-eq-ok _ _ _ h5 in
    let (words, c, h7) = >>=-eq-ok (command_words e e.command) _ h6 in
    let k = command-checked e e.command words c in
    let few = command-small e.command words k in
    let head = head-small e in
    let (t, s) = size-checked (head_words e + words) payload_bytes size (omega arith) small h7 in
    record {
      ranges = not-true g1;
      stream = g2;
      class = not-true g3;
      flags = not-true g4;
      aligned = (==_iff _ 0).0 g5;
      words = words;
      command = k;
      total = t;
      size_lem = s;
    }
