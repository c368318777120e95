-- ===== src/Codec/Envelope.antt =====
-- include/vita/codec/wire.hpp: the envelope of a packet as data. An enumerator is its number, since
-- the code casts wire bits to the enumerations and checks their range itself.
use vrt_framework.Prelude.{ℕ, Bool, ◌||◌, Option, leb, ◌==◌, if◌then◌else◌}

-- `PacketType`: 0 signal_without_sid, 1 signal, 2 extension_without_sid, 3 extension_data,
-- 4 context, 5 extension_context, 6 command, 7 extension_command.
abbrev pub is_data : ℕ → Bool
is_data t = leb t 3

abbrev pub is_command : ℕ → Bool
is_command t = leb 6 t

abbrev pub is_extension : ℕ → Bool
is_extension t = t == 2 || t == 3 || t == 5 || t == 7

-- `Tsi` and `Tsf` have the values 0 to 3, and 0 is `none`.
pub record Timestamp : Type 0 where
  pub tsi : ℕ
  pub tsf : ℕ
  pub integer : ℕ
  pub fractional : ℕ

pub record ClassId : Type 0 where
  pub oui : ℕ
  pub information_class : ℕ
  pub packet_class : ℕ
  pub pad_bits : ℕ

-- `IdentifierKind`: 0 absent, 1 short_id, 2 uuid.
pub record Identifier : Type 0 where
  pub kind : ℕ
  pub word_0 : ℕ
  pub word_1 : ℕ
  pub word_2 : ℕ
  pub word_3 : ℕ

abbrev pub absent_id : Identifier
absent_id = record { kind = 0; word_0 = 0; word_1 = 0; word_2 = 0; word_3 = 0 }

abbrev pub short_id : ℕ → Identifier
short_id value = record { kind = 1; word_0 = value; word_1 = 0; word_2 = 0; word_3 = 0 }

abbrev pub uuid : ℕ → ℕ → ℕ → ℕ → Identifier
uuid a b c d = record { kind = 2; word_0 = a; word_1 = b; word_2 = c; word_3 = d }

abbrev pub size_words : Identifier → ℕ
size_words id = if id.kind == 0 then 0 else if id.kind == 1 then 1 else 4

pub record Command : Type 0 where
  pub cam : ℕ
  pub message_id : ℕ
  pub controllee : Identifier
  pub controller : Identifier

pub record Envelope : Type 0 where
  pub type : ℕ
  pub packet_count : ℕ
  pub stream_id : Option ℕ
  pub class_id : Option ClassId
  pub timestamp : Timestamp
  pub trailer : Bool
  pub nd0 : Bool
  pub spectrum : Bool
  pub tsm : Bool
  pub ack : Bool
  pub cancel : Bool
  pub command : Option Command
