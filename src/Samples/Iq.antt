-- ===== src/Samples/Iq.antt =====
-- include/vita/codec/samples.hpp: pairs of samples of 16 or 32 bits as big-endian words. A sample is its bit
-- pattern, also that of a float. Addresses, which only the test for an overlap reads, are numbers.
pub mod RoundTrip
use vrt_framework.Prelude.{
  ℕ, zero, suc, ◌+◌, ◌-◌, ◌*◌, ◌/◌, ◌%◌, ◌^◌, ◌≤◌, ◌<◌, min, max, bit_and, bit_or, ◌≡◌, refl, sym,
  ap, ◌∙◌, subst, ◌≢◌, ◌↔◌, ◌⊎◌, inl, inr, Bool, true, false, ◌&&◌, ◌||◌, not, Option, none, some,
  List, [], ◌∷◌, ◌++◌, append-nil, append_assoc, arith, ltb, leb, ◌==◌, if◌then◌else◌, ltb→lt,
  lt→ltb, leb→le, ==_iff, ==_refl, Bool-cases, Option-cases, some-injective, if-both, has_value,
  eq_option, eq_bool, u64_max, add64, sub64, mul64, bit, length, get_elem?, get_or, set, take, drop,
  replicate, length-append, length-set, get_elem?-set_self, get_elem?-set_ne, take-append-drop,
  length-take, length-drop, length-replicate, drop-append, take-append,
}
use vrt_framework.Core.Error.{
  ErrorCode, Error, error, error_at, error_needs, invalid_argument, unsupported_layout,
  unsupported_capability, overflow, short_input, short_output, capacity_exhausted, stale_generation,
  invalid_state, callback_failure, no_cpu_access, resource_limit, identity_conflict, Result, ok,
  err, ◌>>=◌, ◌>>◌, guard, done, is_ok, >>=-eq-ok, Result-cases, ok-injective, guard-eq-ok,
  >>-eq-ok,
}
use vrt_framework.Codec.Words.{load32, store32}

pub data SampleScalar : Type 0 where
  int16 int32 float32 : SampleScalar

abbrev pub size_of : SampleScalar → ℕ
size_of int16 = 2
size_of int32 = 4
size_of float32 = 4

pub record Iq : Type 0 where
  pub i : ℕ
  pub q : ℕ

-- include/vita/codec/layout.hpp
unfoldable pub checked_multiply : ℕ → ℕ → Result ℕ
checked_multiply a b =
    if not (a == 0) && ltb (u64_max / a) b then err (error overflow) else ok (mul64 a b)

abbrev pub pack_loop : SampleScalar → List ℕ → ℕ → List Iq → List ℕ
pack_loop t output offset [] = output
pack_loop int16 output offset (p ∷ ps) =
    pack_loop int16 (store32 output offset (p.i * 2 ^ 16 + p.q)) (add64 offset 4) ps
pack_loop int32 output offset (p ∷ ps) =
    pack_loop int32 (store32 (store32 output offset p.i) (add64 offset 4) p.q) (add64 offset 8) ps
pack_loop float32 output offset (p ∷ ps) =
    pack_loop float32 (store32 (store32 output offset p.i) (add64 offset 4) p.q) (add64 offset 8) ps

abbrev pub ranges_overlap : ℕ → ℕ → ℕ → Bool
ranges_overlap source destination size =
    if leb source destination
    then ltb (destination - source) size
    else ltb (source - destination) size

-- The output and the result; the output is left as it is where packing fails.
abbrev pub packed : SampleScalar → List Iq → List ℕ → ℕ → ℕ → Result ℕ → List ℕ × Result ℕ
packed t samples output source destination (err e) = (output, err e)
packed t samples output source destination (ok size) =
    if ltb (length output) size
    then (output, err (error_needs short_output 0 size))
    else if not (size == 0) && ranges_overlap source destination size
    then (output, err (error invalid_argument))
    else (pack_loop t output 0 samples, ok size)

unfoldable pub pack_iq : SampleScalar → List Iq → List ℕ → ℕ → ℕ → List ℕ × Result ℕ
unfolding checked_multiply store32
pack_iq t samples output source destination =
    packed t samples output source destination (checked_multiply (length samples) (size_of t * 2))

-- `SampleView`
pub record SampleView : Type 0 where
  pub content : List ℕ

unfoldable pub create : SampleScalar → List ℕ → Result SampleView
create t content =
    if not (length content % (size_of t * 2) == 0)
    then err (error invalid_argument)
    else ok (record { content = content })

unfoldable pub size : SampleScalar → SampleView → ℕ
size t v = length v.content / (size_of t * 2)

abbrev pub pair_at : SampleScalar → List ℕ → ℕ → Iq
pair_at int16 content offset = record {
  i = load32 content offset / 2 ^ 16 % 2 ^ 16;
  q = load32 content offset % 2 ^ 16;
}
pair_at int32 content offset = record {
  i = load32 content offset;
  q = load32 content (add64 offset 4);
}
pair_at float32 content offset = record {
  i = load32 content offset;
  q = load32 content (add64 offset 4);
}

-- `at`
unfoldable pub sample_at : SampleScalar → SampleView → ℕ → Result Iq
unfolding size load32
sample_at t v index =
    if leb (size t v) index
    then err (error_at invalid_argument index)
    else ok (pair_at t v.content (mul64 (mul64 index (size_of t)) 2))
