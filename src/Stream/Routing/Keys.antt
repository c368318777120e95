-- ===== src/Stream/Routing/Keys.antt =====
-- `same_route` is an equivalence of route keys, coarser than equality: unused identifier words and
-- the pad bits of a class identifier do not count.
use vrt_framework.Prelude.{ℕ, ◌≡◌, refl, sym, ◌∙◌, true, Option, none, some, arith, eq_option}
use vrt_framework.Codec.Envelope.{ClassId, Identifier}
use vrt_framework.Stream.Routing.{same_identifier, same_class, RouteKey, same_route}

same_identifier_refl : (a : Identifier) → same_identifier a a ≡ true
unfolding same_identifier
same_identifier_refl a = ground arith

same_identifier_trans :
    (a b k : Identifier) → same_identifier a b ≡ true → same_identifier a k ≡ same_identifier b k
unfolding same_identifier
same_identifier_trans a b k h = ground arith

same_class_refl : (a : Option ClassId) → same_class a a ≡ true
unfolding same_class
same_class_refl none = refl
same_class_refl (some a) = ground arith

same_class_trans :
    (a b k : Option ClassId) → same_class a b ≡ true → same_class a k ≡ same_class b k
unfolding same_class
same_class_trans none none k h = refl
same_class_trans none (some b) k h = cc
same_class_trans (some a) none k h = cc
same_class_trans (some a) (some b) none h = refl
same_class_trans (some a) (some b) (some k) h = ground arith

eq_option_refl : (a : Option ℕ) → eq_option a a ≡ true
eq_option_refl none = refl
eq_option_refl (some a) = ground arith

eq_option_trans : (a b k : Option ℕ) → eq_option a b ≡ true → eq_option a k ≡ eq_option b k
eq_option_trans none none k h = refl
eq_option_trans none (some b) k h = cc
eq_option_trans (some a) none k h = cc
eq_option_trans (some a) (some b) none h = refl
eq_option_trans (some a) (some b) (some k) h = ground arith

pub same_route_refl : (a : RouteKey) → same_route a a ≡ true
unfolding same_route
same_route_refl a = ground (
  arith,
  eq_option_refl a.stream_id,
  same_class_refl a.packet_class,
  same_identifier_refl a.controllee,
  same_identifier_refl a.controller,
)

pub same_route_trans : (a b k : RouteKey) → same_route a b ≡ true → same_route a k ≡ same_route b k
unfolding same_route
same_route_trans a b k h = ground (
  arith,
  eq_option_trans a.stream_id b.stream_id k.stream_id,
  same_class_trans a.packet_class b.packet_class k.packet_class,
  same_identifier_trans a.controllee b.controllee k.controllee,
  same_identifier_trans a.controller b.controller k.controller,
)

pub same_route_sym : (a b : RouteKey) → same_route a b ≡ true → same_route b a ≡ true
same_route_sym a b h = sym (same_route_trans a b a h) ∙ same_route_refl a
