-- ===== src/Stream/Routing.antt =====
-- include/vita/runtime/stream/routing.hpp: receive routes and their lookup.
pub mod Keys
pub mod Table
pub mod Lookup
pub mod Install
use vrt_framework.Prelude.{
  ℕ, zero, suc, ◌+◌, ◌-◌, ◌*◌, ◌/◌, ◌%◌, ◌^◌, ◌≤◌, ◌<◌, min, max, bit_and, bit_or, ◌≡◌, refl, sym,
  ap, ◌∙◌, subst, ◌≢◌, ◌↔◌, ◌⊎◌, inl, inr, Bool, true, false, ◌&&◌, ◌||◌, not, Option, none, some,
  List, [], ◌∷◌, ◌++◌, append-nil, append_assoc, arith, ltb, leb, ◌==◌, if◌then◌else◌, ltb→lt,
  lt→ltb, leb→le, ==_iff, ==_refl, Bool-cases, Option-cases, if-both, has_value, eq_option, eq_bool,
  u64_max, add64, sub64, mul64, bit, length, get_elem?, get_or, set, take, drop, replicate,
  length-append, length-set, get_elem?-set_self, get_elem?-set_ne, take-append-drop, length-take,
  length-drop, length-replicate, drop-append, take-append,
}
use vrt_framework.Core.Error.{
  ErrorCode, Error, error, error_at, error_needs, invalid_argument, unsupported_layout,
  unsupported_capability, overflow, short_input, short_output, capacity_exhausted, stale_generation,
  invalid_state, callback_failure, no_cpu_access, resource_limit, identity_conflict, Result, ok,
  err, ◌>>=◌, ◌>>◌, guard, done, is_ok, >>=-eq-ok, Result-cases, ok-injective, guard-eq-ok,
}
use mathlib.Core.Option
use vrt_framework.Codec.Envelope.{
  ClassId, Identifier, absent_id, size_words, Envelope, Command, is_command, is_extension,
}

pub record PeerSession : Type 0 where
  pub peer : ℕ
  pub generation : ℕ

abbrev pub same_peer : PeerSession → PeerSession → Bool
same_peer a b = a.peer == b.peer && a.generation == b.generation

-- The loop over `size_words()` of the two words arrays.
unfoldable pub same_identifier : Identifier → Identifier → Bool
same_identifier a b =
    a.kind == b.kind
    && (if a.kind == 0
        then true
        else if a.kind == 1
        then a.word_0 == b.word_0
        else a.word_0 == b.word_0
          && a.word_1 == b.word_1
          && a.word_2 == b.word_2
          && a.word_3 == b.word_3)

unfoldable pub same_class : Option ClassId → Option ClassId → Bool
same_class none none = true
same_class (some a) (some b) =
    a.oui == b.oui && a.information_class == b.information_class && a.packet_class == b.packet_class
same_class _ _ = false

pub record RouteKey : Type 0 where
  pub source : PeerSession
  pub stream_id : Option ℕ
  pub type : ℕ
  pub packet_class : Option ClassId
  pub controllee : Identifier
  pub controller : Identifier

unfoldable pub same_route : RouteKey → RouteKey → Bool
same_route a b =
    same_peer a.source b.source
    && eq_option a.stream_id b.stream_id
    && a.type == b.type
    && same_class a.packet_class b.packet_class
    && same_identifier a.controllee b.controllee
    && same_identifier a.controller b.controller

-- A callback is the number of the function it points to, and `none` is the null pointer. `ignore`
-- stands for the empty function that `detach` leaves.
pub data Receiver : Type 0 where
  calls : ℕ → Receiver
  ignore : Receiver

pub record Route : Type 0 where
  pub key : RouteKey
  pub context : Option ℕ
  pub receive : Option Receiver
  pub request_context : Option ℕ
  pub validate_extension : Option ℕ
  pub minimum_payload_bytes : ℕ
  pub maximum_payload_bytes : ℕ
  pub before_decode : Option ℕ

abbrev pub Routes : Type 0
Routes = List (Option Route)

pub record RouteRegistry : Type 0 where
  pub routes : Routes
  pub frozen : Bool

pub empty_routes : ℕ → RouteRegistry
empty_routes n = record { routes = replicate n none; frozen = false }

abbrev pub is_sidless : ℕ → Bool
is_sidless type = type == 0 || type == 2

unfoldable pub bad_identifier : Identifier → Bool
bad_identifier id =
    ltb 2 id.kind
    || (id.kind == 2 && (id.word_0 == 0 && id.word_1 == 0 && id.word_2 == 0 && id.word_3 == 0))

unfoldable pub bad_class : Option ClassId → Bool
bad_class none = false
bad_class (some c) = ltb 0xffffff c.oui

-- The checks of `add`, in their order.
unfoldable pub check_route : Route → Result (Unit {0})
unfolding bad_class bad_identifier
check_route route =
    let key = route.key in
    if not (has_value route.receive)
      || key.source.generation == 0
      || ltb 7 key.type
      || ltb route.maximum_payload_bytes route.minimum_payload_bytes
    then err (error invalid_argument)
    else if bad_class key.packet_class
    then err (error invalid_argument)
    else if bad_identifier key.controllee || bad_identifier key.controller
    then err (error invalid_argument)
    else if is_extension key.type
        && (not (has_value key.packet_class) || not (has_value route.validate_extension))
    then err (error unsupported_capability)
    else if eq_bool (is_sidless key.type) (has_value key.stream_id)
    then err (error invalid_argument)
    else if not (is_command key.type)
        && (not (key.controllee.kind == 0) || not (key.controller.kind == 0))
    then err (error invalid_argument)
    else done

unfoldable pub routed : RouteKey → Routes → Bool
routed key [] = false
routed key (none ∷ rs) = routed key rs
routed key (some r ∷ rs) = same_route r.key key || routed key rs

unfoldable pub insert_route : Route → Routes → Option Routes
insert_route route [] = none
insert_route route (none ∷ rs) = some (some route ∷ rs)
insert_route route (some r ∷ rs) = Option.map (◌∷◌ (some r)) (insert_route route rs)

unfoldable pub inserted : Option Routes → Result Routes
inserted none = err (error capacity_exhausted)
inserted (some rs) = ok rs

-- `add` on a registry that is not frozen.
unfoldable pub add_route : Route → Routes → Result Routes
unfolding check_route routed inserted
add_route route rs = do
  check_route route
  guard (not (routed route.key rs)) (error invalid_argument)
  inserted (insert_route route rs)

unfoldable pub replace_routes : RouteRegistry → Result Routes → RouteRegistry × Result (Unit {0})
replace_routes r (ok rs) = (record r { routes = rs }, done)
replace_routes r (err e) = (r, err e)

unfoldable pub add : RouteRegistry → Route → RouteRegistry × Result (Unit {0})
unfolding add_route replace_routes
add r route =
    if r.frozen then (r, err (error invalid_state)) else replace_routes r (add_route route r.routes)

-- The loop of `install`, on the candidate copy, which is not frozen.
unfoldable pub add_all : List Route → Routes → Result Routes
unfolding add_route
add_all [] rs = ok rs
add_all (route ∷ batch) rs = add_route route rs >>= λ rs'. add_all batch rs'

unfoldable pub install : RouteRegistry → List Route → RouteRegistry × Result (Unit {0})
unfolding add_all replace_routes
install r batch = replace_routes r (add_all batch r.routes)

unfoldable pub free_routes : Routes → ℕ
free_routes [] = 0
free_routes (none ∷ rs) = suc (free_routes rs)
free_routes (some r ∷ rs) = free_routes rs

unfoldable pub available : RouteRegistry → ℕ
unfolding free_routes
available r = free_routes r.routes

-- `route->context == context`, where both may be null
unfoldable pub detach_route : Option ℕ → Route → Route
detach_route context route =
    if eq_option route.context context
    then record route {
      context = none;
      request_context = none;
      before_decode = none;
      receive = some ignore;
    }
    else route

unfoldable pub detach_all : Option ℕ → Routes → Routes
unfolding detach_route
detach_all context [] = []
detach_all context (none ∷ rs) = none ∷ detach_all context rs
detach_all context (some r ∷ rs) = some (detach_route context r) ∷ detach_all context rs

unfoldable pub detach : RouteRegistry → Option ℕ → RouteRegistry
unfolding detach_all
detach r context = record r { routes = detach_all context r.routes }

unfoldable pub freeze : RouteRegistry → RouteRegistry
freeze r = record r { frozen = true }

abbrev pub wanted_controllee : Option Command → Identifier
wanted_controllee none = absent_id
wanted_controllee (some c) = c.controllee

abbrev pub wanted_controller : Option Command → Identifier
wanted_controller none = absent_id
wanted_controller (some c) = c.controller

unfoldable pub wanted_key : PeerSession → Envelope → RouteKey
wanted_key peer e = record {
  source = peer;
  stream_id = e.stream_id;
  type = e.type;
  packet_class = e.class_id;
  controllee = wanted_controllee e.command;
  controller = wanted_controller e.command;
}

-- The loop of `lookup` with the route found so far; a second match is an error.
unfoldable pub lookup_loop : RouteKey → Option Route → Routes → Result (Option Route)
lookup_loop wanted found [] = ok found
lookup_loop wanted found (none ∷ rs) = lookup_loop wanted found rs
lookup_loop wanted found (some r ∷ rs) =
    let hit = lookup_loop wanted (some r) rs in
    let miss = lookup_loop wanted found rs in
    if same_route r.key wanted
    then (if has_value found then err (error invalid_state) else hit)
    else miss

unfoldable pub found_route : Option Route → Result Route
found_route none = err (error unsupported_capability)
found_route (some r) = ok r

unfoldable pub lookup : RouteRegistry → PeerSession → Envelope → Result Route
unfolding lookup_loop found_route wanted_key
lookup r peer envelope =
    if r.frozen
    then (lookup_loop (wanted_key peer envelope) none r.routes >>= found_route)
    else err (error invalid_state)
