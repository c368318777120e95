-- ===== src/Stream/Tests.antt =====
-- include/vita/runtime/stream: registries of two streams.
use vrt_framework.Prelude.{
  ℕ, ◌+◌, ◌≡◌, refl, ◌↔◌, ◌⊎◌, true, false, none, some, [], ◌∷◌, if◌then◌else◌,
}
use vrt_framework.Core.Error.{Error, ok, err}
use vrt_framework.Codec.Envelope.{absent_id, Envelope}
use vrt_framework.Stream.Counters
use vrt_framework.Stream.Counters.{
  CounterKey, Entry, CounterRegistry, registered, find_next, found_count, next, accept, available,
  same_key,
}
use vrt_framework.Stream.Counters.Keys
use vrt_framework.Stream.Counters.Keys.{
  RegistryCall, accepts, freezes, call, among, call-DistinctKeys, install_batch_atomic,
}
use vrt_framework.Stream.Counters.Sequence.{accept_each, Consecutive, accept_each-Consecutive}
use vrt_framework.Stream.Routing
use vrt_framework.Stream.Routing.{
  PeerSession, RouteKey, Route, Receiver, calls, ignore, RouteRegistry, same_route, same_identifier,
  same_class, detach_all, detach_route, detach, routed, wanted_key, found_route, lookup,
}
use vrt_framework.Stream.Routing.Table
use vrt_framework.Stream.Routing.Table.{find_route}
use vrt_framework.Stream.Routing.Lookup
use vrt_framework.Stream.Routing.Lookup.{RoutingCall, detaches, run, lookup_unambiguous}
use vrt_framework.Stream.Routing.Install
use vrt_framework.Stream.Routing.Install.{install_routes_atomic, detach_silences, or_else}

abbrev key_a : CounterKey
key_a = record { sender = 1; stream_id = some 7; type = 1 }

abbrev key_b : CounterKey
key_b = record { sender = 1; stream_id = none; type = 0 }

abbrev counters : CounterRegistry
counters = record {
  entries =
      some (record { key = key_a; next = 15 })
      ∷ none
      ∷ some (record { key = key_b; next = 3 })
      ∷ [];
  frozen = true;
}

next_lem : next counters key_a ≡ ok 15
unfolding next find_next found_count
next_lem = refl

accept_each-Consecutive_example :
    ((accept_each counters key_a (15 ∷ 0 ∷ 1 ∷ [])).1 ≡ true) ↔ Consecutive 15 (15 ∷ 0 ∷ 1 ∷ [])
accept_each-Consecutive_example =
    accept_each-Consecutive (15 ∷ 0 ∷ 1 ∷ []) counters key_a 15 refl next_lem

counters-Distinct : Keys.Distinct counters.entries
unfolding registered
counters-Distinct = (refl, (refl, tt))

call-DistinctKeys_example : Keys.Distinct (call counters (accepts key_b 3)).entries
call-DistinctKeys_example = call-DistinctKeys counters (accepts key_b 3) counters-Distinct

abbrev key_c : CounterKey
key_c = record { sender = 2; stream_id = some 9; type = 4 }

install_batch_atomic_example :
    ((e : Error) × (Counters.install counters (key_c ∷ []) ≡ (counters, err e)))
    ⊎ (((Counters.install counters (key_c ∷ [])).1 ≡ ok tt)
        × ((k : CounterKey)
            → find_next k (Counters.install counters (key_c ∷ [])).0.entries
              ≡ (if among k (key_c ∷ []) then some 0 else find_next k counters.entries))
        × (available counters ≡ available (Counters.install counters (key_c ∷ [])).0 + 1))
install_batch_atomic_example = install_batch_atomic counters (key_c ∷ [])

abbrev route_key : ℕ → RouteKey
route_key stream = record {
  source = record { peer = 3; generation = 1 };
  stream_id = some stream;
  type = 1;
  packet_class = none;
  controllee = absent_id;
  controller = absent_id;
}

abbrev route : ℕ → ℕ → Route
route stream context = record {
  key = route_key stream;
  context = some context;
  receive = some (calls 1);
  request_context = none;
  validate_extension = none;
  minimum_payload_bytes = 0;
  maximum_payload_bytes = 64;
  before_decode = none;
}

abbrev routes : RouteRegistry
routes = record { routes = some (route 7 70) ∷ some (route 8 80) ∷ none ∷ []; frozen = true }

routes-Distinct : Table.Distinct routes.routes
unfolding routed same_route same_identifier same_class
routes-Distinct = (refl, (refl, tt))

abbrev packet : Envelope
packet = record {
  type = 1;
  packet_count = 5;
  stream_id = some 8;
  class_id = none;
  timestamp = record { tsi = 0; tsf = 0; integer = 0; fractional = 0 };
  trailer = false;
  nd0 = false;
  spectrum = false;
  tsm = false;
  ack = false;
  cancel = false;
  command = none;
}

abbrev peer : PeerSession
peer = record { peer = 3; generation = 1 }

stays : (run routes (detaches (some 70) ∷ [])).frozen ≡ true
unfolding run Lookup.call detach
stays = refl

lookup_unambiguous_example :
    lookup (run routes (detaches (some 70) ∷ [])) peer packet
    ≡ found_route
        (find_route (wanted_key peer packet) (run routes (detaches (some 70) ∷ [])).routes)
lookup_unambiguous_example =
    lookup_unambiguous routes (detaches (some 70) ∷ []) peer packet routes-Distinct stays

install_routes_atomic_example :
    ((e : Error) × (Routing.install routes (route 9 90 ∷ []) ≡ (routes, err e)))
    ⊎ (((Routing.install routes (route 9 90 ∷ [])).1 ≡ ok tt)
        × ((k : RouteKey)
            → find_route k (Routing.install routes (route 9 90 ∷ [])).0.routes
              ≡ or_else (find_route k routes.routes) (Install.among k (route 9 90 ∷ [])))
        × (Routing.available routes
            ≡ Routing.available (Routing.install routes (route 9 90 ∷ [])).0 + 1)
        × ((Routing.install routes (route 9 90 ∷ [])).0.frozen ≡ true))
install_routes_atomic_example = install_routes_atomic routes (route 9 90 ∷ [])

abbrev silenced : Route
silenced = record (route 7 70) { context = none; receive = some ignore }

silenced_lem : find_route (route_key 7) (detach_all (some 70) routes.routes) ≡ some silenced
unfolding find_route detach_all detach_route same_route same_identifier same_class
silenced_lem = refl
