-- ===== src/Stream/Routing/Lookup.antt =====
-- What a lookup finds after any history of calls of the route registry.
use vrt_framework.Prelude.{
  ℕ, ◌≡◌, refl, ap, ◌∙◌, subst, true, false, Option, none, some, List, [], ◌∷◌, arith, if-both,
}
use vrt_framework.Core.Error.{Result, ok, err, >>=-eq-ok, ok-injective}
use vrt_framework.Codec.Envelope.{Envelope}
use vrt_framework.Stream.Routing.{
  RouteKey, Route, Routes, RouteRegistry, PeerSession, routed, add_route, add, add_all, install,
  replace_routes, detach_route, detach_all, detach, freeze, lookup_loop, found_route, lookup,
  wanted_key,
}
use vrt_framework.Stream.Routing.Table.{
  Distinct, find_route, routed-same, insert-Distinct, add_route-ok,
}

add_all-Distinct :
    (batch : List Route) (rs : Routes) {rs' : Routes}
    → add_all batch rs ≡ ok rs'
    → Distinct rs
    → Distinct rs'
unfolding add_all
add_all-Distinct [] rs h d = subst Distinct (ok-injective h) d
add_all-Distinct (route ∷ batch) rs h d =
    let (x, a, h') = >>=-eq-ok (add_route route rs) _ h in
    let (_, new, ins) = add_route-ok route rs a in
    add_all-Distinct batch x h' (insert-Distinct route rs new ins d)

routed-detach :
    (context : Option ℕ) (k : RouteKey) (rs : Routes)
    → routed k (detach_all context rs) ≡ routed k rs
unfolding routed detach_all
routed-detach context k [] = refl
routed-detach context k (none ∷ rs) = routed-detach context k rs
routed-detach context k (some r ∷ rs) = ground (arith, routed-detach context k rs)

key-detach : (context : Option ℕ) (r : Route) → (detach_route context r).key ≡ r.key
unfolding detach_route
key-detach context r = ground arith

detach-Distinct :
    (context : Option ℕ) (rs : Routes) → Distinct rs → Distinct (detach_all context rs)
unfolding detach_all
detach-Distinct context [] d = tt
detach-Distinct context (none ∷ rs) d = detach-Distinct context rs d
detach-Distinct context (some r ∷ rs) d = (
  routed-detach context (detach_route context r).key rs
      ∙ ap (λ k. routed k rs) (key-detach context r)
      ∙ d.0,
  detach-Distinct context rs d.1,
)

-- A call of a method that can change the registry.
pub data RoutingCall : Type 0 where
  adds : Route → RoutingCall
  installs : List Route → RoutingCall
  detaches : Option ℕ → RoutingCall
  freezes : RoutingCall

unfoldable pub call : RouteRegistry → RoutingCall → RouteRegistry
call r (adds route) = (add r route).0
call r (installs batch) = (install r batch).0
call r (detaches context) = detach r context
call r freezes = freeze r

unfoldable pub run : RouteRegistry → List RoutingCall → RouteRegistry
run r [] = r
run r (c ∷ cs) = run (call r c) cs

replace-Distinct :
    (r : RouteRegistry) (x : Result Routes)
    → Distinct r.routes
    → ((rs : Routes) → x ≡ ok rs → Distinct rs)
    → Distinct (replace_routes r x).0.routes
unfolding replace_routes
replace-Distinct r (ok rs) d f = f rs refl
replace-Distinct r (err e) d f = d

call-Distinct :
    (r : RouteRegistry) (c : RoutingCall) → Distinct r.routes → Distinct (call r c).routes
unfolding call add install detach freeze
call-Distinct r (adds route) d =
    if-both {A = RouteRegistry × Result (Unit {0})} (λ p. Distinct p.0.routes) r.frozen d
      (replace-Distinct r (add_route route r.routes) d λ rs h.
        let (_, new, ins) = add_route-ok route r.routes h in
        insert-Distinct route r.routes new ins d)
call-Distinct r (installs batch) d =
    replace-Distinct r (add_all batch r.routes) d λ rs h. add_all-Distinct batch r.routes h d
call-Distinct r (detaches context) d = detach-Distinct context r.routes d
call-Distinct r freezes d = d

pub run-Distinct :
    (r : RouteRegistry) (cs : List RoutingCall) → Distinct r.routes → Distinct (run r cs).routes
unfolding run
run-Distinct r [] d = d
run-Distinct r (c ∷ cs) d = run-Distinct (call r c) cs (call-Distinct r c d)

lookup_loop-after :
    (wanted : RouteKey) (f : Route) (rs : Routes)
    → routed wanted rs ≡ false
    → lookup_loop wanted (some f) rs ≡ ok (some f)
unfolding lookup_loop routed
lookup_loop-after wanted f [] h = refl
lookup_loop-after wanted f (none ∷ rs) h = lookup_loop-after wanted f rs h
lookup_loop-after wanted f (some r ∷ rs) h = ground (arith, lookup_loop-after wanted f rs)

lookup_loop-find_route :
    (wanted : RouteKey) (rs : Routes)
    → Distinct rs
    → lookup_loop wanted none rs ≡ ok (find_route wanted rs)
unfolding lookup_loop find_route
lookup_loop-find_route wanted [] d = refl
lookup_loop-find_route wanted (none ∷ rs) d = lookup_loop-find_route wanted rs d
lookup_loop-find_route wanted (some r ∷ rs) d = ground (
  arith,
  lookup_loop-find_route wanted rs d.1,
  lookup_loop-after wanted r rs,
  routed-same r.key wanted rs,
)

-- After any history of calls that starts from a table of distinct routes, a frozen registry never
-- reports an ambiguous match: it returns the one route of the envelope's key, or that there is none.
pub lookup_unambiguous :
    (r : RouteRegistry) (cs : List RoutingCall) (peer : PeerSession) (e : Envelope)
    → Distinct r.routes
    → (run r cs).frozen ≡ true
    → lookup (run r cs) peer e ≡ found_route (find_route (wanted_key peer e) (run r cs).routes)
unfolding lookup
lookup_unambiguous r cs peer e d f =
    rw (f, lookup_loop-find_route (wanted_key peer e) (run r cs).routes (run-Distinct r cs d))
