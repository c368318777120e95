-- ===== src/Stream/Routing/Install.antt =====
-- The installation of a batch of routes, and the routes that `detach` leaves.
use vrt_framework.Prelude.{
  ℕ, ◌+◌, ◌≡◌, refl, sym, ap, ◌∙◌, ◌≢◌, ◌⊎◌, inl, inr, false, Option, none, some, List, [], ◌∷◌,
  arith, if◌then◌else◌, Option-cases, eq_option, length,
}
use vrt_framework.Core.Error.{Error, ok, err, >>=-eq-ok, Result-cases, ok-injective}
use vrt_framework.Stream.Routing.{
  RouteKey, Route, ignore, Routes, RouteRegistry, same_route, routed, insert_route, add_route,
  add_all, install, replace_routes, free_routes, available, detach_route, detach_all,
}
use vrt_framework.Stream.Routing.Table.{
  find_route, routed-find_route, routed-same, find_route-insert, free_routes-insert, add_route-ok,
}

-- The first route of a batch with a key.
abbrev pub among : RouteKey → List Route → Option Route
among k [] = none
among k (route ∷ batch) = if same_route route.key k then some route else among k batch

abbrev pub or_else : Option Route → Option Route → Option Route
or_else none o = o
or_else (some r) o = some r

or_else-step :
    (route : Route) (k : RouteKey) (rs x : Routes) (o : Option Route)
    → routed route.key rs ≡ false
    → insert_route route rs ≡ some x
    → or_else (find_route k x) o
      ≡ or_else (find_route k rs) (if same_route route.key k then some route else o)
or_else-step route k rs x o new ins = elim (Option-cases (find_route k rs)) [
  | inl n ↦ ground (arith, n, find_route-insert route k rs {rs' = x} new ins)
  | inr (r, s) ↦ ground (
    arith,
    s,
    find_route-insert route k rs {rs' = x} new ins,
    routed-find_route k rs,
    routed-same route.key k rs,
  )
]

or_else-none : (o : Option Route) → or_else o none ≡ o
or_else-none none = refl
or_else-none (some r) = refl

find_route-add_all :
    (batch : List Route) (k : RouteKey) (rs : Routes) {rs' : Routes}
    → add_all batch rs ≡ ok rs'
    → find_route k rs' ≡ or_else (find_route k rs) (among k batch)
unfolding add_all
find_route-add_all [] k rs h =
    ap (find_route k) (sym (ok-injective h)) ∙ sym (or_else-none (find_route k rs))
find_route-add_all (route ∷ batch) k rs h =
    let (x, a, h') = >>=-eq-ok (add_route route rs) _ h in
    let (_, new, ins) = add_route-ok route rs a in
    find_route-add_all batch k x h' ∙ or_else-step route k rs x (among k batch) new ins

add_all-free :
    (batch : List Route) (rs : Routes) {rs' : Routes}
    → add_all batch rs ≡ ok rs'
    → free_routes rs ≡ free_routes rs' + length batch
unfolding add_all
add_all-free [] rs h = omega (arith, ap free_routes (ok-injective h))
add_all-free (route ∷ batch) rs h =
    let (x, a, h') = >>=-eq-ok (add_route route rs) _ h in
    let (_, new, ins) = add_route-ok route rs a in
    omega (arith, add_all-free batch x h', free_routes-insert route rs ins)

-- `install` takes the whole batch or nothing: it fails and the registry is unchanged, or it succeeds,
-- and then a key finds the route that it had, or else the batch's route of the key, as many places
-- are used up as the batch has routes, and the registry is frozen exactly if it was.
pub install_routes_atomic :
    (r : RouteRegistry) (batch : List Route)
    → ((e : Error) × (install r batch ≡ (r, err e)))
      ⊎ (((install r batch).1 ≡ ok tt)
          × ((k : RouteKey)
              → find_route k (install r batch).0.routes
                ≡ or_else (find_route k r.routes) (among k batch))
          × (available r ≡ available (install r batch).0 + length batch)
          × ((install r batch).0.frozen ≡ r.frozen))
unfolding install available replace_routes
install_routes_atomic r batch = elim (Result-cases (add_all batch r.routes)) [
  | inl (rs, h) ↦
      inr (
        rw h
          (refl, λ k. find_route-add_all batch k r.routes h, add_all-free batch r.routes h, refl))
  | inr (e, h) ↦ inl (e, rw h refl)
]

-- A detached context is never called again: a route that is found under a key after `detach` either
-- belongs to another context, or has lost its context and its callbacks and ignores what it receives.
pub detach_silences :
    (context : Option ℕ) (k : RouteKey) (rs : Routes) {r : Route}
    → find_route k (detach_all context rs) ≡ some r
    → ((eq_option r.context context ≡ false)
        ⊎ ((r.context ≡ none)
            × (r.receive ≡ some ignore)
            × (r.before_decode ≡ none)
            × (r.request_context ≡ none)))
      × (find_route k rs ≢ none)
unfolding find_route detach_all detach_route
detach_silences context k [] h = cc
detach_silences context k (none ∷ rs) h = detach_silences context k rs h
detach_silences context k (some x ∷ rs) {r} h = ground (arith, detach_silences context k rs {r = r})
