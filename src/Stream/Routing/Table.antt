-- ===== src/Stream/Routing/Table.antt =====
-- The table of routes: no two routes of the same key, so that a lookup is never ambiguous.
use vrt_framework.Prelude.{
  suc, ◌≡◌, refl, ap, ◌∙◌, subst, inl, inr, true, false, ◌||◌, not, Option, none, some, [], ◌∷◌,
  arith, if◌then◌else◌, Option-cases, has_value,
}
use vrt_framework.Core.Error.{error, invalid_argument, ok, guard, >>=-eq-ok, ok-injective}
use vrt_framework.Stream.Routing.{
  RouteKey, Route, Routes, same_route, check_route, routed, insert_route, inserted, add_route,
  free_routes,
}
use vrt_framework.Stream.Routing.Keys.{same_route_trans, same_route_sym}

abbrev pub Distinct : Routes → Type 0
Distinct [] = Unit {0}
Distinct (none ∷ rs) = Distinct rs
Distinct (some r ∷ rs) = (routed r.key rs ≡ false) × Distinct rs

-- The first route of a key.
unfoldable pub find_route : RouteKey → Routes → Option Route
find_route key [] = none
find_route key (none ∷ rs) = find_route key rs
find_route key (some r ∷ rs) = if same_route r.key key then some r else find_route key rs

pub routed-find_route :
    (key : RouteKey) (rs : Routes) → routed key rs ≡ has_value (find_route key rs)
unfolding routed find_route
routed-find_route key [] = refl
routed-find_route key (none ∷ rs) = routed-find_route key rs
routed-find_route key (some r ∷ rs) = ground (arith, routed-find_route key rs)

-- Keys of the same route are routed alike.
pub routed-same : (a b : RouteKey) (rs : Routes) → same_route a b ≡ true → routed a rs ≡ routed b rs
unfolding routed
routed-same a b [] h = refl
routed-same a b (none ∷ rs) h = routed-same a b rs h
routed-same a b (some r ∷ rs) h = ground (
  arith,
  routed-same a b rs h,
  same_route_trans a b r.key h,
  same_route_sym a r.key,
  same_route_sym r.key a,
  same_route_sym b r.key,
  same_route_sym r.key b,
)

routed-insert :
    (route : Route) (k : RouteKey) (rs : Routes) {rs' : Routes}
    → insert_route route rs ≡ some rs'
    → routed k rs' ≡ (same_route route.key k || routed k rs)
unfolding insert_route routed
routed-insert route k [] h = cc
routed-insert route k (none ∷ rs) h = ground arith
routed-insert route k (some r ∷ rs) h = elim (Option-cases (insert_route route rs)) [
  | inl z ↦ ground (arith, z)
  | inr (x, s) ↦ ground (arith, s, routed-insert route k rs {rs' = x} s)
]

pub insert-Distinct :
    (route : Route) (rs : Routes) {rs' : Routes}
    → routed route.key rs ≡ false
    → insert_route route rs ≡ some rs'
    → Distinct rs
    → Distinct rs'
unfolding insert_route routed
insert-Distinct route [] n h d = cc
insert-Distinct route (none ∷ rs) n h d = ground arith
insert-Distinct route (some r ∷ rs) {rs'} n h d = elim (Option-cases (insert_route route rs)) [
  | inl z ↦ ground (arith, z)
  | inr (x, s) ↦
      let fresh : routed r.key x ≡ false =
        ground (arith, routed-insert route r.key rs {rs' = x} s, same_route_sym route.key r.key) in
      let same : some r ∷ x ≡ rs' = ground (arith, s) in
      subst Distinct same (fresh, insert-Distinct route rs {rs' = x} (ground arith) s d.1)
]

-- A route that was new is found under its key after its insertion, and nothing else changes.
pub find_route-insert :
    (route : Route) (k : RouteKey) (rs : Routes) {rs' : Routes}
    → routed route.key rs ≡ false
    → insert_route route rs ≡ some rs'
    → find_route k rs' ≡ (if same_route route.key k then some route else find_route k rs)
unfolding insert_route routed find_route
find_route-insert route k [] n h = cc
find_route-insert route k (none ∷ rs) n h = ground arith
find_route-insert route k (some r ∷ rs) n h = elim (Option-cases (insert_route route rs)) [
  | inl z ↦ ground (arith, z)
  | inr (x, s) ↦ ground (
    arith,
    s,
    find_route-insert route k rs {rs' = x},
    same_route_trans route.key k r.key,
    same_route_sym r.key k,
    same_route_sym route.key r.key,
    same_route_sym r.key route.key,
  )
]

pub free_routes-insert :
    (route : Route) (rs : Routes) {rs' : Routes}
    → insert_route route rs ≡ some rs'
    → free_routes rs ≡ suc (free_routes rs')
unfolding insert_route free_routes
free_routes-insert route [] h = cc
free_routes-insert route (none ∷ rs) h = ground arith
free_routes-insert route (some r ∷ rs) h = elim (Option-cases (insert_route route rs)) [
  | inl z ↦ ground (arith, z)
  | inr (x, s) ↦ ground (arith, s, free_routes-insert route rs s)
]

inserted-ok :
    (route : Route) (rs : Routes) {rs' : Routes}
    → inserted (insert_route route rs) ≡ ok rs'
    → insert_route route rs ≡ some rs'
unfolding inserted
inserted-ok route rs h = elim (Option-cases (insert_route route rs)) [
  | inl z ↦ cc (rw z at h)
  | inr (x, s) ↦ s ∙ ap some (ok-injective (rw s at h))
]

pub add_route-ok :
    (route : Route) (rs : Routes) {rs' : Routes}
    → add_route route rs ≡ ok rs'
    → (check_route route ≡ ok tt)
      × (routed route.key rs ≡ false)
      × (insert_route route rs ≡ some rs')
unfolding add_route
add_route-ok route rs h =
    let (_, c, h1) = >>=-eq-ok (check_route route) _ h in
    let (_, g, h2) = >>=-eq-ok (guard (not (routed route.key rs)) (error invalid_argument)) _ h1 in
    (c, ground arith, inserted-ok route rs h2)
