-- ===== src/Transaction/Retention/Layout.antt =====
-- The extents of the records: in the order of `occupied` they follow each other without an overlap,
-- and a removal or an insertion at the first gap that fits keeps them so.
use vrt_framework.Prelude.{
  ℕ, zero, suc, ◌+◌, ◌-◌, ◌^◌, ◌≤◌, ◌<◌, ◌≡◌, refl, sym, subst, ◌≢◌, ◌⊎◌, inl, inr, Bool, true,
  false, ◌||◌, List, [], ◌∷◌, ◌++◌, arith, leb, ◌==◌, if◌then◌else◌, leb→le, ==_iff, ==_refl,
  Bool-cases, if-both, if-split, add64, sub64, take, drop,
}
use vrt_framework.Transaction.Retention.{Record, Entry, indexed_record, without}
use vrt_framework.Transaction.Retention.Reserve.{Placement, place}

abbrev pub end_of : Record → ℕ
end_of r = r.offset + r.bytes

-- From `base` on, each record of the list is at or after the end of the one before.
abbrev pub Laid : (ℕ → Record) → ℕ → ℕ → List ℕ → Type 0
Laid f capacity base [] = base ≤ capacity
Laid f capacity base (id ∷ ids) =
    (base ≤ (f id).offset) × (0 < (f id).bytes) × Laid f capacity ((f id).offset + (f id).bytes) ids

abbrev pub has : ℕ → List ℕ → Bool
has id [] = false
has id (i ∷ is) = i == id || has id is

abbrev pub SameExtent : Record → Record → Type 0
SameExtent r t = (r.offset ≡ t.offset) × (r.bytes ≡ t.bytes)

pub Laid-base :
    (f : ℕ → Record) (capacity base : ℕ) (ids : List ℕ) → Laid f capacity base ids → base ≤ capacity
Laid-base f capacity base [] h = h
Laid-base f capacity base (id ∷ ids) (low, pos, rest) =
    omega (arith, Laid-base f capacity (end_of (f id)) ids rest, low)

pub Laid-has :
    (f : ℕ → Record) (capacity base : ℕ) (ids : List ℕ) (id : ℕ)
    → Laid f capacity base ids
    → has id ids ≡ true
    → (base ≤ (f id).offset) × (0 < (f id).bytes) × ((f id).offset + (f id).bytes ≤ capacity)
Laid-has f capacity base [] id h found = absurd (ground (arith, found))
Laid-has f capacity base (i ∷ is) id (low, pos, rest) found = elim (Bool-cases (i == id)) [
  | inl e ↦
      let q : i ≡ id = (==_iff i id).0 e in
      subst
        (λ k. (base ≤ (f k).offset) × (0 < (f k).bytes) × ((f k).offset + (f k).bytes ≤ capacity)) q
        (low, pos, Laid-base f capacity (end_of (f i)) is rest)
  | inr ne ↦
      let (a, b, c) = Laid-has f capacity (end_of (f i)) is id rest (ground (arith, found, ne)) in
      (omega (arith, a, low), b, c)
]

pub Laid-disjoint :
    (f : ℕ → Record) (capacity base : ℕ) (ids : List ℕ) (a b : ℕ)
    → Laid f capacity base ids
    → has a ids ≡ true
    → has b ids ≡ true
    → a ≢ b
    → ((f a).offset + (f a).bytes ≤ (f b).offset) ⊎ ((f b).offset + (f b).bytes ≤ (f a).offset)
Laid-disjoint f capacity base [] a b h ha hb ne = absurd (ground (arith, ha))
Laid-disjoint f capacity base (i ∷ is) a b (low, pos, rest) ha hb ne = elim (Bool-cases (i == a)) [
  | inl e ↦
      let q : i ≡ a = (==_iff i a).0 e in
      let r : has b is ≡ true = ground (arith, hb, q, ne) in
      inl (
        subst (λ k. (f k).offset + (f k).bytes ≤ (f b).offset) q
          (Laid-has f capacity (end_of (f i)) is b rest r).0)
  | inr na ↦ elim (Bool-cases (i == b)) [
    | inl e ↦
        let q : i ≡ b = (==_iff i b).0 e in
        let r : has a is ≡ true = ground (arith, ha, na) in
        inr (
          subst (λ k. (f k).offset + (f k).bytes ≤ (f a).offset) q
            (Laid-has f capacity (end_of (f i)) is a rest r).0)
    | inr nb ↦
        Laid-disjoint f capacity (end_of (f i)) is a b rest (ground (arith, ha, na))
          (ground (arith, hb, nb)) ne
  ]
]

pub Laid-below :
    (f : ℕ → Record) (capacity base low : ℕ) (ids : List ℕ)
    → low ≤ base
    → Laid f capacity base ids
    → Laid f capacity low ids
Laid-below f capacity base low [] le h = omega (arith, le, h)
Laid-below f capacity base low (id ∷ ids) le (a, b, rest) = (omega (arith, le, a), b, rest)

pub Laid-same :
    (f g : ℕ → Record) (capacity base : ℕ) (ids : List ℕ)
    → ((id : ℕ) → has id ids ≡ true → SameExtent (f id) (g id))
    → Laid f capacity base ids
    → Laid g capacity base ids
Laid-same f g capacity base [] same h = h
Laid-same f g capacity base (i ∷ is) same (low, pos, rest) =
    let (o, b) = same i (ground (arith, ==_refl i)) in
    let later : (id : ℕ) → has id is ≡ true → SameExtent (f id) (g id) =
      λ id found. same id (ground (arith, found)) in
    (
      omega (arith, low, o),
      omega (arith, pos, b),
      Laid-below g capacity _ _ is (omega (arith, o, b))
          (Laid-same f g capacity (end_of (f i)) is later rest),
    )

pub Laid-without :
    (f : ℕ → Record) (capacity base id : ℕ) (ids : List ℕ)
    → Laid f capacity base ids
    → Laid f capacity base (without id ids)
Laid-without f capacity base id [] h = h
Laid-without f capacity base id (i ∷ is) (low, pos, rest) =
    if-both (Laid f capacity base) (i == id)
      (Laid-below f capacity _ base is (omega (arith, low)) rest)
      (low, pos, Laid-without f capacity (end_of (f i)) id is rest)

pub has-without :
    (f : ℕ → Record) (capacity base id x : ℕ) (ids : List ℕ)
    → Laid f capacity base ids
    → has x (without id ids) ≡ (if x == id then false else has x ids)
has-without f capacity base id x [] h = ground arith
has-without f capacity base id x (i ∷ is) (low, pos, rest) = elim (Bool-cases (i == id)) [
  | inl e ↦ elim (Bool-cases (has id is)) [
    | inl again ↦
        let q : i ≡ id = (==_iff i id).0 e in
        let (after, _, _) =
          Laid-has f capacity (end_of (f i)) is i rest
            (subst (λ k. has k is ≡ true) (sym q) again) in
        absurd (omega (arith, after, pos))
    | inr gone ↦ elim (Bool-cases (x == id)) [
      | inl m ↦ let p : x ≡ id = (==_iff x id).0 m in rw (e, m, p) gone
      | inr n ↦ ground (arith, e, n)
    ]
  ]
  | inr ne ↦
      let step = has-without f capacity (end_of (f i)) id x is rest in ground (arith, step, ne)
]

pub has-insert :
    (k new x : ℕ) (ids : List ℕ)
    → has x (take k ids ++ (new ∷ drop k ids)) ≡ (new == x || has x ids)
has-insert zero new x ids = refl
has-insert (suc k) new x [] = refl
has-insert (suc k) new x (i ∷ is) = rw (has-insert k new x is) (ground arith)

-- What the place is for: a record of the wanted size there leaves the extents in order and apart.
abbrev pub Fits : (ℕ → Record) → ℕ → ℕ → ℕ → ℕ → List ℕ → Placement → Type 0
Fits g capacity required base new ids p =
    p.offset ≤ capacity - required
    → (g new).offset ≡ p.offset
    → (g new).bytes ≡ required
    → Laid g capacity base (take p.insertion ids ++ (new ∷ drop p.insertion ids))

pub Laid-place :
    (entries : List Entry) (g : ℕ → Record) (capacity required base new : ℕ) (ids : List ℕ)
    → capacity < 2 ^ 64
    → 0 < required
    → required ≤ capacity
    → Laid (indexed_record entries) capacity base ids
    → ((id : ℕ) → has id ids ≡ true → SameExtent (indexed_record entries id) (g id))
    → Fits g capacity required base new ids (place entries required base ids)
Laid-place entries g capacity required base new [] small pos room h same =
    λ within o n. (omega (arith, o), omega (arith, n, pos), omega (arith, o, n, within, room))
Laid-place entries g capacity required base new (i ∷ is) small pos room (low, more, rest) same =
    let f = indexed_record entries in
    let end : end_of (f i) ≤ capacity = Laid-base f capacity (end_of (f i)) is rest in
    let wraps : add64 (f i).offset (f i).bytes ≡ end_of (f i) = omega (arith, end, small) in
    let later : (id : ℕ) → has id is ≡ true → SameExtent (f id) (g id) =
      λ id found. same id (ground (arith, found)) in
    let (so, sb) = same i (ground (arith, ==_refl i)) in
    let step : Fits g capacity required (end_of (f i)) new is
        (place entries required (add64 (f i).offset (f i).bytes) is) =
      subst (λ e. Fits g capacity required (end_of (f i)) new is (place entries required e is))
        (sym wraps)
        (Laid-place entries g capacity required (end_of (f i)) new is small pos room rest later) in
    if-split (Fits g capacity required base new (i ∷ is)) (leb required (sub64 (f i).offset base))
      (λ fits within o n. (
        omega (arith, o),
        omega (arith, n, pos),
        (
          omega (arith, o, n, so, low, end, small, leb→le _ _ fits),
          omega (arith, more, sb),
          Laid-below g capacity _ _ is (omega (arith, so, sb))
              (Laid-same f g capacity (end_of (f i)) is later rest),
        ),
      ))
      (λ tight within o n. (
        omega (arith, low, so),
        omega (arith, more, sb),
        Laid-below g capacity _ _ _ (omega (arith, so, sb)) (step within o n),
      ))
