-- ===== src/Memory/Pool/Fit.antt =====
-- `acquire` takes the best fit among the free blocks.
use vrt_framework.Prelude.{
  ℕ, zero, suc, ◌+◌, ◌-◌, ◌≤◌, ◌≡◌, refl, ap, subst, ◌⊎◌, inl, inr, Bool, true, false, ◌&&◌, ◌||◌,
  not, Option, none, some, List, [], ◌∷◌, arith, ◌==◌, Bool-cases, some-injective, get_elem?,
  get_or,
}
use vrt_framework.Core.Error.{error, capacity_exhausted, ok, err}
use vrt_framework.Memory.Pool.{
  BufferRequest, Block, ExternalPool, power_of_two, block_at, no_block, set_references, suits,
  smaller, select, lease_selected, acquire,
}

-- A block that is free and serves the request.
abbrev pub usable : BufferRequest → Block → Bool
usable r b = b.references == 0 && suits r b

-- Every usable block holds at least `n` bytes.
abbrev pub NoneBelow : BufferRequest → List Block → ℕ → Type 0
NoneBelow r [] n = Unit {0}
NoneBelow r (b ∷ bs) n = ((usable r b ≡ false) ⊎ (n ≤ b.capacity)) × NoneBelow r bs n

abbrev pub NoneUsable : BufferRequest → List Block → Type 0
NoneUsable r [] = Unit {0}
NoneUsable r (b ∷ bs) = (usable r b ≡ false) × NoneUsable r bs

-- What the loop makes of its selection so far.
abbrev Selected : BufferRequest → List Block → ℕ → Option (ℕ × ℕ) → Option (ℕ × ℕ) → Type 0
Selected r bs k old none = (old ≡ none) × NoneUsable r bs
Selected r bs k old (some (i, c)) =
    NoneBelow r bs c
    × ((o : ℕ × ℕ) → (old ≡ some o) → c ≤ o.1)
    × ((old ≡ some (i, c))
        ⊎ ((b : Block) × (k ≤ i)
            × (get_elem? bs (i - k) ≡ some b)
            × (usable r b ≡ true)
            × (b.capacity ≡ c)))

-- A block that is passed over: not usable, or not smaller than the selection.
step-Selected :
    (r : BufferRequest) (b : Block) (bs : List Block) (k : ℕ) (old o : Option (ℕ × ℕ))
    → (usable r b && smaller old b.capacity) ≡ false
    → Selected r bs (k + 1) old o
    → Selected r (b ∷ bs) k old o
step-Selected r b bs k none none h s = (refl, (ground (arith, h), s.1))
step-Selected r b bs k (some (j, c)) none h s = cc (s.0)
step-Selected r b bs k none (some (i, c)) h s =
    let (low, le, o) = s in
    elim o [
      | inl e ↦ cc e
      | inr (x, lt, g, u, q) ↦
          let z : i - k ≡ suc (i - (k + 1)) = omega (arith, lt) in
          ((inl (ground (arith, h)), low), le, inr (x, omega (arith, lt), rw z g, u, q))
    ]
step-Selected r b bs k (some (j, d)) (some (i, c)) h s =
    let (low, le, o) = s in
    let m : c ≤ d = le (j, d) refl in
    let first : (usable r b ≡ false) ⊎ (c ≤ b.capacity) = elim (Bool-cases (usable r b)) [
      | inr n ↦ inl n
      | inl y ↦ inr (ground (arith, h, y, m))
    ] in
    elim o [
      | inl e ↦ ((first, low), le, inl e)
      | inr (x, lt, g, u, q) ↦
          let z : i - k ≡ suc (i - (k + 1)) = omega (arith, lt) in
          ((first, low), le, inr (x, omega (arith, lt), rw z g, u, q))
    ]

-- A block that is taken.
take-Selected :
    (r : BufferRequest) (b : Block) (bs : List Block) (k : ℕ) (old o : Option (ℕ × ℕ))
    → usable r b ≡ true
    → smaller old b.capacity ≡ true
    → Selected r bs (k + 1) (some (k, b.capacity)) o
    → Selected r (b ∷ bs) k old o
take-Selected r b bs k old none u sm s = cc (s.0)
take-Selected r b bs k old (some (i, c)) u sm s =
    let (low, le, o) = s in
    let m : c ≤ b.capacity = le (k, b.capacity) refl in
    let bound : (x : ℕ × ℕ) → old ≡ some x → c ≤ x.1 = λ x e.
      let t : smaller (some x) b.capacity ≡ true = subst (λ y. smaller y b.capacity ≡ true) e sm in
      ground (arith, t, m) in
    elim o [
      | inl e ↦
          let p : (k, b.capacity) ≡ (i, c) = some-injective e in
          let ek : k ≡ i = ap (λ (x : ℕ × ℕ). x.0) p in
          let ec : b.capacity ≡ c = ap (λ (x : ℕ × ℕ). x.1) p in
          let z : i - k ≡ 0 = omega (arith, ek) in
          ((inr m, low), bound, inr (b, omega (arith, ek), rw z refl, u, ec))
      | inr (x, lt, g, u', q) ↦
          let z : i - k ≡ suc (i - (k + 1)) = omega (arith, lt) in
          ((inr m, low), bound, inr (x, omega (arith, lt), rw z g, u', q))
    ]

select-Selected :
    (r : BufferRequest) (bs : List Block) (k : ℕ) (old : Option (ℕ × ℕ))
    → Selected r bs k old (select r bs k old)
unfolding select
select-Selected r [] k none = (refl, tt)
select-Selected r [] k (some (i, c)) =
    (tt, (λ o e. omega (arith, ap (λ (x : ℕ × ℕ). x.1) (some-injective e))), inl refl)
select-Selected r (b ∷ bs) k old = elim (Bool-cases (usable r b && smaller old b.capacity)) [
  | inr n ↦ rw n (step-Selected r b bs k old _ n (select-Selected r bs (k + 1) old))
  | inl t ↦ rw t (
      take-Selected r b bs k old _ (ground (arith, t)) (ground (arith, t))
        (select-Selected r bs (k + 1) (some (k, b.capacity))))
]

get_or-get_elem? :
    (bs : List Block) (i : ℕ) (b : Block) → get_elem? bs i ≡ some b → get_or bs i no_block ≡ b
get_or-get_elem? [] i b h = cc
get_or-get_elem? (x ∷ bs) zero b h = some-injective h
get_or-get_elem? (x ∷ bs) (suc i) b h = get_or-get_elem? bs i b h

-- `acquire` of a well-formed request from a pool that has a state fails exactly if no free block serves
-- it, and then leaves the pool as it is. Otherwise it leases a free block that serves the request, counts one reference to it, and
-- no free block that serves the request is smaller.
pub acquire_best :
    (p : ExternalPool) (r : BufferRequest)
    → (not p.has_state || r.capacity == 0 || not (power_of_two r.alignment)) ≡ false
    → (NoneUsable r p.blocks × (acquire p r ≡ (p, err (error capacity_exhausted))))
      ⊎ ((i : ℕ) × (acquire p r
            ≡ (set_references p i 1, ok (record { attached = true; index = i; used = 0 })))
          × (usable r (block_at p i) ≡ true)
          × NoneBelow r p.blocks (block_at p i).capacity)
unfolding acquire
acquire_best p r good =
    rw good (found (select r p.blocks 0 none) (select-Selected r p.blocks 0 none))
  where
    found :
        (o : Option (ℕ × ℕ))
        → Selected r p.blocks 0 none o
        → (NoneUsable r p.blocks × (lease_selected p o ≡ (p, err (error capacity_exhausted))))
          ⊎ ((i : ℕ) × (lease_selected p o
                ≡ (set_references p i 1, ok (record { attached = true; index = i; used = 0 })))
              × (usable r (block_at p i) ≡ true)
              × NoneBelow r p.blocks (block_at p i).capacity)
    found none s = inl (s.1, refl)
    found (some (i, c)) (low, le, o) = elim o [
      | inl e ↦ cc e
      | inr (b, lt, g, u, q) ↦
          let z : i - 0 ≡ i = omega arith in
          let e : block_at p i ≡ b = get_or-get_elem? p.blocks i b (rw z at g) in
          inr (i, refl, rw e u, rw e (rw q low))
    ]
