-- ===== src/Memory/Pool/Leases.antt =====
-- The reference count of a block is the number of live leases on it.
use vrt_framework.Prelude.{
  ℕ, zero, suc, ◌+◌, ◌≤◌, ◌<◌, ◌≡◌, refl, sym, ap, ◌∙◌, subst, ◌≢◌, inl, inr, true, false, ◌&&◌,
  ◌||◌, not, Option, none, some, List, [], ◌∷◌, arith, ltb, ◌==◌, if◌then◌else◌, ==_refl,
  Bool-cases, some-injective, if-both, u64_max, add64, length, get_elem?, get_or, set,
}
use vrt_framework.Core.Error.{error, invalid_argument, Result, ok, err}
use vrt_framework.Memory.Pool.{
  BufferRequest, Block, ExternalPool, BufferLease, power_of_two, block_at, no_block, set_references,
  acquire, share, reset,
}
use vrt_framework.Memory.Pool.Fit.{usable, acquire_best}

-- A pool with the leases that are out; one that was reset keeps its place, detached.
pub record System : Type 0 where
  pub pool : ExternalPool
  pub leases : List BufferLease

pub data PoolCall : Type 0 where
  acquires : BufferRequest → PoolCall
  shares drops : ℕ → PoolCall

abbrev pub keep_lease : List BufferLease → Result BufferLease → List BufferLease
keep_lease ls (ok l) = l ∷ ls
keep_lease ls (err e) = ls

abbrev pub share_at : System → Option BufferLease → System
share_at s none = s
share_at s (some l) =
    if l.attached
    then record { pool = (share s.pool l).0; leases = (share s.pool l).1 ∷ s.leases }
    else s

abbrev pub drop_at : System → ℕ → Option BufferLease → System
drop_at s k none = s
drop_at s k (some l) = record {
  pool = (reset s.pool l).0;
  leases = set s.leases k (reset s.pool l).1;
}

unfoldable pub call : System → PoolCall → System
call s (acquires r) = record {
  pool = (acquire s.pool r).0;
  leases = keep_lease s.leases (acquire s.pool r).1;
}
call s (shares k) = share_at s (get_elem? s.leases k)
call s (drops k) = drop_at s k (get_elem? s.leases k)

unfoldable pub run : System → List PoolCall → System
unfolding call
run s [] = s
run s (c ∷ cs) = run (call s c) cs

abbrev pub holds : ℕ → BufferLease → ℕ
holds i l = if l.attached && l.index == i then 1 else 0

-- The live leases on block `i`.
abbrev pub lease_count : ℕ → List BufferLease → ℕ
lease_count i [] = 0
lease_count i (l ∷ ls) = holds i l + lease_count i ls

pub record IsCounted (s : System) (i : ℕ) : Type 0 where
  pub counted : (block_at s.pool i).references ≡ lease_count i s.leases

pub count-set :
    (i k : ℕ) (ls : List BufferLease) (l l' : BufferLease)
    → get_elem? ls k ≡ some l
    → lease_count i (set ls k l') + holds i l ≡ lease_count i ls + holds i l'
count-set i k [] l l' h = cc
count-set i zero (x ∷ ls) l l' h = omega (arith, ap (holds i) (some-injective h))
count-set i (suc k) (x ∷ ls) l l' h = omega (arith, count-set i k ls l l' h)

holds-le :
    (i k : ℕ) (ls : List BufferLease) (l : BufferLease)
    → get_elem? ls k ≡ some l
    → holds i l ≤ lease_count i ls
holds-le i k [] l h = cc
holds-le i zero (x ∷ ls) l h = omega (arith, ap (holds i) (some-injective h))
holds-le i (suc k) (x ∷ ls) l h = omega (arith, holds-le i k ls l h)

pub count-le : (i : ℕ) (ls : List BufferLease) → lease_count i ls ≤ length ls
count-le i [] = omega arith
count-le i (l ∷ ls) =
    let b : holds i l ≤ 1 =
      if-both (λ n. n ≤ 1) (l.attached && l.index == i) (omega arith) (omega arith) in
    omega (arith, count-le i ls, b)

pub references-put :
    (p : ExternalPool) (i j n : ℕ)
    → (block_at (set_references p i n) j).references
      ≡ (if i == j && ltb i (length p.blocks) then n else (block_at p j).references)
references-put p i j n = refs p.blocks i j (record (block_at p i) { references = n }) n refl
  where
    refs :
        (bs : List Block) (i j : ℕ) (b : Block) (n : ℕ)
        → b.references ≡ n
        → (get_or (set bs i b) j no_block).references
          ≡ (if i == j && ltb i (length bs) then n else (get_or bs j no_block).references)
    refs [] i j b n e = ground arith
    refs (x ∷ bs) zero zero b n e = ground (arith, e)
    refs (x ∷ bs) zero (suc j) b n e = ground arith
    refs (x ∷ bs) (suc i) zero b n e = ground arith
    refs (x ∷ bs) (suc i) (suc j) b n e = ground (arith, refs bs i j b n e)

in_range : (bs : List Block) (i : ℕ) → get_or bs i no_block ≢ no_block → i < length bs
in_range [] i h = absurd (h refl)
in_range (x ∷ bs) zero h = omega arith
in_range (x ∷ bs) (suc i) h = omega (arith, in_range bs i h)

refused :
    (p : ExternalPool) (r : BufferRequest)
    → (not p.has_state || r.capacity == 0 || not (power_of_two r.alignment)) ≡ true
    → acquire p r ≡ (p, err (error invalid_argument))
unfolding acquire
refused p r bad = rw bad refl

unfit :
    (p : ExternalPool) (r : BufferRequest) {b : Block}
    → usable r b ≡ true
    → b ≡ no_block
    → (not p.has_state || r.capacity == 0 || not (power_of_two r.alignment)) ≡ false
    → ⊥
unfit p r u e good =
    let u' : usable r no_block ≡ true = subst (λ x. usable r x ≡ true) e u in
    let z : r.capacity ≤ 0 = ground (arith, u') in ground (arith, good, z)

gained :
    (j i n refs count : ℕ)
    → j < n
    → refs ≡ count
    → (j ≡ i → refs ≡ 0)
    → (if j == i && ltb j n then 1 else refs) ≡ (if true && j == i then 1 else 0) + count
gained j i n refs count lt e z = ground arith

-- A lease that comes: its block gains a reference.
pub acquired :
    (s : System) (r : BufferRequest) (i : ℕ) → IsCounted s i → IsCounted (call s (acquires r)) i
unfolding call
acquired s r i v =
    elim (Bool-cases (not s.pool.has_state || r.capacity == 0 || not (power_of_two r.alignment))) [
      | inl bad ↦ rw (refused s.pool r bad) v
      | inr good ↦ elim (acquire_best s.pool r good) [
        | inl (_, a) ↦ rw a v
        | inr (j, a, u, _) ↦
            let lt : j < length s.pool.blocks =
              in_range s.pool.blocks j (λ e. unfit s.pool r u e good) in
            let free : (block_at s.pool j).references ≡ 0 = ground (arith, u) in
            let here : j ≡ i → (block_at s.pool i).references ≡ 0 =
              λ e. subst (λ k. (block_at s.pool k).references ≡ 0) e free in
            rw a (record {
              counted =
                  references-put s.pool j i 1
                  ∙ gained j i (length s.pool.blocks) (block_at s.pool i).references
                      (lease_count i s.leases) lt v.counted here;
            })
      ]
    ]

shifted :
    (j i n refs count : ℕ)
    → j < n
    → refs ≡ count
    → count < u64_max
    → (refs' : ℕ) → (j ≡ i → refs' ≡ add64 refs 1)
    → (if j == i && ltb j n then refs' else refs) ≡ (if true && j == i then 1 else 0) + count
shifted j i n refs count lt e b refs' z = ground arith

-- A block on which a lease is out exists, and has a reference.
pub leased-lt :
    (s : System) (k : ℕ) (l : BufferLease)
    → IsCounted s l.index
    → get_elem? s.leases k ≡ some l
    → l.attached ≡ true
    → (l.index < length s.pool.blocks) × (0 < (block_at s.pool l.index).references)
leased-lt s k l v h a =
    let le = holds-le l.index k s.leases l h in
    let one : holds l.index l ≡ 1 = rw (a, ==_refl l.index) refl in
    let pos : 0 < (block_at s.pool l.index).references = omega (arith, le, one, v.counted) in
    (
      in_range s.pool.blocks l.index (λ e. omega (arith, pos, ap (λ (b : Block). b.references) e)),
      pos,
    )

pub share_at-IsCounted :
    (s : System) (k i : ℕ) (o : Option BufferLease)
    → get_elem? s.leases k ≡ o
    → length s.leases < u64_max
    → ((j : ℕ) → IsCounted s j)
    → IsCounted (share_at s o) i
unfolding share
share_at-IsCounted s k i none h b v = v i
share_at-IsCounted s k i (some l) h b v = elim (Bool-cases l.attached) [
  | inr off ↦ simp off (v i)
  | inl on ↦
      let (lt, pos) = leased-lt s k l (v l.index) h on in
      let n = add64 (block_at s.pool l.index).references 1 in
      let own : holds i l ≡ (if true && l.index == i then 1 else 0) =
        ap (λ a. if a && l.index == i then 1 else 0) on in
      let c : IsCounted (record { pool = set_references s.pool l.index n; leases = l ∷ s.leases })
          i =
        record {
          counted =
              references-put s.pool l.index i n
              ∙ shifted l.index i (length s.pool.blocks) (block_at s.pool i).references
                  (lease_count i s.leases) lt (v i).counted (omega (arith, count-le i s.leases)) n
                  (λ e. ap (λ q. add64 (block_at s.pool q).references 1) e)
              ∙ ap (λ m. m + lease_count i s.leases) (sym own);
        } in
      subst
        (λ a.
          IsCounted
            (if a
              then record { pool = set_references s.pool l.index n; leases = l ∷ s.leases }
              else s)
            i)
        (sym on) c
]
