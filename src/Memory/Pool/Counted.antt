-- ===== src/Memory/Pool/Counted.antt =====
-- The reference count of a block is the number of live leases on it: a lease that goes, and histories.
use vrt_framework.Prelude.{
  ℕ, ◌+◌, ◌-◌, ◌^◌, ◌≤◌, ◌<◌, ◌≡◌, refl, sym, ap, ◌∙◌, inl, inr, true, false, ◌&&◌, Option, none,
  some, List, [], ◌∷◌, arith, ltb, ◌==◌, if◌then◌else◌, Bool-cases, if-both, u64_max, sub64, length,
  get_elem?, set, length-set,
}
use vrt_framework.Core.Error.{Result, ok, err}
use vrt_framework.Memory.Pool.{
  ExternalPool, BufferLease, block_at, set_references, acquire, release, return_block, reset,
}
use vrt_framework.Memory.Pool.Leases.{
  System, PoolCall, acquires, shares, drops, share_at, drop_at, keep_lease, call, run, holds,
  lease_count, IsCounted, count-set, count-le, references-put, acquired, leased-lt,
  share_at-IsCounted,
}

-- The references after a reset, whether or not the lease was the last one.
reset-references :
    (p : ExternalPool) (l : BufferLease) (i : ℕ)
    → l.attached ≡ true
    → l.index < length p.blocks
    → 0 < (block_at p l.index).references
    → (block_at p l.index).references < 2 ^ 64
    → (block_at (reset p l).0 i).references
      ≡ (if l.index == i then (block_at p l.index).references - 1 else (block_at p i).references)
unfolding reset release return_block
reset-references p l i on lt pos fit =
    let k = (block_at p l.index).references in
    let n = sub64 k 1 in
    elim (Bool-cases (n == 0)) [
      | inl last ↦
          let p' : ExternalPool = set_references p l.index u64_max in
          let e1 = references-put p l.index i u64_max in
          let e2 = references-put p' l.index i 0 in
          let len =
            length-set p.blocks l.index (record (block_at p l.index) { references = u64_max }) in
          let z : k - 1 ≡ 0 = ground (arith, last, pos, fit) in
          simp (on, last)
            (e2
              ∙ twice l.index i (length p.blocks) (length p'.blocks) k (block_at p i).references _
                  lt len z e1)
      | inr more ↦
          let z : n ≡ k - 1 = omega (arith, pos, fit) in
          simp (on, more)
            (references-put p l.index i n
              ∙ once l.index i (length p.blocks) (block_at p i).references n (k - 1) lt z)
    ]
  where
    once :
        (j i m r n k : ℕ)
        → j < m
        → n ≡ k
        → (if j == i && ltb j m then n else r) ≡ (if j == i then k else r)
    once j i m r n k lt z = ground arith

    twice :
        (j i m m' k r r' : ℕ)
        → j < m
        → m' ≡ m
        → k - 1 ≡ 0
        → r' ≡ (if j == i && ltb j m then u64_max else r)
        → (if j == i && ltb j m' then 0 else r') ≡ (if j == i then k - 1 else r)
    twice j i m m' k r r' lt e z q = ground arith

detached : (p : ExternalPool) (l : BufferLease) → l.attached ≡ false → reset p l ≡ (p, l)
unfolding reset
detached p l h =
    ap
      (λ a.
        if a
        then (return_block l (release p l), record l { attached = false; used = 0 })
        else (p, l))
      h

released :
    (p : ExternalPool) (l : BufferLease) (i : ℕ) → l.attached ≡ true → holds i (reset p l).1 ≡ 0
unfolding reset
released p l i h =
    let gone : BufferLease = record l { attached = false; used = 0 } in
    ap
      (λ a.
        holds i
          (if◌then◌else◌ {A = ExternalPool × BufferLease} a (return_block l (release p l), gone)
            (p, l)).1)
      h

lost :
    (j i refs refs' count count' : ℕ)
    → refs ≡ count
    → count' + (if true && j == i then 1 else 0) ≡ count + 0
    → (j ≡ i → refs' ≡ refs)
    → (if j == i then refs' - 1 else refs) ≡ count'
lost j i refs refs' count count' e c z = ground arith

drop_at-IsCounted :
    (s : System) (k i : ℕ) (o : Option BufferLease)
    → get_elem? s.leases k ≡ o
    → length s.leases < u64_max
    → ((j : ℕ) → IsCounted s j)
    → IsCounted (drop_at s k o) i
drop_at-IsCounted s k i none h b v = v i
drop_at-IsCounted s k i (some l) h b v = elim (Bool-cases l.attached) [
  | inr off ↦ record {
    counted =
        ap (λ p. (block_at p.0 i).references) (detached s.pool l off)
        ∙ (v i).counted
        ∙ sym (
            ap (λ p. lease_count i (set s.leases k p.1)) (detached s.pool l off)
            ∙ omega (arith, count-set i k s.leases l l h));
  }
  | inl on ↦
      let (lt, pos) = leased-lt s k l (v l.index) h on in
      let fit : (block_at s.pool l.index).references < 2 ^ 64 =
        omega (arith, (v l.index).counted, count-le l.index s.leases) in
      let own : holds i l ≡ (if true && l.index == i then 1 else 0) =
        ap (λ a. if a && l.index == i then 1 else 0) on in
      let c = count-set i k s.leases l (reset s.pool l).1 h in
      let gone : holds i (reset s.pool l).1 ≡ 0 = released s.pool l i on in
      record {
        counted =
            reset-references s.pool l i on lt pos fit
            ∙ lost l.index i (block_at s.pool i).references (block_at s.pool l.index).references
                (lease_count i s.leases) (lease_count i (set s.leases k (reset s.pool l).1))
                (v i).counted (omega (arith, c, gone, own))
                (λ e. ap (λ q. (block_at s.pool q).references) e);
      }
]

-- The leases that a history can make are fewer than a counter holds.
abbrev pub Few : System → List PoolCall → Type 0
Few s cs = length s.leases + length cs < u64_max

call-IsCounted :
    (s : System) (c : PoolCall) (i : ℕ)
    → length s.leases < u64_max
    → ((j : ℕ) → IsCounted s j)
    → IsCounted (call s c) i
unfolding call
call-IsCounted s (acquires r) i b v = acquired s r i (v i)
call-IsCounted s (shares k) i b v = share_at-IsCounted s k i (get_elem? s.leases k) refl b v
call-IsCounted s (drops k) i b v = drop_at-IsCounted s k i (get_elem? s.leases k) refl b v

keep-length :
    (ls : List BufferLease) (r : Result BufferLease) → length (keep_lease ls r) ≤ length ls + 1
keep-length ls (ok l) = omega arith
keep-length ls (err e) = omega arith

share-length :
    (s : System) (o : Option BufferLease) → length (share_at s o).leases ≤ length s.leases + 1
share-length s none = omega arith
share-length s (some l) =
    if-both (λ (t : System). length t.leases ≤ length s.leases + 1) l.attached (omega arith)
      (omega arith)

drop-length :
    (s : System) (k : ℕ) (o : Option BufferLease)
    → length (drop_at s k o).leases ≤ length s.leases + 1
drop-length s k none = omega arith
drop-length s k (some l) = omega (arith, length-set s.leases k (reset s.pool l).1)

call-length : (s : System) (c : PoolCall) → length (call s c).leases ≤ length s.leases + 1
unfolding call
call-length s (acquires r) = keep-length s.leases (acquire s.pool r).1
call-length s (shares k) = share-length s (get_elem? s.leases k)
call-length s (drops k) = drop-length s k (get_elem? s.leases k)

-- After any history of acquiring, sharing and dropping leases, with fewer than 2^64 - 1 of them, every
-- block's reference count is the number of its live leases.
pub run-IsCounted :
    (s : System) (cs : List PoolCall) (i : ℕ)
    → Few s cs
    → ((j : ℕ) → IsCounted s j)
    → IsCounted (run s cs) i
unfolding run
run-IsCounted s [] i b v = v i
run-IsCounted s (c ∷ cs) i b v =
    run-IsCounted (call s c) cs i (omega (arith, call-length s c))
      (λ j. call-IsCounted s c j (omega arith) v)
