-- ===== src/Memory/Envelope/Retain.antt =====
-- A retained packet shows the bytes of the packet that was received.
use vrt_framework.Prelude.{
  ℕ, zero, suc, ◌<◌, ◌≡◌, refl, ap, ◌∙◌, subst, ◌⊎◌, inl, inr, Bool, Option, true, false, ◌&&◌,
  List, [], ◌∷◌, ◌++◌, arith, ltb, ◌==◌, if◌then◌else◌, Bool-cases, length, get_elem?, get_or, set,
  take, drop, replicate, length-append,
}
use vrt_framework.Core.Error.{ok, ◌>>=◌, ok-injective}
use vrt_framework.Memory.Envelope.{
  QuotaState, take_quotas, retain, retained_if, SegmentRef, Lease, no_lease, bytes, segment_bytes,
  RetainedRx, RxEnvelope, numbered_bytes, fragment, retained_fragment, retain_loop,
}

pub get_or-append :
    (xs ys : List Lease) (i : ℕ)
    → i < length xs
    → get_or (xs ++ ys) i no_lease ≡ get_or xs i no_lease
get_or-append [] ys i h = absurd (omega arith)
get_or-append (x ∷ xs) ys zero h = refl
get_or-append (x ∷ xs) ys (suc i) h = get_or-append xs ys i (omega arith)

pub get_or-last : (xs : List Lease) (x : Lease) → get_or (xs ++ (x ∷ [])) (length xs) no_lease ≡ x
get_or-last [] x = refl
get_or-last (y ∷ xs) x = get_or-last xs x

get_or-set :
    (xs : List ℕ) (i j v : ℕ)
    → get_or (set xs i v) j 18 ≡ (if i == j && ltb i (length xs) then v else get_or xs j 18)
get_or-set [] i j v = ground arith
get_or-set (x ∷ xs) zero zero v = ground arith
get_or-set (x ∷ xs) zero (suc j) v = ground arith
get_or-set (x ∷ xs) (suc i) zero v = ground arith
get_or-set (x ∷ xs) (suc i) (suc j) v = ground (arith, get_or-set xs i j v)

module _ (leases : List Lease) where
  -- A lease in the table has its share among those made so far.
  abbrev Mapped : List ℕ → List Lease → Type 0
  Mapped remap out =
      (l : ℕ)
      → (get_or remap l 18 ≡ 18)
        ⊎ ((get_or remap l 18 < length out)
            × (get_or out (get_or remap l 18) no_lease ≡ get_or leases l no_lease))

  -- The leases of a result begin with those made before.
  loop-prefix :
      (remap : List ℕ) (out : List Lease) (ss : List SegmentRef) (i : ℕ)
      → i < length out
      → get_or (retain_loop leases remap out ss).leases i no_lease ≡ get_or out i no_lease
  unfolding retain_loop
  loop-prefix remap out [] i h = refl
  loop-prefix remap out (s ∷ ss) i h = elim (Bool-cases (get_or remap s.lease 18 == 18)) [
    | inl new ↦
        let x = get_or leases s.lease no_lease in
        rw new (
          loop-prefix (set remap s.lease (length out)) (out ++ (x ∷ [])) ss i
            (omega (arith, length-append out (x ∷ [])))
          ∙ get_or-append out (x ∷ []) i h)
    | inr old ↦ rw old (loop-prefix remap out ss i h)
  ]

  Mapped-new :
      (remap : List ℕ) (out : List Lease) (k : ℕ)
      → Mapped remap out
      → Mapped (set remap k (length out)) (out ++ (get_or leases k no_lease ∷ []))
  Mapped-new remap out k m l =
      let x = get_or leases k no_lease in
      let e = get_or-set remap k l (length out) in
      let n = length-append out (x ∷ []) in
      elim (Bool-cases (k == l && ltb k (length remap))) [
        | inl here ↦
            let kl : k ≡ l = ground (arith, here) in
            let v : get_or (set remap k (length out)) l 18 ≡ length out = e ∙ rw here refl in
            inr (
              omega (arith, v, n),
              rw v (get_or-last out x ∙ ap (λ j. get_or leases j no_lease) kl),
            )
        | inr there ↦
            let v : get_or (set remap k (length out)) l 18 ≡ get_or remap l 18 =
              e ∙ rw there refl in
            elim (m l) [
              | inl u ↦ inl (v ∙ u)
              | inr (lt, q) ↦ inr (
                omega (arith, v, n, lt),
                rw v (get_or-append out (x ∷ []) (get_or remap l 18) lt ∙ q),
              )
            ]
      ]

  loop-fragment :
      (ss : List SegmentRef) (remap : List ℕ) (out : List Lease) (i : ℕ)
      → Mapped remap out
      → numbered_bytes
          (retain_loop leases remap out ss).leases
          (get_elem? (retain_loop leases remap out ss).fragments i)
        ≡ numbered_bytes leases (get_elem? ss i)
  unfolding retain_loop segment_bytes
  loop-fragment [] remap out i m = refl
  loop-fragment (s ∷ ss) remap out zero m = elim (Bool-cases (get_or remap s.lease 18 == 18)) [
    | inl new ↦
        let x = get_or leases s.lease no_lease in
        rw new (
          ap (λ l. bytes l >>= λ b. ok (take s.extent (drop s.offset b)))
            (loop-prefix (set remap s.lease (length out)) (out ++ (x ∷ [])) ss (length out)
                (omega (arith, length-append out (x ∷ [])))
              ∙ get_or-last out x))
    | inr old ↦ elim (m s.lease) [
      | inl u ↦ absurd (ground (arith, old, u))
      | inr (lt, q) ↦ rw old (
          ap (λ l. bytes l >>= λ b. ok (take s.extent (drop s.offset b)))
            (loop-prefix remap out ss (get_or remap s.lease 18) lt ∙ q))
    ]
  ]
  loop-fragment (s ∷ ss) remap out (suc i) m = elim (Bool-cases (get_or remap s.lease 18 == 18)) [
    | inl new ↦ rw new (
        loop-fragment ss (set remap s.lease (length out))
          (out ++ (get_or leases s.lease no_lease ∷ [])) i (Mapped-new remap out s.lease m))
    | inr old ↦ rw old (loop-fragment ss remap out i m)
  ]

get_or-replicate : (n l : ℕ) → ◌≡◌ {A = ℕ} (get_or (replicate n 18) l 18) 18
get_or-replicate zero l = refl
get_or-replicate (suc n) zero = refl
get_or-replicate (suc n) (suc l) = get_or-replicate n l

retained_if-eq-ok :
    (out : RetainedRx) (t : (Option QuotaState × Option QuotaState) × Bool) (r : RetainedRx)
    → (retained_if out t).1 ≡ ok r
    → out ≡ r
retained_if-eq-ok out (q, true) r h = ok-injective h
retained_if-eq-ok out (q, false) r h = absurd (grind (arith, h))

-- Where `retain` returns a packet, each of its fragments is read as that fragment of the received
-- packet is, an error where that has an error, also where segments share a lease.
pub retain-fragment :
    (e : RxEnvelope) (same : Bool) (consumer global : Option QuotaState) (r : RetainedRx) (i : ℕ)
    → (retain e same consumer global).1 ≡ ok r
    → retained_fragment r i ≡ fragment e i
unfolding retain retained_fragment fragment
retain-fragment e same consumer global r i h = elim (Bool-cases (length e.payload == 0)) [
  | inl empty ↦ absurd (grind (arith, rw empty at h))
  | inr full ↦
      let out = retain_loop e.leases (replicate 18 18) [] e.payload in
      let g : (retained_if out (take_quotas same consumer global)).1 ≡ ok r = rw full at h in
      subst
        (λ r.
          numbered_bytes r.leases (get_elem? r.fragments i)
          ≡ numbered_bytes e.leases (get_elem? e.payload i))
        (retained_if-eq-ok out (take_quotas same consumer global) r g)
        (loop-fragment e.leases e.payload (replicate 18 18) [] i (λ l. inl (get_or-replicate 18 l)))
]
