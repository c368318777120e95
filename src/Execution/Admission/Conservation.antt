-- ===== src/Execution/Admission/Conservation.antt =====
-- The credits that a pool counts as used are those that its bundles hold.
use vrt_framework.Prelude.{
  ℕ, zero, suc, ◌+◌, ◌^◌, ◌≤◌, ◌<◌, ◌≡◌, refl, sym, ap, ◌∙◌, inl, inr, Bool, true, false, ◌||◌, not,
  Option, none, some, List, [], ◌∷◌, arith, ltb, ◌==◌, if◌then◌else◌, ==_iff, Bool-cases,
  Option-cases, some-injective, sub64, get_elem?, set,
}
use vrt_framework.Core.Error.{Result, ok, err}
use vrt_framework.Execution.Admission.{
  resource_count, AdmissionRequest, AdmissionPool, AdmissionBundle, no_bundle, some_below, reset,
  transfer, acquire, close,
}

-- A pool with the bundles that have been handed out; a bundle that was reset keeps its place.
pub record System : Type 0 where
  pub pool : AdmissionPool
  pub bundles : List AdmissionBundle

-- A call: `splits i` transfers out of bundle `i`, and `drops i` resets or destroys it.
pub data AdmissionCall : Type 0 where
  acquires : AdmissionRequest → AdmissionCall
  splits : ℕ → AdmissionRequest → AdmissionCall
  drops : ℕ → AdmissionCall
  closes : AdmissionCall

abbrev pub keep_bundle : List AdmissionBundle → Result AdmissionBundle → List AdmissionBundle
keep_bundle bs (ok b) = b ∷ bs
keep_bundle bs (err e) = bs

abbrev pub at_bundle : System → Option AdmissionBundle → (AdmissionBundle → System) → System
at_bundle s none f = s
at_bundle s (some b) f = f b

unfoldable pub call : System → AdmissionCall → System
call s (acquires r) =
    let a = acquire s.pool r in record { pool = a.0; bundles = keep_bundle s.bundles a.1 }
call s (splits i r) =
    at_bundle s (get_elem? s.bundles i)
      λ b. let t = transfer b r in record s { bundles = keep_bundle (set s.bundles i t.0) t.1 }
call s (drops i) =
    at_bundle s (get_elem? s.bundles i)
      λ b. let d = reset s.pool b in record { pool = d.0; bundles = set s.bundles i d.1 }
call s closes = record s { pool = close s.pool }

unfoldable pub run : System → List AdmissionCall → System
unfolding call
run s [] = s
run s (c ∷ cs) = run (call s c) cs

-- The credits of one resource that a bundle holds.
abbrev pub credit : ℕ → AdmissionBundle → ℕ
credit i b = if b.attached then b.held i else 0

abbrev pub credits : ℕ → List AdmissionBundle → ℕ
credits i [] = 0
credits i (b ∷ bs) = credit i b + credits i bs

-- For every resource, what is used is what the bundles hold, and at most the capacity.
pub record IsBalanced (s : System) (i : ℕ) : Type 0 where
  pub balance : s.pool.used i ≡ credits i s.bundles
  pub within : s.pool.used i ≤ s.pool.capacities.counts i
  pub fits : s.pool.capacities.counts i < 2 ^ 64

-- The counts of a request are `std::size_t` values.
abbrev pub IsCall : ℕ → AdmissionCall → Type 0
IsCall i (acquires r) = r.counts i < 2 ^ 64
IsCall i (splits k r) = r.counts i < 2 ^ 64
IsCall i (drops k) = Unit {0}
IsCall i closes = Unit {0}

abbrev pub AllCalls : ℕ → List AdmissionCall → Type 0
AllCalls i [] = Unit {0}
AllCalls i (c ∷ cs) = IsCall i c × AllCalls i cs

some_below-false : (n : ℕ) (p : ℕ → Bool) (i : ℕ) → some_below n p ≡ false → i < n → p i ≡ false
some_below-false zero p i h lt = absurd (omega arith)
some_below-false (suc n) p i h lt = elim (Bool-cases (i == n)) [
  | inl e ↦ let q : i ≡ n = (==_iff i n).0 e in rw q (ground arith)
  | inr ne ↦ some_below-false n p i (ground arith) (ground arith)
]

credits-set :
    (i k : ℕ) (bs : List AdmissionBundle) (b b' : AdmissionBundle)
    → get_elem? bs k ≡ some b
    → credits i (set bs k b') + credit i b ≡ credits i bs + credit i b'
credits-set i k [] b b' h = cc
credits-set i zero (x ∷ bs) b b' h =
    let e : x ≡ b = some-injective h in omega (arith, ap (credit i) e)
credits-set i (suc k) (x ∷ bs) b b' h = omega (arith, credits-set i k bs b b' h)

credit-le :
    (i k : ℕ) (bs : List AdmissionBundle) (b : AdmissionBundle)
    → get_elem? bs k ≡ some b
    → credit i b ≤ credits i bs
credit-le i k [] b h = cc
credit-le i zero (x ∷ bs) b h = let e : x ≡ b = some-injective h in omega (arith, ap (credit i) e)
credit-le i (suc k) (x ∷ bs) b h = omega (arith, credit-le i k bs b h)

-- The balance of one resource after a call.
acquired :
    (s : System) (r : AdmissionRequest) (i : ℕ)
    → i < resource_count
    → r.counts i < 2 ^ 64
    → IsBalanced s i
    → IsBalanced (call s (acquires r)) i
unfolding call acquire
acquired s r i lt fit v = elim (Bool-cases (not r.valid || not s.pool.capacities.valid)) [
  | inl bad ↦ rw bad v
  | inr good ↦ elim (Bool-cases (not s.pool.is_open)) [
    | inl shut ↦ rw (good, shut) v
    | inr up ↦
        let p : ℕ → Bool =
          λ j. ltb (sub64 (s.pool.capacities.counts j) (s.pool.used j)) (r.counts j) in
        elim (Bool-cases (some_below resource_count p)) [
          | inl full ↦ rw (good, up, full) v
          | inr room ↦
              let q : p i ≡ false = some_below-false resource_count p i room lt in
              rw (good, up, room)
                (record {
                  balance = ground (arith, v.balance, v.within, v.fits);
                  within = ground (arith, v.within, v.fits);
                  fits = v.fits;
                })
        ]
  ]
]

-- A credit moves within the list.
dropped :
    (s : System) (k i : ℕ) (b : AdmissionBundle)
    → get_elem? s.bundles k ≡ some b
    → IsBalanced s i
    → IsBalanced
        (record { pool = (reset s.pool b).0; bundles = set s.bundles k (reset s.pool b).1 })
        i
unfolding reset
dropped s k i b h v = elim (Bool-cases b.attached) [
  | inr off ↦
      let e = credits-set i k s.bundles b b h in
      simp off (record { balance = omega (arith, v.balance, e); within = v.within; fits = v.fits })
  | inl held_on ↦
      let e = credits-set i k s.bundles b no_bundle h in
      let le = credit-le i k s.bundles b h in
      let c : credit i b ≡ b.held i = rw held_on refl in
      rw held_on (record {
        balance = omega (arith, v.balance, v.within, v.fits, e, le, c);
        within = omega (arith, v.balance, v.within, v.fits, le, c);
        fits = v.fits;
      })
]

split :
    (s : System) (k i : ℕ) (b : AdmissionBundle) (r : AdmissionRequest)
    → i < resource_count
    → r.counts i < 2 ^ 64
    → get_elem? s.bundles k ≡ some b
    → IsBalanced s i
    → IsBalanced
        (record s { bundles = keep_bundle (set s.bundles k (transfer b r).0) (transfer b r).1 })
        i
unfolding transfer
split s k i b r lt fit h v =
    let same = credits-set i k s.bundles b b h in
    let unchanged : credits i (set s.bundles k b) ≡ credits i s.bundles = omega (arith, same) in
    elim (Bool-cases (not b.attached)) [
      | inl off ↦
          simp off
            (record { balance = v.balance ∙ sym unchanged; within = v.within; fits = v.fits })
      | inr held_on ↦ elim (Bool-cases (not r.valid)) [
        | inl bad ↦
            rw (held_on, bad)
              (record { balance = v.balance ∙ sym unchanged; within = v.within; fits = v.fits })
        | inr good ↦
            let p : ℕ → Bool = λ j. ltb (b.held j) (r.counts j) in
            elim (Bool-cases (some_below resource_count p)) [
              | inl more ↦
                  rw (held_on, good, more)
                    (record {
                      balance = v.balance ∙ sym unchanged;
                      within = v.within;
                      fits = v.fits;
                    })
              | inr enough ↦
                  let q : p i ≡ false = some_below-false resource_count p i enough lt in
                  let b' : AdmissionBundle = record b {
                    held = λ j. sub64 (b.held j) (r.counts j);
                  } in
                  let e = credits-set i k s.bundles b b' h in
                  let le = credit-le i k s.bundles b h in
                  let on : b.attached ≡ true = ground (arith, held_on) in
                  let c : credit i b ≡ b.held i = rw on refl in
                  let c' : credit i b' ≡ sub64 (b.held i) (r.counts i) = rw on refl in
                  let w : r.counts i ≤ b.held i = ground (arith, q) in
                  rw (held_on, good, enough)
                    (record {
                      balance = omega (arith, v.balance, v.within, v.fits, e, le, c, c', w);
                      within = v.within;
                      fits = v.fits;
                    })
            ]
      ]
    ]

call-IsBalanced :
    (s : System) (c : AdmissionCall) (i : ℕ)
    → i < resource_count
    → IsCall i c
    → IsBalanced s i
    → IsBalanced (call s c) i
unfolding call close
call-IsBalanced s (acquires r) i lt fit v = acquired s r i lt fit v
call-IsBalanced s (splits k r) i lt fit v = elim (Option-cases (get_elem? s.bundles k)) [
  | inl n ↦ rw n v
  | inr (b, h) ↦ rw h (split s k i b r lt fit h v)
]
call-IsBalanced s (drops k) i lt fit v = elim (Option-cases (get_elem? s.bundles k)) [
  | inl n ↦ rw n v
  | inr (b, h) ↦ rw h (dropped s k i b h v)
]
call-IsBalanced s closes i lt fit v = record {
  balance = v.balance;
  within = v.within;
  fits = v.fits;
}

-- After any history of acquiring, splitting, resetting and closing, each resource's used credits are
-- exactly those that the live bundles hold, and never exceed the capacity.
pub run-IsBalanced :
    (s : System) (cs : List AdmissionCall) (i : ℕ)
    → i < resource_count
    → AllCalls i cs
    → IsBalanced s i
    → IsBalanced (run s cs) i
unfolding run
run-IsBalanced s [] i lt fit v = v
run-IsBalanced s (c ∷ cs) i lt fit v =
    run-IsBalanced (call s c) cs i lt fit.1 (call-IsBalanced s c i lt fit.0 v)
