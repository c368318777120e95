-- ===== src/Memory/Envelope/Quotas.antt =====
-- The quotas of `retain` and of `release_quotas`.
use vrt_framework.Prelude.{
  ℕ, ◌^◌, ◌<◌, ◌≡◌, refl, ap, ◌∙◌, inl, inr, Bool, true, false, arith, ltb, ltb→lt, Bool-cases,
  add64, sub64, replicate, length, ◌==◌, [], Option, none, some,
}
use vrt_framework.Core.Error.{Result, ok, err}
use vrt_framework.Memory.Envelope.{
  QuotaState, take_quota, give_quota, take_quotas, release_quotas, RxEnvelope, RetainedRx,
  retained_if, retain_loop, retain,
}

-- The quotas after a result has been released.
abbrev pub settled :
    Bool
    → (Option QuotaState × Option QuotaState) × Result RetainedRx
    → Option QuotaState × Option QuotaState
settled same (q, ok r) = release_quotas same q.0 q.1
settled same (q, err e) = q

sub64-add64 : (n m : ℕ) → n < m → m < 2 ^ 64 → sub64 (add64 n 1) 1 ≡ n
sub64-add64 n m h b = ground arith

-- The limit of a quota's state, if there is one, is a 64-bit number.
abbrev pub IsQuota : Option QuotaState → Type 0
IsQuota none = Unit {0}
IsQuota (some q) = q.limit < 2 ^ 64

abbrev quota : ℕ → ℕ → Bool → QuotaState
quota n m on = record { active = n; limit = m; enabled = on }

give_quota-take_quota-some :
    (n m : ℕ) (on : Bool)
    → m < 2 ^ 64
    → (take_quota (some (quota n m on))).1 ≡ true
    → give_quota (take_quota (some (quota n m on))).0 ≡ some (quota n m on)
unfolding take_quota give_quota
give_quota-take_quota-some n m false b h = absurd (grind (arith, h))
give_quota-take_quota-some n m true b h = elim (Bool-cases (ltb n m)) [
  | inl below ↦ rw below (ap (λ n. some (quota n m true)) (sub64-add64 n m (ltb→lt _ _ below) b))
  | inr full ↦ absurd (grind (arith, rw full at h))
]

give_quota-take_quota :
    (q : Option QuotaState) → IsQuota q → (take_quota q).1 ≡ true → give_quota (take_quota q).0 ≡ q
unfolding take_quota give_quota
give_quota-take_quota none b h = refl
give_quota-take_quota (some q) b h = give_quota-take_quota-some q.active q.limit q.enabled b h

settled-take_quotas :
    (same : Bool) (consumer global : Option QuotaState) (r : RetainedRx)
    → IsQuota consumer
    → IsQuota global
    → settled same (retained_if r (take_quotas same consumer global)) ≡ (consumer, global)
unfolding take_quotas release_quotas
settled-take_quotas same consumer global r bc bg = elim (Bool-cases (take_quota consumer).1) [
  | inl c ↦
      let back = give_quota-take_quota consumer bc c in
      elim (Bool-cases same) [
        | inl one ↦ rw (c, one) (ap (λ q. (q, global)) back)
        | inr two ↦ elim (Bool-cases (take_quota global).1) [
          | inl g ↦
              rw (c, two, g)
                (ap (λ q. (q, give_quota (take_quota global).0)) back
                  ∙ ap (λ q. (consumer, q)) (give_quota-take_quota global bg g))
          | inr g ↦ rw (c, two, g) (ap (λ q. (q, global)) back)
        ]
      ]
  | inr c ↦ rw c refl
]

-- If the limits of the two quotas are 64-bit numbers, `retain` followed by the release of the packet
-- that it returned leaves both quotas as they were, and so does `retain` alone where it fails, also
-- where one of the quotas had already been taken, where the two quotas are one object, and where one
-- has no state.
pub settled-retain :
    (e : RxEnvelope) (same : Bool) (consumer global : Option QuotaState)
    → IsQuota consumer
    → IsQuota global
    → settled same (retain e same consumer global) ≡ (consumer, global)
unfolding retain
settled-retain e same consumer global bc bg = elim (Bool-cases (length e.payload == 0)) [
  | inl empty ↦ rw empty refl
  | inr full ↦ rw full (
      settled-take_quotas same consumer global (retain_loop e.leases (replicate 18 18) [] e.payload)
        bc bg)
]
