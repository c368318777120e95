-- ===== src/Core/Error.antt =====
-- include/vita/core/error.hpp: the error record, and `Result`, which is `std::expected`.
use vrt_framework.Prelude.{ℕ, ◌≡◌, refl, ◌⊎◌, inl, inr, Bool, true, false, if◌then◌else◌}

pub data ErrorCode : Type 0 where
  invalid_argument unsupported_layout unsupported_capability overflow short_input short_output :
      ErrorCode
  capacity_exhausted stale_generation invalid_state would_deadlock callback_failure : ErrorCode
  no_cpu_access resource_limit identity_conflict : ErrorCode

pub data EffectState : Type 0 where
  none known unknown : EffectState

pub data ErrorStage : Type 0 where
  none validation encoding decoding admission execution transport lifecycle : ErrorStage

-- `native_error` is kept as its bit pattern.
pub record Error : Type 0 where
  pub code : ErrorCode
  pub offset : ℕ
  pub required_capacity : ℕ
  pub consumed : ℕ
  pub field_id : ℕ
  pub retryable : Bool
  pub effect : EffectState
  pub stage : ErrorStage
  pub native_error : ℕ

-- `Error{code, offset, required}`: the other fields have their defaults.
unfoldable pub error_needs : ErrorCode → ℕ → ℕ → Error
error_needs code offset required = record {
  code = code;
  offset = offset;
  required_capacity = required;
  consumed = 0;
  field_id = 0;
  retryable = false;
  effect = EffectState.none;
  stage = ErrorStage.none;
  native_error = 0;
}

unfoldable pub error_at : ErrorCode → ℕ → Error
unfolding error_needs
error_at code offset = error_needs code offset 0

unfoldable pub error : ErrorCode → Error
unfolding error_at
error code = error_at code 0

-- `std::expected<T, Error>`
pub data Result {ℓ} (T : Type ℓ) : Type ℓ where
  err : Error → Result T
  ok : T → Result T

-- `return {};` of a `Result<void>`
abbrev pub done : Result (Unit {0})
done = ok tt

abbrev pub is_ok {ℓ} : {T : Type ℓ} → Result T → Bool
is_ok (err _) = false
is_ok (ok _) = true

-- `if(!test) return std::unexpected(failure);`
abbrev pub guard : Bool → Error → Result (Unit {0})
guard false failure = err failure
guard true failure = done

-- `if(!r) return std::unexpected(r.error());`, and then the rest of the function on `*r`.
infixl 5 ◌>>=◌
abbrev pub ◌>>=◌ {ℓ κ} : {T : Type ℓ} {U : Type κ} → Result T → (T → Result U) → Result U
err failure >>= rest = err failure
ok value >>= rest = rest value

infixl 5 ◌>>◌
abbrev pub ◌>>◌ {ℓ} : {U : Type ℓ} → Result (Unit {0}) → Result U → Result U
check >> rest = check >>= (λ _. rest)

-- A function that succeeded has passed each of its checks: the first result was a value, and the rest
-- succeeded on it.
pub >>=-eq-ok {ℓ κ} :
    {T : Type ℓ} {U : Type κ} (r : Result T) (rest : T → Result U) {u : U}
    → (r >>= rest) ≡ ok u
    → (t : T) × (r ≡ ok t) × (rest t ≡ ok u)
>>=-eq-ok (err failure) rest passed = cc
>>=-eq-ok (ok value) rest passed = (value, refl, passed)

pub Result-cases {ℓ} :
    {A : Type ℓ} (r : Result A) → ((a : A) × (r ≡ ok a)) ⊎ ((e : Error) × (r ≡ err e))
Result-cases (ok a) = inl (a, refl)
Result-cases (err e) = inr (e, refl)

-- Inversion of a passed guard, `if(b) return std::unexpected(e);`.
pub guard-eq-ok {ℓ} :
    {A : Type ℓ} (b : Bool) (e : Error) (m : Result A) {a : A}
    → (if b then err e else m) ≡ ok a
    → (b ≡ false) × (m ≡ ok a)
guard-eq-ok true e m h = cc
guard-eq-ok false e m h = (refl, h)

-- Inversion of a passed `guard`.
pub >>-eq-ok {ℓ} :
    {A : Type ℓ} (b : Bool) (e : Error) (m : Result A) {a : A}
    → (guard b e >> m) ≡ ok a
    → (b ≡ true) × (m ≡ ok a)
>>-eq-ok true e m h = (refl, h)
>>-eq-ok false e m h = cc

pub ok-injective {ℓ} : {A : Type ℓ} {a b : A} → ok a ≡ ok b → a ≡ b
ok-injective h = cc
