-- ===== src/Transaction/Retention/Copies.antt =====
-- The bytes that `append` copies: they read back, and what is apart from them is as before.
use vrt_framework.Prelude.{
  ℕ, zero, suc, ◌+◌, ◌≤◌, ◌≡◌, refl, ap, ◌∙◌, ◌⊎◌, inl, inr, List, [], ◌∷◌, arith, length, set,
  take, drop,
}
use vrt_framework.Transaction.Retention.Tokens.{copy_at}

-- `n` bytes from an offset on
abbrev pub slice : ℕ → ℕ → List ℕ → List ℕ
slice n offset bytes = take n (drop offset bytes)

copy_at-nil : (at : ℕ) (image : List ℕ) → copy_at [] at image ≡ []
copy_at-nil at [] = refl
copy_at-nil at (b ∷ bs) = copy_at-nil (suc at) bs

copy_at-cons :
    (x : ℕ) (xs : List ℕ) (at : ℕ) (image : List ℕ)
    → copy_at (x ∷ xs) (suc at) image ≡ x ∷ copy_at xs at image
copy_at-cons x xs at [] = refl
copy_at-cons x xs at (b ∷ bs) = copy_at-cons x (set xs at b) (suc at) bs

pub slice-copy_at :
    (bytes : List ℕ) (at : ℕ) (image : List ℕ)
    → at + length image ≤ length bytes
    → slice (length image) at (copy_at bytes at image) ≡ image
slice-copy_at bytes zero [] room = refl
slice-copy_at bytes (suc at) [] room = refl
slice-copy_at [] zero (b ∷ bs) room = absurd (omega arith)
slice-copy_at (x ∷ xs) zero (b ∷ bs) room =
    ap (slice (suc (length bs)) 0) (copy_at-cons b xs 0 bs)
    ∙ ap (◌∷◌ b) (slice-copy_at xs 0 bs (omega arith))
slice-copy_at [] (suc at) (b ∷ bs) room = absurd (omega arith)
slice-copy_at (x ∷ xs) (suc at) (b ∷ bs) room =
    ap (slice (length (b ∷ bs)) (suc at)) (copy_at-cons x xs at (b ∷ bs))
    ∙ slice-copy_at xs at (b ∷ bs) (omega arith)

pub slice-copy_apart :
    (n offset : ℕ) (bytes : List ℕ) (at : ℕ) (image : List ℕ)
    → (offset + n ≤ at) ⊎ (at + length image ≤ offset)
    → slice n offset (copy_at bytes at image) ≡ slice n offset bytes
slice-copy_apart n offset [] at image apart = ap (slice n offset) (copy_at-nil at image)
slice-copy_apart n offset (x ∷ xs) zero [] apart = refl
slice-copy_apart zero offset (x ∷ xs) zero (b ∷ bs) apart = refl
slice-copy_apart (suc n) zero (x ∷ xs) zero (b ∷ bs) apart = absurd (ground arith)
slice-copy_apart (suc n) (suc offset) (x ∷ xs) zero (b ∷ bs) apart =
    ap (slice (suc n) (suc offset)) (copy_at-cons b xs 0 bs)
    ∙ slice-copy_apart (suc n) offset xs 0 bs (inr (ground arith))
slice-copy_apart zero zero (x ∷ xs) (suc at) image apart = refl
slice-copy_apart (suc n) zero (x ∷ xs) (suc at) image apart =
    ap (slice (suc n) 0) (copy_at-cons x xs at image)
    ∙ ap (◌∷◌ x) (slice-copy_apart n zero xs at image (inl (ground arith)))
slice-copy_apart n (suc offset) (x ∷ xs) (suc at) image apart =
    ap (slice n (suc offset)) (copy_at-cons x xs at image)
    ∙ slice-copy_apart n offset xs at image
        (elim apart [ inl l ↦ inl (omega arith) | inr r ↦ inr (omega arith) ])
