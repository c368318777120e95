-- ===== src/Codec/Words.antt =====
-- include/vita/codec/wire.hpp, namespace detail: 32-bit big-endian words in a byte sequence. The code
-- swaps bytes on a little-endian host, so that the first byte is the most significant on every host.
use vrt_framework.Prelude.{
  ℕ, zero, suc, ◌+◌, ◌*◌, ◌/◌, ◌%◌, ◌^◌, ◌<◌, ◌≡◌, refl, ap, ◌∙◌, List, [], ◌∷◌, ◌++◌, arith,
  length, get_or, take, drop,
}

unfoldable pub load32 : List ℕ → ℕ → ℕ
load32 wire offset =
    get_or wire offset 0 * 2 ^ 24
    + get_or wire (offset + 1) 0 * 2 ^ 16
    + get_or wire (offset + 2) 0 * 2 ^ 8
    + get_or wire (offset + 3) 0

-- The four bytes that `store32` writes.
abbrev pub bytes_of : ℕ → List ℕ
bytes_of value =
    (value / 2 ^ 24 % 256) ∷ (value / 2 ^ 16 % 256) ∷ (value / 2 ^ 8 % 256) ∷ (value % 256) ∷ []

abbrev pub all_bytes : List ℕ → List ℕ
all_bytes [] = []
all_bytes (w ∷ ws) = bytes_of w ++ all_bytes ws

-- A write of consecutive bytes into an output that has room for them.
unfoldable pub write_at : List ℕ → ℕ → List ℕ → List ℕ
write_at output offset bytes = take offset output ++ (bytes ++ drop (offset + length bytes) output)

-- `store32(output, offset, value)`
unfoldable pub store32 : List ℕ → ℕ → ℕ → List ℕ
unfolding write_at
store32 output offset value = write_at output offset (bytes_of value)

get_or-drop : (xs : List ℕ) (n i : ℕ) → get_or xs (n + i) 0 ≡ get_or (drop n xs) i 0
get_or-drop xs zero i = ap (λ k. get_or xs k 0) (omega arith)
get_or-drop [] (suc n) i = refl
get_or-drop (x ∷ xs) (suc n) i =
    let e : suc n + i ≡ suc (n + i) = omega arith in rw e (get_or-drop xs n i)

-- A word is read back where its bytes stand.
pub load32-at :
    (wire : List ℕ) (offset value : ℕ) (rest : List ℕ)
    → value < 2 ^ 32
    → drop offset wire ≡ bytes_of value ++ rest
    → load32 wire offset ≡ value
unfolding load32
load32-at wire offset value rest fit h =
    let at = λ (i : ℕ). get_or-drop wire offset i ∙ ap (λ (d : List ℕ). get_or d i 0) h in
    let e : offset + 0 ≡ offset = omega arith in
    let first = rw e at (at 0) in omega (arith, first, at 1, at 2, at 3)

pub drop-nil : (m : ℕ) → drop {A = ℕ} m [] ≡ []
drop-nil zero = refl
drop-nil (suc m) = refl

pub drop-drop : (n m : ℕ) (xs : List ℕ) → drop m (drop n xs) ≡ drop (n + m) xs
drop-drop zero m xs = ap (λ k. drop k xs) (omega arith)
drop-drop (suc n) m [] = let e : suc n + m ≡ suc (n + m) = omega arith in rw e (drop-nil m)
drop-drop (suc n) m (x ∷ xs) =
    let e : suc n + m ≡ suc (n + m) = omega arith in rw e (drop-drop n m xs)

pub length-all_bytes : (ws : List ℕ) → length (all_bytes ws) ≡ 4 * length ws
length-all_bytes [] = omega arith
length-all_bytes (w ∷ ws) = omega (arith, length-all_bytes ws)
