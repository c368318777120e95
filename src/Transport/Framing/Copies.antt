-- ===== src/Transport/Framing/Copies.antt =====
-- What the loop of `ensure` has copied is a prefix of the packet.
use vrt_framework.Prelude.{
  ℕ, zero, suc, ◌+◌, ◌-◌, ◌≤◌, ◌<◌, min, ◌≡◌, refl, sym, ap, ◌∙◌, ◌⊎◌, inl, inr, true, false, ◌||◌,
  not, List, [], ◌∷◌, ◌++◌, append_assoc, arith, ltb, leb, ◌==◌, if◌then◌else◌, ==_refl, Bool-cases,
  length, get_or, take, drop, length-append, length-take, length-drop,
}
use vrt_framework.Core.Error.{error_needs, short_input, Result, ok, err}
use vrt_framework.Codec.Words.{load32}
use vrt_framework.Transport.Framing.{copy_parts, ensure}

-- The segments' bytes, one after the other, when each of them can be read.
abbrev pub readable : List (List ℕ) → List (Result (List ℕ))
readable [] = []
readable (p ∷ ps) = ok p ∷ readable ps

abbrev pub joined : List (List ℕ) → List ℕ
joined [] = []
joined (p ∷ ps) = p ++ joined ps

take-plus : (c n : ℕ) (w : List ℕ) → take (c + n) w ≡ take c w ++ take n (drop c w)
take-plus zero n w = ap (λ k. take k w) (omega arith)
take-plus (suc c) zero [] = let e : suc c + 0 ≡ suc (c + 0) = omega arith in rw e refl
take-plus (suc c) (suc n) [] = let e : suc c + suc n ≡ suc (c + suc n) = omega arith in rw e refl
take-plus (suc c) n (x ∷ w) =
    let e : suc c + n ≡ suc (c + n) = omega arith in rw e (ap (λ r. x ∷ r) (take-plus c n w))

drop-past : (c : ℕ) (xs ys : List ℕ) → length xs ≤ c → drop c (xs ++ ys) ≡ drop (c - length xs) ys
drop-past c [] ys h = ap (λ k. drop k ys) (omega arith)
drop-past zero (x ∷ xs) ys h = absurd (omega arith)
drop-past (suc c) (x ∷ xs) ys h =
    drop-past c xs ys (omega arith) ∙ ap (λ k. drop k ys) (omega arith)

take-before : (n : ℕ) (xs ys : List ℕ) → n ≤ length xs → take n (xs ++ ys) ≡ take n xs
take-before zero xs ys h = refl
take-before (suc n) [] ys h = absurd (omega arith)
take-before (suc n) (x ∷ xs) ys h = ap (λ r. x ∷ r) (take-before n xs ys (omega arith))

drop-before : (n : ℕ) (xs ys : List ℕ) → n ≤ length xs → drop n (xs ++ ys) ≡ drop n xs ++ ys
drop-before zero xs ys h = refl
drop-before (suc n) [] ys h = absurd (omega arith)
drop-before (suc n) (x ∷ xs) ys h = drop-before n xs ys (omega arith)

-- One segment adds the next bytes of the packet.
part-lem :
    (before part rest : List ℕ) (c n : ℕ)
    → length before ≤ c
    → (c - length before) + n ≤ length part
    → take c (before ++ (part ++ rest)) ++ take n (drop (c - length before) part)
      ≡ take (c + n) (before ++ (part ++ rest))
part-lem before part rest c n le fit =
    let k : ℕ = c - length before in
    let d = drop-past c before (part ++ rest) le ∙ drop-before k part rest (omega arith) in
    let t = take-before n (drop k part) rest (omega (arith, length-drop k part)) in
    sym (
      take-plus c n (before ++ (part ++ rest))
      ∙ ap (λ r. take c (before ++ (part ++ rest)) ++ take n r) d
      ∙ ap (λ r. take c (before ++ (part ++ rest)) ++ r) t)

length-take-le : (n : ℕ) (w : List ℕ) → n ≤ length w → length (take n w) ≡ n
length-take-le n w h = omega (arith, length-take n w)

lt_lem : (a c : ℕ) → leb a c ≡ false → c < a
lt_lem a c h = ground arith

next_start :
    (b p c wanted n b' : ℕ)
    → b ≤ c
    → b' ≡ b + p
    → leb (b + p) c ≡ false
    → not (ltb c wanted) ≡ false
    → n ≡ min (wanted - c) (p - (c - b))
    → (b' ≤ c + n) ⊎ (c + n ≡ wanted)
next_start b p c wanted n b' le e h m q = ground arith

-- The loop, with `c` bytes copied of the packet `before ++ joined ps`.
copy_parts-joined :
    (ps : List (List ℕ)) (before : List ℕ) (c wanted : ℕ)
    → (length before ≤ c) ⊎ (c ≡ wanted)
    → c ≤ wanted
    → wanted ≤ length (before ++ joined ps)
    → copy_parts (readable ps) (length before) (take c (before ++ joined ps)) wanted
      ≡ ok (take wanted (before ++ joined ps))
unfolding copy_parts
copy_parts-joined [] before c wanted at le fit =
    let e : c ≡ wanted = elim at [ inl l ↦ omega (arith, length-append before []) | inr q ↦ q ] in
    ap (λ k. ok (take k (before ++ []))) e
copy_parts-joined (part ∷ ps) before c wanted at le fit =
    let w : List ℕ = before ++ (part ++ joined ps) in
    let lc : length (take c w) ≡ c = length-take-le c w (omega (arith, le, fit)) in
    let shape : (before ++ part) ++ joined ps ≡ w = append_assoc before part (joined ps) in
    let la = length-append before part in
    elim (Bool-cases (not (ltb c wanted))) [
      | inl full ↦
          let e : c ≡ wanted = ground (arith, full, le) in rw (lc, full) (ap (λ k. ok (take k w)) e)
      | inr more ↦
          let started : length before ≤ c = elim at [
            | inl l ↦ l
            | inr q ↦ absurd (ground (arith, more, q))
          ] in
          elim (Bool-cases (leb (length before + length part) c)) [
            | inl past ↦
                rw (lc, more, past)
                  (ap
                      (λ r.
                        copy_parts (readable ps) (length before + length part) (take c r) wanted)
                      (sym shape)
                    ∙ ap
                        (λ k.
                          copy_parts (readable ps) k (take c ((before ++ part) ++ joined ps))
                            wanted)
                        (sym la)
                    ∙ copy_parts-joined ps (before ++ part) c wanted
                        (inl (ground (arith, past, la))) le (rw shape fit)
                    ∙ ap (λ r. ok (take wanted r)) shape)
            | inr inside ↦
                rw (lc, more, inside)
                  (let n : ℕ = min (wanted - c) (length part - (c - length before)) in
                    let p =
                      part-lem before part (joined ps) c n started
                        (omega (arith, lt_lem (length before + length part) c inside)) in
                    ap (λ r. copy_parts (readable ps) (length before + length part) r wanted)
                      (p ∙ ap (take (c + n)) (sym shape))
                    ∙ ap
                        (λ k.
                          copy_parts (readable ps) k (take (c + n) ((before ++ part) ++ joined ps))
                            wanted)
                        (sym la)
                    ∙ copy_parts-joined ps (before ++ part) (c + n) wanted
                        (next_start (length before) (length part) c wanted n
                          (length (before ++ part)) started la inside more refl)
                        (omega arith) (rw shape fit)
                    ∙ ap (λ r. ok (take wanted r)) shape)
          ]
    ]

get_or-take : (i n : ℕ) (w : List ℕ) → i < n → get_or (take n w) i 0 ≡ get_or w i 0
get_or-take i zero w h = absurd (omega arith)
get_or-take i (suc n) [] h = refl
get_or-take zero (suc n) (x ∷ w) h = refl
get_or-take (suc i) (suc n) (x ∷ w) h = get_or-take i n w (omega arith)

pub load32-take : (o n : ℕ) (w : List ℕ) → o + 4 ≤ n → load32 (take n w) o ≡ load32 w o
unfolding load32
load32-take o n w h =
    let g = λ (i : ℕ) (lt : i < n). get_or-take i n w lt in
    rw
      (g o (omega arith), g (o + 1) (omega arith), g (o + 2) (omega arith), g (o + 3) (omega arith))
      refl

-- `ensure` either refuses, for a size out of bounds, or has copied the first `wanted` bytes.
pub ensure-joined :
    (ps : List (List ℕ)) (c wanted : ℕ)
    → c ≤ wanted
    → ensure
        (record { byte_size = length (joined ps); parts = readable ps })
        (take c (joined ps))
        wanted
      ≡ (if ltb 68 wanted || ltb (length (joined ps)) wanted
          then err (error_needs short_input (length (take c (joined ps))) wanted)
          else ok (take wanted (joined ps)))
unfolding ensure
ensure-joined ps c wanted le =
    let w : List ℕ = joined ps in
    elim (Bool-cases (ltb 68 wanted || ltb (length w) wanted)) [
      | inl out ↦ rw out refl
      | inr fits ↦
          let room : wanted ≤ length w = ground (arith, fits) in
          let same : (length (take wanted w) == wanted) ≡ true =
            rw (length-take-le wanted w room) (==_refl wanted) in
          rw (fits, copy_parts-joined ps [] c wanted (inl (omega arith)) le room, same) refl
    ]
