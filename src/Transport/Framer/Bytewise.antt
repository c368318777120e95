-- ===== src/Transport/Framer/Bytewise.antt =====
-- The framer does not depend on how the stream is cut: feeding it a chunk is feeding it each byte.
use vrt_framework.Prelude.{
  ℕ, zero, suc, ◌+◌, ◌-◌, ◌≤◌, ◌<◌, min, ◌≡◌, refl, sym, ap, ◌∙◌, ◌≢◌, ◌⊎◌, inl, inr, true, false,
  ◌||◌, not, Option, some, List, [], ◌∷◌, ◌++◌, append_assoc, arith, ltb, ◌==◌, if◌then◌else◌,
  Bool-cases, length, take, drop, length-append, take-append-drop, length-take, length-drop,
}
use vrt_framework.Core.Error.{error, invalid_state, Result, ok, err}
use vrt_framework.Codec.Words.{load32}
use vrt_framework.Codec.Decode.{EnvelopeView, decode_envelope}
use vrt_framework.Transport.Framer.{
  StreamFramer, reset, target, bad_header, inspect_header, bad_limits, accepted, deliver, inspected,
  absorb, and_then, feed_loop, feed, Outcome,
}

-- An open framer with acceptable limits, in which fewer bytes are buffered than it waits for, and a
-- packet that it waits for has at least a header.
pub record IsFramer (f : StreamFramer) : Type 0 where
  pub is_open : f.closed ≡ false
  pub limits : bad_limits f ≡ false
  pub waiting : length f.buffer < target f
  pub sized : f.expected ≡ 0 ⊎ (4 ≤ f.expected)

module _ {S : Type 0} (sink : S → List ℕ → S × Result (Unit {0})) where
  -- Byte by byte.
  unfoldable pub bytewise : StreamFramer → S → List ℕ → ℕ → Outcome sink
  bytewise f s [] n = (f, s, ok n)
  bytewise f s (b ∷ bs) n =
      and_then sink (λ o. o) (absorb sink f s (b ∷ [])) λ f' s' k. bytewise f' s' bs (n + k)

  -- A byte that does not fill the buffer is only buffered.
  pub absorb-short :
      (f : StreamFramer) (s : S) (b : ℕ)
      → length f.buffer + 1 < target f
      → absorb sink f s (b ∷ []) ≡ (record f { buffer = f.buffer ++ (b ∷ []) }, s, ok 0)
  unfolding absorb inspected inspect_header
  absorb-short f s b h = ground (arith, length-append f.buffer (b ∷ []))

  -- What a call leaves: a framer that waits, or after an error one that is closed and empty.
  abbrev pub Left : Outcome sink → Type 0
  Left (f, s, ok n) = IsFramer f
  Left (f, s, err e) = (f.closed ≡ true) × (f.buffer ≡ []) × (f.expected ≡ 0)

  accepted-Left :
      (f : StreamFramer) (r : S × Result (Unit {0}))
      → f.closed ≡ false
      → bad_limits f ≡ false
      → Left (accepted sink (reset f) r)
  unfolding accepted bad_limits
  accepted-Left f (s, err e) c l = (refl, refl, refl)
  accepted-Left f (s, ok _) c l = record {
    is_open = c;
    limits = l;
    waiting = omega arith;
    sized = inl refl;
  }

  deliver-Left :
      (f : StreamFramer) (s : S) (r : Result EnvelopeView)
      → f.closed ≡ false
      → bad_limits f ≡ false
      → Left (deliver sink f s r)
  unfolding deliver
  deliver-Left f s (err e) c l = (refl, refl, refl)
  deliver-Left f s (ok v) c l = accepted-Left f (sink s f.buffer) c l

  -- After the header: at most the awaited bytes are buffered, and fewer than four before a header.
  abbrev Inspected : StreamFramer × Result (Unit {0}) → Type 0
  Inspected (f, err e) = Unit {0}
  Inspected (f, ok _) =
      (f.closed ≡ false)
      × (bad_limits f ≡ false)
      × (length f.buffer ≤ target f)
      × ((f.expected ≡ 0) ⊎ (4 ≤ f.expected))
      × ((f.expected ≢ 0) ⊎ (length f.buffer < 4))

  inspect_header-Inspected :
      (f : StreamFramer)
      → f.closed ≡ false
      → bad_limits f ≡ false
      → length f.buffer ≤ target f
      → (f.expected ≡ 0) ⊎ (4 ≤ f.expected)
      → Inspected (inspect_header f)
  unfolding inspect_header bad_header bad_limits
  inspect_header-Inspected f c l le v =
      elim (Bool-cases (ltb (length f.buffer) 4 || not (f.expected == 0))) [
        | inl t ↦ rw t (c, l, le, v, ground arith)
        | inr n ↦ elim (Bool-cases (bad_header f (load32 f.buffer 0))) [
          | inl bad ↦ rw (n, bad) tt
          | inr good ↦ rw (n, good) (c, l, ground arith, ground arith, ground arith)
        ]
      ]

  waits :
      (f : StreamFramer)
      → (f.expected == 0 || not (length f.buffer == f.expected)) ≡ true
      → length f.buffer ≤ target f
      → (f.expected ≢ 0) ⊎ (length f.buffer < 4)
      → length f.buffer < target f
  waits f t le w = ground arith

  inspected-Left :
      (s : S) (i : StreamFramer × Result (Unit {0})) → Inspected i → Left (inspected sink s i)
  unfolding inspected
  inspected-Left s (f, err e) h = (refl, refl, refl)
  inspected-Left s (f, ok _) (c, l, le, v, w) =
      elim (Bool-cases (f.expected == 0 || not (length f.buffer == f.expected))) [
        | inl t ↦ rw t (record { is_open = c; limits = l; waiting = waits f t le w; sized = v })
        | inr n ↦ rw n (deliver-Left f s (decode_envelope f.buffer) c l)
      ]

  pub absorb-Left :
      (f : StreamFramer) (s : S) (chunk : List ℕ)
      → IsFramer f
      → length f.buffer + length chunk ≤ target f
      → Left (absorb sink f s chunk)
  unfolding absorb bad_limits
  absorb-Left f s chunk v le = inspected-Left s _ (
      inspect_header-Inspected (record f { buffer = f.buffer ++ chunk }) v.is_open v.limits
        (omega (arith, length-append f.buffer chunk)) v.sized)

  pub absorb-split :
      (f : StreamFramer) (s : S) (b : ℕ) (chunk : List ℕ)
      → absorb sink f s (b ∷ chunk)
        ≡ absorb sink (record f { buffer = f.buffer ++ (b ∷ []) }) s chunk
  unfolding absorb
  absorb-split f s b chunk =
      ap (λ x. inspected sink s (inspect_header (record f { buffer = x })))
        (sym (append_assoc f.buffer (b ∷ []) chunk))

  -- The bytes of one round, fed one by one.
  pub bytewise-round :
      (b : ℕ) (chunk rest : List ℕ) (f : StreamFramer) (s : S) (n : ℕ)
      → length f.buffer + suc (length chunk) ≤ target f
      → bytewise f s (b ∷ (chunk ++ rest)) n
        ≡ and_then sink
            (λ o. o)
            (absorb sink f s (b ∷ chunk))
            (λ f' s' k. bytewise f' s' rest (n + k))
  unfolding bytewise
  bytewise-round b [] rest f s n le = refl
  bytewise-round b (c ∷ chunk) rest f s n le =
      let f1 : StreamFramer = record f { buffer = f.buffer ++ (b ∷ []) } in
      let z : n + 0 ≡ n = omega arith in
      ap (λ o. and_then sink (λ o. o) o (λ f' s' k. bytewise f' s' (c ∷ (chunk ++ rest)) (n + k)))
        (absorb-short f s b (omega arith))
      ∙ ap (bytewise f1 s (c ∷ (chunk ++ rest))) z
      ∙ bytewise-round c chunk rest f1 s n (omega (arith, length-append f.buffer (b ∷ [])))
      ∙ ap (λ o. and_then sink (λ o. o) o (λ f' s' k. bytewise f' s' rest (n + k)))
          (sym (absorb-split f s b (c ∷ chunk)))

  and_then-some :
      (o : Outcome sink) (k : StreamFramer → S → ℕ → Option (Outcome sink))
      (k' : StreamFramer → S → ℕ → Outcome sink)
      → Left o
      → ((f : StreamFramer) (s : S) (n : ℕ) → IsFramer f → k f s n ≡ some (k' f s n))
      → and_then sink some o k ≡ some (and_then sink (λ o. o) o k')
  and_then-some (f, s, err e) k k' l h = refl
  and_then-some (f, s, ok n) k k' l h = h f s n l

  -- The round that copies `k` bytes.
  round : ℕ → ℕ → StreamFramer → S → List ℕ → ℕ → Option (Outcome sink)
  round k fuel f s input n =
      and_then sink some (absorb sink f s (take k input))
        λ f' s' m. feed_loop sink fuel f' s' (drop k input) (n + m)

  feed_loop-round :
      (fuel : ℕ) (f : StreamFramer) (s : S) (b : ℕ) (bs : List ℕ) (n : ℕ)
      → feed_loop sink (suc fuel) f s (b ∷ bs) n
        ≡ round (min (length (b ∷ bs)) (target f - length f.buffer)) fuel f s (b ∷ bs) n
  unfolding feed_loop round
  feed_loop-round fuel f s b bs n = refl

  feed_loop-bytewise :
      (fuel : ℕ) (f : StreamFramer) (s : S) (input : List ℕ) (n : ℕ)
      → length input ≤ fuel
      → IsFramer f
      → feed_loop sink fuel f s input n ≡ some (bytewise f s input n)
  unfolding feed_loop bytewise round
  feed_loop-bytewise fuel f s [] n le v = refl
  feed_loop-bytewise zero f s (b ∷ bs) n le v = absurd (omega arith)
  feed_loop-bytewise (suc fuel) f s (b ∷ bs) n le v =
      let count = min (length (b ∷ bs)) (target f - length f.buffer) in
      let k : ℕ = count - 1 in
      let w = v.waiting in
      let e : count ≡ suc k = omega arith in
      let lt = length-take k bs in
      let ld = length-drop k bs in
      let cut : b ∷ (take k bs ++ drop k bs) ≡ b ∷ bs = ap (λ r. b ∷ r) (take-append-drop k bs) in
      feed_loop-round fuel f s b bs n
      ∙ ap (λ c. round c fuel f s (b ∷ bs) n) e
      ∙ and_then-some (absorb sink f s (b ∷ take k bs)) _
          (λ f' s' m. bytewise f' s' (drop k bs) (n + m))
          (absorb-Left f s (b ∷ take k bs) v (omega arith))
          (λ f' s' m v'. feed_loop-bytewise fuel f' s' (drop k bs) (n + m) (omega arith) v')
      ∙ ap some (
          sym (bytewise-round b (take k bs) (drop k bs) f s n (omega arith))
          ∙ ap (λ r. bytewise f s r n) cut)

-- Feeding an open and correctly configured framer always returns, and gives the same outcome as
-- feeding the bytes one after the other.
pub feed-bytewise :
    {S : Type 0} (sink : S → List ℕ → S × Result (Unit {0})) (f : StreamFramer) (s : S)
    (input : List ℕ)
    → IsFramer f
    → feed (some sink) f s input ≡ some (bytewise sink f s input 0)
unfolding feed
feed-bytewise sink f s input v =
    let t : (f.closed || bad_limits f) ≡ false = ground (arith, v.is_open, v.limits) in
    ap
      (λ b.
        if b
        then some (f, s, err (error invalid_state))
        else feed_loop sink (length input) f s input 0)
      t
    ∙ feed_loop-bytewise sink (length input) f s input 0 (omega arith) v
