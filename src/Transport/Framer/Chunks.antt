-- ===== src/Transport/Framer/Chunks.antt =====
-- What the framer delivers does not depend on how the stream is cut into chunks.
use vrt_framework.Prelude.{
  ℕ, ◌+◌, ◌≡◌, refl, sym, ap, ◌∙◌, subst, true, some, List, [], ◌∷◌, ◌++◌, arith, some-injective,
}
use vrt_framework.Core.Error.{Error, Result, ok, err}
use vrt_framework.Transport.Framer.{StreamFramer, absorb, and_then, feed, Outcome}
use vrt_framework.Transport.Framer.Bytewise.{IsFramer, bytewise, Left, absorb-Left, feed-bytewise}

module _ {S : Type 0} (sink : S → List ℕ → S × Result (Unit {0})) where
  -- An outcome with packets that were delivered before.
  abbrev pub counted : ℕ → Outcome sink → Outcome sink
  counted n (f, s, err e) = (f, s, err e)
  counted n (f, s, ok m) = (f, s, ok (n + m))

  and_then-counted :
      (n : ℕ) (o : Outcome sink) (k k' : StreamFramer → S → ℕ → Outcome sink)
      → ((f : StreamFramer) (s : S) (m : ℕ) → k f s m ≡ counted n (k' f s m))
      → and_then sink (λ o. o) o k ≡ counted n (and_then sink (λ o. o) o k')
  and_then-counted n (f, s, err e) k k' h = refl
  and_then-counted n (f, s, ok m) k k' h = h f s m

  counted-counted :
      (n m k : ℕ) (o : Outcome sink) → k ≡ n + m → counted k o ≡ counted n (counted m o)
  counted-counted n m k (f, s, err e) h = refl
  counted-counted n m k (f, s, ok x) h = ap (λ y. (f, s, ok y)) (omega arith)

  pub bytewise-counted :
      (xs : List ℕ) (f : StreamFramer) (s : S) (n : ℕ)
      → bytewise sink f s xs n ≡ counted n (bytewise sink f s xs 0)
  unfolding bytewise
  bytewise-counted [] f s n = ap (λ y. (f, s, ok y)) (omega arith)
  bytewise-counted (x ∷ xs) f s n = and_then-counted n (absorb sink f s (x ∷ [])) _ _ λ f' s' m.
      bytewise-counted xs f' s' (n + m)
      ∙ counted-counted n m (n + m) (bytewise sink f' s' xs 0) refl
      ∙ ap (counted n) (
          sym (
            bytewise-counted xs f' s' (0 + m)
            ∙ ap (λ y. counted y (bytewise sink f' s' xs 0)) (omega arith)))

  -- Running on where the first part ended, unless it failed.
  abbrev pub continue : Outcome sink → List ℕ → Outcome sink
  continue (f, s, err e) more = (f, s, err e)
  continue (f, s, ok n) more = counted n (bytewise sink f s more 0)

  and_then-continue :
      (o : Outcome sink) (k k' : StreamFramer → S → ℕ → Outcome sink) (more : List ℕ)
      → ((f : StreamFramer) (s : S) (m : ℕ) → k f s m ≡ continue (k' f s m) more)
      → and_then sink (λ o. o) o k ≡ continue (and_then sink (λ o. o) o k') more
  and_then-continue (f, s, err e) k k' more h = refl
  and_then-continue (f, s, ok m) k k' more h = h f s m

  pub bytewise-append :
      (xs ys : List ℕ) (f : StreamFramer) (s : S) (n : ℕ)
      → bytewise sink f s (xs ++ ys) n ≡ continue (bytewise sink f s xs n) ys
  unfolding bytewise
  bytewise-append [] ys f s n = bytewise-counted ys f s n
  bytewise-append (x ∷ xs) ys f s n =
      and_then-continue (absorb sink f s (x ∷ [])) _ _ ys
        λ f' s' m. bytewise-append xs ys f' s' (n + m)

  and_then-Left :
      (o : Outcome sink) (k : StreamFramer → S → ℕ → Outcome sink)
      → Left sink o
      → ((f : StreamFramer) (s : S) (m : ℕ) → IsFramer f → Left sink (k f s m))
      → Left sink (and_then sink (λ o. o) o k)
  and_then-Left (f, s, err e) k l h = l
  and_then-Left (f, s, ok m) k l h = h f s m l

  pub bytewise-Left :
      (xs : List ℕ) (f : StreamFramer) (s : S) (n : ℕ)
      → IsFramer f
      → Left sink (bytewise sink f s xs n)
  unfolding bytewise
  bytewise-Left [] f s n v = v
  bytewise-Left (x ∷ xs) f s n v =
      and_then-Left (absorb sink f s (x ∷ [])) _
        (absorb-Left sink f s (x ∷ []) v (omega (arith, v.waiting)))
        λ f' s' m v'. bytewise-Left xs f' s' (n + m) v'

-- A stream that is fed in two calls gives what it gives in one: the framer, the sink's state and the
-- first error are the same, and the numbers of delivered packets add up.
pub feed-append :
    {S : Type 0} (sink : S → List ℕ → S × Result (Unit {0})) (f f' : StreamFramer) (s s' : S)
    (xs ys : List ℕ) (n : ℕ) (o : Outcome sink)
    → IsFramer f
    → feed (some sink) f s xs ≡ some (f', s', ok n)
    → feed (some sink) f' s' ys ≡ some o
    → feed (some sink) f s (xs ++ ys) ≡ some (counted sink n o)
feed-append sink f f' s s' xs ys n o v h1 h2 =
    let e1 : bytewise sink f s xs 0 ≡ (f', s', ok n) =
      some-injective (sym (feed-bytewise sink f s xs v) ∙ h1) in
    let v' : IsFramer f' = subst (Left sink) e1 (bytewise-Left sink xs f s 0 v) in
    let e2 : bytewise sink f' s' ys 0 ≡ o =
      some-injective (sym (feed-bytewise sink f' s' ys v') ∙ h2) in
    feed-bytewise sink f s (xs ++ ys) v
    ∙ ap some (
        bytewise-append sink xs ys f s 0 ∙ ap (λ r. continue sink r ys) e1 ∙ ap (counted sink n) e2)

-- A call that fails on a prefix fails on the whole stream in the same way.
pub feed-append_err :
    {S : Type 0} (sink : S → List ℕ → S × Result (Unit {0})) (f f' : StreamFramer) (s s' : S)
    (xs ys : List ℕ) (e : Error)
    → IsFramer f
    → feed (some sink) f s xs ≡ some (f', s', err e)
    → (feed (some sink) f s (xs ++ ys) ≡ some (f', s', err e))
      × (f'.closed ≡ true)
      × (f'.buffer ≡ [])
feed-append_err sink f f' s s' xs ys e v h =
    let e1 : bytewise sink f s xs 0 ≡ (f', s', err e) =
      some-injective (sym (feed-bytewise sink f s xs v) ∙ h) in
    let l = subst (Left sink) e1 (bytewise-Left sink xs f s 0 v) in
    (
      feed-bytewise sink f s (xs ++ ys) v
          ∙ ap some (bytewise-append sink xs ys f s 0 ∙ ap (λ r. continue sink r ys) e1),
      l.0,
      l.1,
    )
