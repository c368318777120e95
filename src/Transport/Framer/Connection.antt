-- ===== src/Transport/Framer/Connection.antt =====
-- The end of a connection and a new one.
use vrt_framework.Prelude.{
  ℕ, ◌≡◌, refl, ap, inl, inr, true, false, ◌||◌, Option, none, some, List, [], ◌∷◌, arith, ◌==◌,
  if◌then◌else◌, ==_iff, Bool-cases, length,
}
use vrt_framework.Core.Error.{error, error_needs, short_input, invalid_state, Result, err, done}
use vrt_framework.Transport.Framer.{
  StreamFramer, reset, reconnect, disconnect, target, bad_limits, feed_loop, feed,
}
use vrt_framework.Transport.Framer.Bytewise.{IsFramer}

no_bytes : (r : List ℕ) → length r ≡ 0 → r ≡ []
no_bytes [] h = refl
no_bytes (x ∷ r) h = absurd (omega (arith, h))

refuses :
    {S : Type 0} (sink : Option (S → List ℕ → S × Result (Unit {0}))) (f : StreamFramer) (s : S)
    (input : List ℕ)
    → f.closed ≡ true
    → feed sink f s input ≡ some (f, s, err (error invalid_state))
unfolding feed
refuses none f s input h = refl
refuses (some sink) f s input h =
    ap
      (λ b.
        if b || bad_limits f
        then some (f, s, err (error invalid_state))
        else feed_loop sink (length input) f s input 0)
      h

reopened : (f : StreamFramer) → bad_limits f ≡ false → IsFramer (reconnect f)
unfolding bad_limits
reopened f l = record { is_open = refl; limits = l; waiting = omega arith; sized = inl refl }

-- A disconnection in the middle of a packet is reported as a short input with the bytes received and
-- the bytes awaited, and no error is reported between packets; in both cases the framer ends closed
-- with nothing buffered, refuses to be fed, and a reconnection makes it usable again.
pub disconnect_lem :
    {S : Type 0} (sink : Option (S → List ℕ → S × Result (Unit {0}))) (f : StreamFramer) (s : S)
    (input : List ℕ)
    → IsFramer f
    → ((disconnect f).1 ≡ (
        if length f.buffer == 0
        then done
        else err (error_needs short_input (length f.buffer) (target f))))
      × ((disconnect f).0.buffer ≡ [])
      × (feed sink (disconnect f).0 s input ≡ some ((disconnect f).0, s, err (error invalid_state)))
      × IsFramer (reconnect (disconnect f).0)
unfolding disconnect bad_limits
disconnect_lem sink f s input v = elim (Bool-cases (length f.buffer == 0)) [
  | inl t ↦
      let e = no_bytes f.buffer ((==_iff _ 0).0 t) in
      rw t (
        refl,
        e,
        refuses sink (record f { closed = true }) s input refl,
        reopened (record f { closed = true }) v.limits,
      )
  | inr n ↦ rw n (
    refl,
    refl,
    refuses sink (reset (record f { closed = true })) s input refl,
    reopened (reset (record f { closed = true })) v.limits,
  )
]
