-- ===== src/Socket/Buffers.antt =====
-- What `socketWrite` transfers of several buffers.
use mathlib.Core.Path.{subst}
use mathlib.Core.Option.{some-injective}
use redisclient_libary.Common.{
  Bytes, List, [], ◌∷◌, ◌++◌, append-nil, flatten, ℕ, ◌+◌, ◌≤◌, length, length-append, take,
  take-length, drop, All, Option, none, some, ◌≡◌, inl, inr, refl, ap, ◌∙◌, sym, arith,
  take-length_append, drop-length_append,
}
use redisclient_libary.Socket.{
  ErrorCode, SendAttempt, Written, socket_write, write_all, socket_write_buffers,
}
use redisclient_libary.Socket.Transfer.{
  IsSend, WroteMore, WroteMore-moved, WroteMore-Outcome, write_loop-WroteMore, Outcome,
}

take-within : (n : ℕ) (xs ys : Bytes) → n ≤ length xs → take n (xs ++ ys) ≡ take n xs
take-within ℕ.zero xs ys h = refl
take-within (ℕ.suc n) [] ys h = absurd (omega arith)
take-within (ℕ.suc n) (x ∷ xs) ys h = ap (◌∷◌ x) (take-within n xs ys (omega arith))

WroteMore-whole :
    (sent : ℕ) (wire buffer rest : Bytes) (v w : Written)
    → WroteMore none 0 [] buffer v
    → v.ec ≡ none
    → WroteMore none (sent + v.sent) (wire ++ v.wire) rest w
    → WroteMore none sent wire (buffer ++ rest) w
WroteMore-whole sent wire buffer rest v w m e o = elim m.ended [
  | inr (_, (x, u)) ↦ cc (u, e)
  | inl (all, _) ↦
      let count : v.sent ≡ length buffer = omega (arith, m.counted, all) in
      let out : v.wire ≡ take (length buffer) (buffer ++ rest) =
        m.on_wire
        ∙ ap (λ k. take k buffer) all
        ∙ take-length buffer
        ∙ sym (take-length_append buffer rest) in
      WroteMore-moved none sent (length buffer) wire (buffer ++ rest) w
        (omega (arith, length-append buffer rest))
        (subst
          (λ k.
            WroteMore none (sent + k) (wire ++ take (length buffer) (buffer ++ rest))
              (drop (length buffer) (buffer ++ rest)) w)
          count
          (subst
            (λ x.
              WroteMore none (sent + v.sent) (wire ++ x) (drop (length buffer) (buffer ++ rest)) w)
            out
            (subst (λ x. WroteMore none (sent + v.sent) (wire ++ v.wire) x w)
              (sym (drop-length_append buffer rest)) o)))
]

WroteMore-stopped :
    (sent : ℕ) (wire buffer rest : Bytes) (v : Written) (x : ErrorCode)
    → WroteMore none 0 [] buffer v
    → v.ec ≡ some x
    → WroteMore none sent wire
        (buffer ++ rest)
        (record { sent = sent + v.sent; wire = wire ++ v.wire; ec = some x; attempts = v.attempts })
WroteMore-stopped sent wire buffer rest v x m e = elim m.ended [
  | inl (_, u) ↦ cc (u, e)
  | inr (few, _) ↦ record {
    more = m.more;
    counted = omega (arith, m.counted);
    on_wire = ap (◌++◌ wire) (m.on_wire ∙ sym (take-within m.more buffer rest m.in_rest));
    in_rest = omega (arith, m.in_rest, length-append buffer rest);
    kept = m.kept;
    ended = inr (omega (arith, length-append buffer rest), (x, refl));
  }
]

socket_write-WroteMore :
    (attempts : List SendAttempt) (buffer : Bytes) (w : Written)
    → All IsSend attempts
    → socket_write attempts none buffer ≡ some w
    → WroteMore none 0 [] buffer w
unfolding socket_write
socket_write-WroteMore attempts buffer w h e = write_loop-WroteMore attempts none 0 [] buffer w h e

write_all-WroteMore :
    (buffers : List Bytes) (attempts : List SendAttempt) (sent : ℕ) (wire : Bytes) (w : Written)
    → All IsSend attempts
    → write_all attempts none sent wire buffers ≡ some w
    → WroteMore none sent wire (flatten buffers) w
unfolding write_all
write_all-WroteMore [] attempts sent wire w h e =
    subst (WroteMore none sent wire []) (some-injective _ _ e) (record {
      more = 0;
      counted = omega arith;
      on_wire = sym (append-nil wire);
      in_rest = omega arith;
      kept = h;
      ended = inl (refl, refl);
    })
write_all-WroteMore (buffer ∷ buffers) attempts sent wire w h e =
    first (λ v g. write_all-WroteMore buffers v.attempts (sent + v.sent) (wire ++ v.wire) w g)
      (socket_write attempts none buffer) refl
  where
    Rest : Type 0
    Rest =
        (v : Written)
        → All IsSend v.attempts
        → write_all v.attempts none (sent + v.sent) (wire ++ v.wire) buffers ≡ some w
        → WroteMore none (sent + v.sent) (wire ++ v.wire) (flatten buffers) w

    goes_on :
        Rest
        → (v : Written) → (x : Option ErrorCode) → socket_write attempts none buffer ≡ some v
        → v.ec ≡ x
        → WroteMore none 0 [] buffer v
        → WroteMore none sent wire (buffer ++ flatten buffers) w
    goes_on ih v none f u m =
        WroteMore-whole sent wire buffer (flatten buffers) v w m u
          (ih v m.kept (rw (write_all, f, u) at e))
    goes_on ih v (some x) f u m =
        subst (WroteMore none sent wire (buffer ++ flatten buffers))
          (some-injective _ _ (rw (write_all, f, u) at e))
          (WroteMore-stopped sent wire buffer (flatten buffers) v x m u)

    first :
        Rest
        → (r : Option Written) → socket_write attempts none buffer ≡ r
        → WroteMore none sent wire (buffer ++ flatten buffers) w
    first ih none f = cc ((rw (write_all, f) at e))
    first ih (some v) f = goes_on ih v v.ec f refl (socket_write-WroteMore attempts buffer v h f)

-- Several buffers are written like the one that holds their bytes in order: what is on the wire is
-- the first `bytesSend` of them, all of them without an error code or fewer with one. `send` is taken
-- to accept no more than it is offered, and the error code to be clear before.
pub socket_write_buffers-Outcome :
    (attempts : List SendAttempt) (buffers : List Bytes) (w : Written)
    → All IsSend attempts
    → socket_write_buffers attempts none buffers ≡ some w
    → Outcome none (flatten buffers) w
unfolding socket_write_buffers
socket_write_buffers-Outcome attempts buffers w h e =
    WroteMore-Outcome none (flatten buffers) w (write_all-WroteMore buffers attempts 0 [] w h e)
