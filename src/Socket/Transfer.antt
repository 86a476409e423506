-- ===== src/Socket/Transfer.antt =====
-- What the socket functions transfer.
use mathlib.Core.Path.{subst}
use mathlib.Core.Option.{some-injective}
use redisclient_libary.Common.{
  Bytes, true, List, [], ◌∷◌, ◌++◌, ℕ, zero, suc, ◌+◌, ◌≤◌, ◌==◌, length, take, drop, Option, some,
  if◌then◌else◌, ◌≡◌, ◌⊎◌, inl, inr, refl, ap, ◌∙◌, sym, arith, All, append_assoc, append-nil,
  length-drop,
}
use redisclient_libary.Socket.{
  ErrorCode, eintr, SendAttempt, Written, Turn, again, stop, moved, turn, socket_write_impl,
  write_loop, socket_write,
}

-- `send` accepts no more than it is offered.
abbrev pub IsSend : SendAttempt → Type 0
IsSend a = (n k : ℕ) → a.accepted n ≡ some k → k ≤ n

-- `k` more bytes of the rest went out: all of them, with the error code as it was, or fewer, with
-- an error code.
pub record WroteMore (ec : Option ErrorCode) (sent : ℕ) (wire rest : Bytes) (w : Written)
    : Type 0 where
  pub more : ℕ
  pub counted : w.sent ≡ sent + more
  pub on_wire : w.wire ≡ wire ++ take more rest
  pub in_rest : more ≤ length rest
  pub kept : All IsSend w.attempts
  pub ended :
      ((more ≡ length rest) × (w.ec ≡ ec))
      ⊎ ((suc more ≤ length rest) × ((e : ErrorCode) × (w.ec ≡ some e)))

turn-moved :
    (a : SendAttempt) (size n : ℕ)
    → IsSend a
    → turn (socket_write_impl a size) a.errno ≡ moved n
    → n ≤ size
unfolding turn socket_write_impl
turn-moved a size n h e = ground (arith, h size n)

take-add :
    (n k : ℕ) (xs : Bytes) → n ≤ length xs → take n xs ++ take k (drop n xs) ≡ take (n + k) xs
take-add zero k xs h = ap (λ i. take i xs) (omega arith)
take-add (suc n) k [] h = absurd (omega arith)
take-add (suc n) k (x ∷ xs) h =
    let shift : suc (n + k) ≡ suc n + k = omega arith in
    ap (◌∷◌ x) (take-add n k xs (omega arith)) ∙ ap (λ i. take i (x ∷ xs)) shift

pub WroteMore-moved :
    (ec : Option ErrorCode) (sent n : ℕ) (wire rest : Bytes) (w : Written)
    → n ≤ length rest
    → WroteMore ec (sent + n) (wire ++ take n rest) (drop n rest) w
    → WroteMore ec sent wire rest w
WroteMore-moved ec sent n wire rest w h m = record {
  more = n + m.more;
  counted = omega (arith, m.counted);
  on_wire =
      m.on_wire
      ∙ append_assoc wire (take n rest) (take m.more (drop n rest))
      ∙ ap (◌++◌ wire) (take-add n m.more rest h);
  in_rest = omega (arith, m.in_rest, length-drop n rest);
  kept = m.kept;
  ended = elim m.ended [
    | inl (all, kept) ↦ inl (omega (arith, length-drop n rest), kept)
    | inr (few, code) ↦ inr (omega (arith, length-drop n rest), code)
  ];
}

pub write_loop-WroteMore :
    (attempts : List SendAttempt) (ec : Option ErrorCode) (sent : ℕ) (wire rest : Bytes)
    (w : Written)
    → All IsSend attempts
    → write_loop attempts ec sent wire rest ≡ some w
    → WroteMore ec sent wire rest w
unfolding write_loop
write_loop-WroteMore attempts ec sent wire [] w h e =
    subst (WroteMore ec sent wire []) (some-injective _ _ e) (record {
      more = 0;
      counted = omega arith;
      on_wire = sym (append-nil wire);
      in_rest = omega arith;
      kept = h;
      ended = inl (refl, refl);
    })
write_loop-WroteMore [] ec sent wire (b ∷ rest) w h e = cc
write_loop-WroteMore (a ∷ attempts) ec sent wire (b ∷ rest) w (ha, h) e =
    by_turn (turn (socket_write_impl a (length (b ∷ rest))) a.errno) refl
      (write_loop-WroteMore attempts ec sent wire (b ∷ rest) w h)
      (λ n.
        write_loop-WroteMore attempts ec (sent + n) (wire ++ take n (b ∷ rest)) (drop n (b ∷ rest))
          w h)
  where
    by_turn :
        (t : Turn)
        → turn (socket_write_impl a (length (b ∷ rest))) a.errno ≡ t
        → (write_loop attempts ec sent wire (b ∷ rest) ≡ some w
            → WroteMore ec sent wire (b ∷ rest) w)
        → ((n : ℕ)
            → write_loop attempts ec (sent + n) (wire ++ take n (b ∷ rest)) (drop n (b ∷ rest))
              ≡ some w
            → WroteMore ec (sent + n) (wire ++ take n (b ∷ rest)) (drop n (b ∷ rest)) w)
        → WroteMore ec sent wire (b ∷ rest) w
    by_turn again t retry on = retry (rw (t, write_loop) at e)
    by_turn (stop x) t retry on =
        subst (WroteMore ec sent wire (b ∷ rest)) (some-injective _ _ (rw (t, write_loop) at e))
          (record {
            more = 0;
            counted = omega arith;
            on_wire = sym (append-nil wire);
            in_rest = omega arith;
            kept = h;
            ended = inr (omega arith, (x, refl));
          })
    by_turn (moved n) t retry on =
        WroteMore-moved ec sent n wire (b ∷ rest) w (turn-moved a (length (b ∷ rest)) n ha t)
          (on n (rw (t, write_loop) at e))

-- What a count of bytes and an error code say about a buffer that was to be written.
abbrev pub Outcome : Option ErrorCode → Bytes → Written → Type 0
Outcome ec buffer w =
    (w.wire ≡ take w.sent buffer)
    × (w.sent ≤ length buffer)
    × (((w.sent ≡ length buffer) × (w.ec ≡ ec))
        ⊎ ((suc w.sent ≤ length buffer) × ((e : ErrorCode) × (w.ec ≡ some e))))

pub WroteMore-Outcome :
    (ec : Option ErrorCode) (buffer : Bytes) (w : Written)
    → WroteMore ec 0 [] buffer w
    → Outcome ec buffer w
WroteMore-Outcome ec buffer w m =
    let count : m.more ≡ w.sent = omega (arith, m.counted) in
    let parts : (w.wire ≡ take m.more buffer)
        × (m.more ≤ length buffer)
        × (((m.more ≡ length buffer) × (w.ec ≡ ec))
            ⊎ ((suc m.more ≤ length buffer) × ((e : ErrorCode) × (w.ec ≡ some e)))) =
      (m.on_wire, m.in_rest, m.ended) in
    rw count at parts

-- The bytes that `socketWrite` puts on the wire are the first `bytesSend` of the buffer. If they are
-- all of it the error code is as the caller left it, and if they are fewer it is set; `send` is
-- taken to accept no more than it is offered.
pub socket_write-Outcome :
    (attempts : List SendAttempt) (ec : Option ErrorCode) (buffer : Bytes) (w : Written)
    → All IsSend attempts
    → socket_write attempts ec buffer ≡ some w
    → Outcome ec buffer w
unfolding socket_write
socket_write-Outcome attempts ec buffer w h e =
    WroteMore-Outcome ec buffer w (write_loop-WroteMore attempts ec 0 [] buffer w h e)

-- The attempts that no signal interrupts.
abbrev pub uninterrupted : List SendAttempt → ℕ
uninterrupted [] = 0
uninterrupted (a ∷ attempts) = (if a.errno == eintr then 0 else 1) + uninterrupted attempts

turn-again : (r : Option ℕ) (errno : ℕ) → turn r errno ≡ again → (errno == eintr) ≡ true
unfolding turn
turn-again r errno e = ground arith

turn-moved_pos : (r : Option ℕ) (errno n : ℕ) → turn r errno ≡ moved n → 1 ≤ n
unfolding turn
turn-moved_pos r errno n e = ground arith

write_loop-ends :
    (attempts : List SendAttempt) (ec : Option ErrorCode) (sent : ℕ) (wire rest : Bytes)
    → length rest ≤ uninterrupted attempts
    → (w : Written) × (write_loop attempts ec sent wire rest ≡ some w)
unfolding write_loop
write_loop-ends attempts ec sent wire [] h = (_, refl)
write_loop-ends [] ec sent wire (b ∷ rest) h = absurd (omega arith)
write_loop-ends (a ∷ attempts) ec sent wire (b ∷ rest) h =
    by_turn (turn (socket_write_impl a (length (b ∷ rest))) a.errno) refl
      (write_loop-ends attempts ec sent wire (b ∷ rest))
      (λ n. write_loop-ends attempts ec (sent + n) (wire ++ take n (b ∷ rest)) (drop n (b ∷ rest)))
  where
    by_turn :
        (t : Turn)
        → turn (socket_write_impl a (length (b ∷ rest))) a.errno ≡ t
        → (length (b ∷ rest) ≤ uninterrupted attempts
            → (w : Written) × (write_loop attempts ec sent wire (b ∷ rest) ≡ some w))
        → ((n : ℕ)
            → length (drop n (b ∷ rest)) ≤ uninterrupted attempts
            → (w : Written) × (write_loop attempts ec
                  (sent + n)
                  (wire ++ take n (b ∷ rest))
                  (drop n (b ∷ rest))
                ≡ some w))
        → (w : Written) × (write_loop (a ∷ attempts) ec sent wire (b ∷ rest) ≡ some w)
    by_turn again t retry on = rw (t, write_loop) (retry (ground (arith, turn-again _ a.errno t)))
    by_turn (stop x) t retry on = (
      record { sent = sent; wire = wire; ec = some x; attempts = attempts },
      rw (t, write_loop) refl,
    )
    by_turn (moved n) t retry on =
        rw (t, write_loop)
          (on n (ground (arith, turn-moved_pos _ a.errno n t, length-drop n (b ∷ rest))))

-- `socketWrite` ends when as many attempts as there are bytes go by without a signal.
socket_write_ends :
    (attempts : List SendAttempt) (ec : Option ErrorCode) (buffer : Bytes)
    → length buffer ≤ uninterrupted attempts
    → (w : Written) × (socket_write attempts ec buffer ≡ some w)
unfolding socket_write
socket_write_ends attempts ec buffer h = write_loop-ends attempts ec 0 [] buffer h
