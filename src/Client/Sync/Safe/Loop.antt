-- ===== src/Client/Sync/Safe/Loop.antt =====
-- The outer loop of `syncReadResponse`: how it ends, whatever the system answers and the peer sends.
use mathlib.Core.Path.{subst}
use redisclient_libary.Common.{
  Bytes, true, false, List, [], ◌∷◌, ◌++◌, ℕ, zero, suc, ◌+◌, ◌≤◌, length, length-append, All,
  Option, none, some, Build, ◌≡◌, refl, ap, sym, arith,
}
use redisclient_libary.Value.{RedisValue, is_array}
use redisclient_libary.Parser.Number.Faults.{IsNumberFault}
use redisclient_libary.Socket.{ErrorCode, RecvAttempt, Received, socket_read_some}
use redisclient_libary.Socket.Reads.{
  IsRecv, Decides, stored, ended, failed, ReadOutcome, socket_read_some-ReadOutcome,
}
use redisclient_libary.Client.{Ended, returned, thrown, crashed, waiting, ◌>>=◌}
use redisclient_libary.Client.Sync.{
  OnError, Sync, capacity, fill, response_round, response_loop, sync_read_response,
}
use redisclient_libary.Client.Sync.Safe.{
  ErrorsKeepReadable, IsReadable, EndsSafely, ScanEnds, holding, scan-ScanEnds,
}

-- The rounds that the outer loop needs: one for each attempt, one for the bytes that are held, and one.
abbrev rounds : Bytes → List RecvAttempt → ℕ
rounds [] receives = length receives + 1
rounds (_ ∷ _) receives = length receives + 2

All-behind :
    (xs : List RecvAttempt) (y : RecvAttempt) (ys : List RecvAttempt)
    → All IsRecv (xs ++ y ∷ ys)
    → All IsRecv ys
All-behind [] y ys h = h.1
All-behind (x ∷ xs) y ys h = All-behind xs y ys h.1

Decides-room :
    {ec : Option ErrorCode} {size : ℕ} {a : RecvAttempt} (bs : Bytes) {e : Option ErrorCode}
    → Decides ec size a bs e
    → length bs ≤ size
Decides-room _ (stored b bs f l) = l
Decides-room _ (ended f) = omega arith
Decides-room _ (failed f g) = omega arith

-- A round of the outer loop that finds no value leaves fewer rounds to come.
abbrev RoundEnds : ℕ → Ended Sync (Option RedisValue) → Type 0
RoundEnds n (returned none d) = IsReadable d × (d.buf ≡ []) × (length d.receives + 2 ≤ n)
RoundEnds n (returned (some v) d) = IsReadable d × (is_array v ≡ false)
RoundEnds n (thrown e d) = IsReadable d
RoundEnds n (crashed f) = IsNumberFault f
RoundEnds n waiting = Unit

ScanEnds-RoundEnds :
    (c : Sync) (n : ℕ) (e : Ended Sync (Option RedisValue))
    → length c.receives + 2 ≤ n
    → ScanEnds c e
    → RoundEnds n e
ScanEnds-RoundEnds c n (returned none d) l (h, f, g) = (h, f, omega (arith, ap length g))
ScanEnds-RoundEnds c n (returned (some v) d) l h = h
ScanEnds-RoundEnds c n (thrown e d) l h = h
ScanEnds-RoundEnds c n (crashed f) l h = h
ScanEnds-RoundEnds c n waiting l h = tt

module _ ⦃errors : OnError⦄ (safe : ErrorsKeepReadable errors) (build : Build) where
  -- What a read leaves.
  got-IsReadable :
      (c : Sync) (got : Received) (ec : Option ErrorCode)
      → IsReadable (holding c [])
      → ReadOutcome c.receives c.ec capacity got
      → IsReadable (holding (record c { ec = ec; receives = got.attempts }) got.bytes)
  got-IsReadable c got ec h o = record {
    flat = h.flat;
    in_room = Decides-room got.bytes o.decided;
    receives =
        All-behind o.interrupted o.last got.attempts (subst (All IsRecv) o.in_order h.receives);
  }

  fewer_attempts :
      (c : Sync) (got : Received)
      → ReadOutcome c.receives c.ec capacity got
      → length got.attempts + 2 ≤ rounds [] c.receives
  fewer_attempts c got o =
      omega (arith, ap length o.in_order, length-append o.interrupted (o.last ∷ got.attempts))

  fill-got :
      (c : Sync) (got : Received) (ec : Option ErrorCode)
      → socket_read_some c.receives c.ec capacity ≡ some got
      → got.ec ≡ ec
      → fill (holding c [])
        ≡ returned
            (elim ec [ none ↦ false | some _ ↦ true ])
            (holding (record c { ec = ec; receives = got.attempts }) got.bytes)
  unfolding fill
  fill-got c got ec e f = rw (fill, e, f) refl

  fill-waits :
      (c : Sync) → socket_read_some c.receives c.ec capacity ≡ none → fill (holding c []) ≡ waiting
  unfolding fill
  fill-waits c e = rw (fill, e) refl

  round-got :
      (c : Sync) (got : Received) (ec : Option ErrorCode)
      → IsReadable (holding c [])
      → socket_read_some c.receives c.ec capacity ≡ some got
      → got.ec ≡ ec
      → RoundEnds (rounds [] c.receives) (response_round build (holding c []))
  unfolding response_round is_array
  round-got c got none h e f =
      let o = socket_read_some-ReadOutcome c.ec capacity c.receives got h.receives e in
      let d = record c { ec = none; receives = got.attempts } in
      rw (response_round, fill-got c got none e f, ◌>>=◌)
        (ScanEnds-RoundEnds d (rounds [] c.receives) _ (fewer_attempts c got o)
          (scan-ScanEnds safe build d got.bytes (got-IsReadable c got none h o)))
  round-got c got (some x) h e f =
      let o = socket_read_some-ReadOutcome c.ec capacity c.receives got h.receives e in
      rw (response_round, fill-got c got (some x) e f, ◌>>=◌)
        (got-IsReadable c got (some x) h o, refl)

  round-read :
      (c : Sync) (read : Option Received)
      → IsReadable (holding c [])
      → socket_read_some c.receives c.ec capacity ≡ read
      → RoundEnds (rounds [] c.receives) (response_round build (holding c []))
  unfolding response_round
  round-read c none h e = rw (response_round, fill-waits c e, ◌>>=◌) tt
  round-read c (some got) h e = round-got c got got.ec h e refl

  response_round-RoundEnds :
      (c : Sync) (bs : Bytes)
      → IsReadable (holding c bs)
      → RoundEnds (rounds bs c.receives) (response_round build (holding c bs))
  unfolding response_round fill
  response_round-RoundEnds c (b ∷ bs) h =
      ScanEnds-RoundEnds c (length c.receives + 2) _ (omega arith)
        (scan-ScanEnds safe build c (b ∷ bs) h)
  response_round-RoundEnds c [] h = round-read c (socket_read_some c.receives c.ec capacity) h refl

  loop-ends :
      (c : Sync) (n fuel : ℕ) (e : Ended Sync (Option RedisValue))
      → response_round build c ≡ e
      → n ≤ suc fuel
      → RoundEnds n e
      → ((d : Sync)
          → IsReadable (holding d [])
          → length d.receives + 1 ≤ fuel
          → EndsSafely (response_loop build fuel (holding d [])))
      → EndsSafely (response_loop build (suc fuel) c)
  unfolding response_loop
  loop-ends c n fuel (returned none d) f l (h, empty, m) more =
      let same : holding d [] ≡ d = ap (λ b. record d { buf = b }) (sym empty) in
      rw (f, ◌>>=◌)
        (subst (λ x. EndsSafely (response_loop build fuel x)) same
          (more d (subst IsReadable (sym same) h) (omega arith)))
  loop-ends c n fuel (returned (some v) d) f l h more = rw (f, ◌>>=◌) h
  loop-ends c n fuel (thrown x d) f l h more = rw (f, ◌>>=◌) h
  loop-ends c n fuel (crashed x) f l h more = rw (f, ◌>>=◌) h
  loop-ends c n fuel waiting f l h more = rw (f, ◌>>=◌) tt

  response_loop-EndsSafely :
      (fuel : ℕ) (c : Sync) (bs : Bytes)
      → IsReadable (holding c bs)
      → rounds bs c.receives ≤ fuel
      → EndsSafely (response_loop build fuel (holding c bs))
  response_loop-EndsSafely zero c [] h l = absurd (omega arith)
  response_loop-EndsSafely zero c (b ∷ bs) h l = absurd (omega arith)
  response_loop-EndsSafely (suc fuel) c bs h l =
      loop-ends (holding c bs) (rounds bs c.receives) fuel (response_round build (holding c bs))
        refl l (response_round-RoundEnds c bs h) (λ d r m. response_loop-EndsSafely fuel d [] r m)

enough_rounds :
    (bs : Bytes) (receives : List RecvAttempt) → rounds bs receives ≤ length receives + 2
enough_rounds [] receives = omega arith
enough_rounds (_ ∷ _) receives = omega arith

-- `syncReadResponse` ends, whatever bytes the peer sends in whatever pieces, and however the system
-- fails: it returns a value, which is never an array; or the error handler throws; or `bufferToLong`
-- fails at its assertion or by an overflow; or the operation waits for the system. The parser stays
-- outside of any array, and what is kept in the buffer fits it. The function that is
-- installed for errors is taken to keep this, and `recv` to store no more than it is offered room for.
pub sync_read_response-EndsSafely :
    ⦃errors : OnError⦄ (safe : ErrorsKeepReadable errors) (build : Build) (c : Sync)
    → IsReadable c
    → EndsSafely (sync_read_response build c)
unfolding sync_read_response
sync_read_response-EndsSafely safe build c h =
    response_loop-EndsSafely safe build (length c.receives + 2) c c.buf h
      (enough_rounds c.buf c.receives)
