-- ===== src/Socket/Reads.antt =====
-- What `socketReadSome` stores.
use mathlib.Core.Path.{subst}
use mathlib.Core.Option.{some-injective}
use redisclient_libary.Common.{
  Bytes, true, false, List, [], ◌∷◌, ◌++◌, ℕ, ◌≤◌, ◌==◌, length, Option, none, some, ◌≡◌, refl, ap,
  arith, All, Bool-cases, inl, inr,
}
use redisclient_libary.Socket.{
  ErrorCode, eof, system, eintr, RecvAttempt, Received, socket_read_some_impl, socket_read_some,
}

-- `recv` stores no more than it is offered room for.
abbrev pub IsRecv : RecvAttempt → Type 0
IsRecv a = (n : ℕ) (bs : Bytes) → a.received n ≡ some bs → length bs ≤ n

-- A signal ends the attempt.
abbrev pub IsInterrupted : ℕ → RecvAttempt → Type 0
IsInterrupted size a = (socket_read_some_impl a size ≡ none) × ((a.errno == eintr) ≡ true)

-- What the attempt that ends the loop says of its result.
pub data Decides (ec : Option ErrorCode) (size : ℕ) (a : RecvAttempt)
    : Bytes → Option ErrorCode → Type 0 where
  stored :
      (b : ℕ) (bs : Bytes)
      → socket_read_some_impl a size ≡ some (b ∷ bs)
      → length (b ∷ bs) ≤ size
      → Decides ec size a (b ∷ bs) ec
  ended : socket_read_some_impl a size ≡ some [] → Decides ec size a [] (some eof)
  failed :
      socket_read_some_impl a size ≡ none
      → (a.errno == eintr) ≡ false
      → Decides ec size a [] (some (system a.errno))

-- Attempts that signals end, and one behind them that decides.
pub record ReadOutcome (attempts : List RecvAttempt) (ec : Option ErrorCode) (size : ℕ)
    (got : Received) : Type 0 where
  pub interrupted : List RecvAttempt
  pub last : RecvAttempt
  pub in_order : attempts ≡ interrupted ++ last ∷ got.attempts
  pub by_signals : All (IsInterrupted size) interrupted
  pub decided : Decides ec size last got.bytes got.ec

received-room :
    (a : RecvAttempt) (size : ℕ) (bs : Bytes)
    → IsRecv a
    → socket_read_some_impl a size ≡ some bs
    → length bs ≤ size
unfolding socket_read_some_impl
received-room a size bs h e = ground (arith, h size bs)

ReadOutcome-retry :
    (a : RecvAttempt) (attempts : List RecvAttempt) (ec : Option ErrorCode) (size : ℕ)
    (got : Received)
    → IsInterrupted size a
    → ReadOutcome attempts ec size got
    → ReadOutcome (a ∷ attempts) ec size got
ReadOutcome-retry a attempts ec size got i o = record {
  interrupted = a ∷ o.interrupted;
  last = o.last;
  in_order = ap (◌∷◌ a) o.in_order;
  by_signals = (i, o.by_signals);
  decided = o.decided;
}

module _ (ec : Option ErrorCode) (size : ℕ) where
  first_attempt :
      (a : RecvAttempt) (attempts : List RecvAttempt) (r : Option Bytes) (got : Received)
      → IsRecv a
      → socket_read_some_impl a size ≡ r
      → (socket_read_some attempts ec size ≡ some got → ReadOutcome attempts ec size got)
      → socket_read_some (a ∷ attempts) ec size ≡ some got
      → ReadOutcome (a ∷ attempts) ec size got
  unfolding socket_read_some
  first_attempt a attempts none got h e more f = elim (Bool-cases (a.errno == eintr)) [
    | inl i ↦
        ReadOutcome-retry a attempts ec size got (e, i) (more (rw (socket_read_some, e, i) at f))
    | inr i ↦
        subst (ReadOutcome (a ∷ attempts) ec size)
          (some-injective _ _ (rw (socket_read_some, e, i) at f))
          (record {
            interrupted = [];
            last = a;
            in_order = refl;
            by_signals = tt;
            decided = failed e i;
          })
  ]
  first_attempt a attempts (some []) got h e more f =
      subst (ReadOutcome (a ∷ attempts) ec size)
        (some-injective _ _ (rw (socket_read_some, e) at f))
        (record { interrupted = []; last = a; in_order = refl; by_signals = tt; decided = ended e })
  first_attempt a attempts (some (b ∷ bs)) got h e more f =
      subst (ReadOutcome (a ∷ attempts) ec size)
        (some-injective _ _ (rw (socket_read_some, e) at f))
        (record {
          interrupted = [];
          last = a;
          in_order = refl;
          by_signals = tt;
          decided = stored b bs e (received-room a size (b ∷ bs) h e);
        })

  -- `socketReadSome` tries again while a signal ends its attempt, and the next attempt decides: the
  -- bytes that it stored, at least one and no more than the buffer has room for, with the error code as
  -- the caller left it; or none, with the code for the end of file if the peer closed or the time ran
  -- out, and otherwise with the system's. `recv` is taken to store no more than there is room for.
  pub socket_read_some-ReadOutcome :
      (attempts : List RecvAttempt) (got : Received)
      → All IsRecv attempts
      → socket_read_some attempts ec size ≡ some got
      → ReadOutcome attempts ec size got
  unfolding socket_read_some
  socket_read_some-ReadOutcome [] got h e = cc e
  socket_read_some-ReadOutcome (a ∷ attempts) got (ha, h) e =
      first_attempt a attempts (socket_read_some_impl a size) got ha refl
        (socket_read_some-ReadOutcome attempts got h) e
