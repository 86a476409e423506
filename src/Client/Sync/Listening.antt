-- ===== src/Client/Sync/Listening.antt =====
-- The rounds of `syncReadResponse` for chunks that arrive.
use native.Mathlib.Nat.{zero-add}
use redisclient_libary.Common.{
  Bytes, true, false, List, [], ◌∷◌, ℕ, zero, suc, ◌+◌, ◌≤◌, length, take, drop, drop-length, map,
  none, some, Build, ok, ◌≡◌, refl, ap, arith,
}
use redisclient_libary.Parser.Step.{Parser}
use redisclient_libary.Parser.Bounds.{parse_bounds}
use redisclient_libary.Parser.{completed, uncompleted, Parsed, parse, result}
use redisclient_libary.Socket.{ready, RecvAttempt, socket_read_some, socket_read_some_impl}
use redisclient_libary.Client.{returned}
use redisclient_libary.Client.Sync.{OnError, Sync, capacity, fill, scan}

-- An attempt in which the peer's bytes are there.
abbrev pub arriving : Bytes → RecvAttempt
arriving chunk = record {
  option_set = true;
  polled = ready;
  received = λ n. some (take n chunk);
  errno = 0;
}

-- What the client reads in one piece.
abbrev pub IsChunk : Bytes → Type 0
IsChunk chunk = (1 ≤ length chunk) × (length chunk ≤ capacity)

-- The client `c` with a parser and a buffer, when chunks are to arrive and no error is left over.
abbrev pub listening : Sync → Parser → Bytes → List Bytes → Sync
listening c p b chunks = record c { parser = p; buf = b; receives = map arriving chunks; ec = none }

pub suc_two : (n : ℕ) → n + 2 ≡ suc (suc n)
suc_two n = omega arith

module _ ⦃errors : OnError⦄ (build : Build) (c : Sync) where
  take-all : (n : ℕ) (xs : Bytes) → length xs ≤ n → take n xs ≡ xs
  take-all zero [] h = refl
  take-all zero (x ∷ xs) h = absurd (omega arith)
  take-all (suc n) [] h = refl
  take-all (suc n) (x ∷ xs) h = ap (◌∷◌ x) (take-all n xs (omega arith))

  pub fill-listening :
      (p : Parser) (b : ℕ) (bs : Bytes) (chunks : List Bytes)
      → length (b ∷ bs) ≤ capacity
      → fill (listening c p [] ((b ∷ bs) ∷ chunks)) ≡ returned false (listening c p (b ∷ bs) chunks)
  unfolding fill socket_read_some socket_read_some_impl
  fill-listening p b bs chunks h = rw (take-all capacity (b ∷ bs) h) refl

  pub fill-held :
      (p : Parser) (b : ℕ) (bs : Bytes) (chunks : List Bytes)
      → fill (listening c p (b ∷ bs) chunks) ≡ returned false (listening c p (b ∷ bs) chunks)
  unfolding fill
  fill-held p b bs chunks = refl

  pub scan-completed :
      (p : Parser) (b : ℕ) (bs : Bytes) (chunks : List Bytes) (r : Parsed)
      → parse build p (b ∷ bs) ≡ ok r
      → r.result ≡ completed
      → scan build (length (b ∷ bs)) 0 (listening c p (b ∷ bs) chunks)
        ≡ returned
            (some r.parser.redis_value)
            (listening c (result r.parser).1 (drop r.consumed (b ∷ bs)) chunks)
  unfolding scan result
  scan-completed p b bs chunks r e done = rw (e, done, zero-add r.consumed) refl

  pub scan-nil :
      (fuel n : ℕ) (p : Parser) (chunks : List Bytes)
      → scan build fuel (suc n) (listening c p [] chunks) ≡ returned none (listening c p [] chunks)
  unfolding scan
  scan-nil zero n p chunks = refl
  scan-nil (suc fuel) n p chunks = refl

  pub scan-uncompleted :
      (p : Parser) (b : ℕ) (bs : Bytes) (chunks : List Bytes) (r : Parsed)
      → parse build p (b ∷ bs) ≡ ok r
      → r.result ≡ uncompleted
      → scan build (length (b ∷ bs)) 0 (listening c p (b ∷ bs) chunks)
        ≡ returned none (listening c r.parser [] chunks)
  unfolding scan result
  scan-uncompleted p b bs chunks r e u =
      let (_, _, all) = parse_bounds build p b bs r e in
      rw (e, u, zero-add r.consumed, all u, drop-length bs)
        (scan-nil (length bs) (length bs) r.parser chunks)
