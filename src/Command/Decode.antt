-- ===== src/Command/Decode.antt =====
-- What a request says, by the Redis protocol: an independent reader of the bytes that a server gets.
use redisclient_libary.Common.{
  Bytes, true, false, List, [], ◌∷◌, ℕ, zero, suc, ◌+◌, ◌-◌, ◌*◌, ◌==◌, ◌&&◌, leb, if◌then◌else◌,
  Option, none, some,
}

infixl 5 ◌>>=◌
abbrev pub ◌>>=◌ {ℓ κ} : {A : Type ℓ} {B : Type κ} → Option A → (A → Option B) → Option B
none >>= f = none
some a >>= f = f a

-- One byte that must be there.
unfoldable pub expect : ℕ → Bytes → Option Bytes
expect c [] = none
expect c (d ∷ ds) = if c == d then some ds else none

-- Digits up to a line's end, behind a number read so far.
unfoldable pub read_number : ℕ → Bytes → Option (ℕ × Bytes)
unfolding expect
read_number n [] = none
read_number n (c ∷ cs) = elim (c == b'\r') [
  | true ↦ do rest ← expect b'\n' cs; some (n, rest)
  | false ↦ elim (leb b'0' c && leb c b'9') [
    | true ↦ read_number (n * 10 + (c - b'0')) cs
    | false ↦ none
  ]
]

-- A number of bytes.
unfoldable pub read_bytes : ℕ → Bytes → Option (Bytes × Bytes)
read_bytes zero cs = some ([], cs)
read_bytes (suc n) [] = none
read_bytes (suc n) (c ∷ cs) = do (s, rest) ← read_bytes n cs; some (c ∷ s, rest)

unfoldable pub read_item : Bytes → Option (Bytes × Bytes)
unfolding expect read_number read_bytes
read_item cs = do
  sized ← expect b'$' cs
  (n, body) ← read_number 0 sized
  (s, tail) ← read_bytes n body
  line ← expect b'\r' tail
  rest ← expect b'\n' line
  some (s, rest)

unfoldable pub read_items : ℕ → Bytes → Option (List Bytes × Bytes)
unfolding read_item
read_items zero cs = some ([], cs)
read_items (suc n) cs = do
  (s, more) ← read_item cs
  (ss, rest) ← read_items n more
  some (s ∷ ss, rest)

-- One request, and what stands behind it.
unfoldable pub read_request : Bytes → Option (List Bytes × Bytes)
unfolding read_items
read_request cs = do sized ← expect b'*' cs; (n, body) ← read_number 0 sized; read_items n body

-- Several requests, one behind the other.
unfoldable pub read_requests : ℕ → Bytes → Option (List (List Bytes) × Bytes)
unfolding read_request
read_requests zero cs = some ([], cs)
read_requests (suc n) cs = do
  (r, more) ← read_request cs
  (rs, rest) ← read_requests n more
  some (r ∷ rs, rest)
