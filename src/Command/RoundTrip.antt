-- ===== src/Command/RoundTrip.antt =====
-- `makeCommand` against the reader of requests.
use redisclient_libary.Common.{
  Bytes, List, [], ◌∷◌, ◌++◌, ℕ, ◌+◌, ◌-◌, ◌*◌, length, length-map, some, map, ◌≡◌, refl, ap, ◌∙◌,
  arith, All, append_assoc,
}
use redisclient_libary.Common.Decimal.{
  IsDigit, spelled, to_string, spelled-to_string, to_string-IsDigit,
}
use redisclient_libary.Buffer.{RedisBuffer, text, raw, content}
use redisclient_libary.Command.Decode.{
  read_number, read_bytes, read_item, read_items, read_request, read_requests,
}
use redisclient_libary.Command.{append_items, make_command}

-- An item and what follows it.
abbrev item_text : Bytes → Bytes → Bytes
item_text s rest = b'$' ∷ (to_string (length s) ++ (b'\r' ∷ b'\n' ∷ (s ++ (b'\r' ∷ b'\n' ∷ rest))))

abbrev items_text : List Bytes → Bytes → Bytes
items_text [] rest = rest
items_text (s ∷ ss) rest = item_text s (items_text ss rest)

abbrev request_text : List Bytes → Bytes → Bytes
request_text ss rest = b'*' ∷ (to_string (length ss) ++ (b'\r' ∷ b'\n' ∷ items_text ss rest))

append_items-text :
    (items : List RedisBuffer) (result rest : Bytes)
    → append_items result items ++ rest ≡ result ++ items_text (map content items) rest
unfolding append_items
append_items-text [] result rest = refl
append_items-text (text s ∷ items) result rest = append_items-text items _ rest ∙ simp append_assoc
append_items-text (raw s ∷ items) result rest = append_items-text items _ rest ∙ simp append_assoc

make_command-text :
    (items : List RedisBuffer) (rest : Bytes)
    → make_command items ++ rest ≡ request_text (map content items) rest
unfolding make_command
make_command-text items rest = append_items-text items _ rest ∙ simp (append_assoc, length-map)

read_number-digits :
    (ds : Bytes) (n : ℕ) (rest : Bytes)
    → All IsDigit ds
    → read_number n (ds ++ (b'\r' ∷ b'\n' ∷ rest)) ≡ some (spelled n ds, rest)
unfolding read_number
read_number-digits [] n rest a = refl
read_number-digits (d ∷ ds) n rest a =
    ground (arith, read_number-digits ds (n * 10 + (d - b'0')) rest a.1)

read_bytes-append : (s rest : Bytes) → read_bytes (length s) (s ++ rest) ≡ some (s, rest)
unfolding read_bytes
read_bytes-append [] rest = refl
read_bytes-append (c ∷ s) rest = rw (read_bytes-append s rest)

read_number-to_string :
    (n : ℕ) (rest : Bytes) → read_number 0 (to_string n ++ (b'\r' ∷ b'\n' ∷ rest)) ≡ some (n, rest)
read_number-to_string n rest =
    read_number-digits (to_string n) 0 rest (to_string-IsDigit n)
    ∙ ap (λ k. some (k, rest)) (spelled-to_string n)

read_item-text : (s rest : Bytes) → read_item (item_text s rest) ≡ some (s, rest)
unfolding read_item
read_item-text s rest =
    rw (read_number-to_string (length s) (s ++ (b'\r' ∷ b'\n' ∷ rest)))
      (rw (read_bytes-append s (b'\r' ∷ b'\n' ∷ rest)))

read_items-text :
    (ss : List Bytes) (rest : Bytes) → read_items (length ss) (items_text ss rest) ≡ some (ss, rest)
unfolding read_items
read_items-text [] rest = refl
read_items-text (s ∷ ss) rest =
    rw (read_item-text s (items_text ss rest)) (rw (read_items-text ss rest))

-- The reader of requests gets back the contents of the items that `makeCommand` was given, each byte
-- of them, and stops right behind the request.
pub read_request-make_command :
    (items : List RedisBuffer) (rest : Bytes)
    → read_request (make_command items ++ rest) ≡ some (map content items, rest)
unfolding read_request
read_request-make_command items rest =
    ap read_request (make_command-text items rest)
    ∙ rw (read_number-to_string (length (map content items)) (items_text (map content items) rest))
        (read_items-text (map content items) rest)

-- The requests of a pipeline as they stand in the stream.
abbrev pub requests : List (List RedisBuffer) → Bytes
requests [] = []
requests (items ∷ commands) = make_command items ++ requests commands

-- Requests that are written one behind the other are read as they were made, in their order.
pub read_requests-requests :
    (commands : List (List RedisBuffer)) (rest : Bytes)
    → read_requests (length commands) (requests commands ++ rest)
      ≡ some (map (map content) commands, rest)
unfolding read_requests
read_requests-requests [] rest = refl
read_requests-requests (items ∷ commands) rest =
    rw (append_assoc (make_command items) (requests commands) rest) (
      rw (read_request-make_command items (requests commands ++ rest))
        (rw (read_requests-requests commands rest)))
