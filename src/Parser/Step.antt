-- ===== src/Parser/Step.antt =====
-- RedisParser.cpp, the `switch` of `parseChunk`: one function for each case.
use redisclient_libary.Common.{
  Bytes, Bool, true, false, not, List, [], ◌∷◌, ◌++◌, ℕ, zero, suc, ◌+◌, ◌-◌, ◌==◌, ◌&&◌, ◌||◌, min,
  ltb, leb, length, take, if◌then◌else◌, Build, Result, ok, fault, assert, bad_range, ◌>>=◌, ◌>>◌,
}
use redisclient_libary.Common.Int.{ℤ, pos, negsuc}
use redisclient_libary.Value.{
  RedisValue, nil, null_value, int_value, bytes_value, error_value, array_value,
}
use redisclient_libary.Parser.Number.{buffer_to_long}

pub data Statement : Type 0 where
  start start_array string string_lf error_string error_lf integer integer_lf : Statement
  bulk_size bulk_size_lf bulk bulk_cr bulk_lf array_size array_size_lf : Statement

-- A stack is a list with its top in front.
pub record Parser : Type 0 where
  pub states : List Statement
  pub bulk_size : ℤ
  pub buf : Bytes
  pub redis_value : RedisValue
  pub array_sizes : List ℤ
  pub array_values : List RedisValue

-- What the switch does: a new state, with the number of bytes read beyond `c`, or `return Error`.
pub data Move : Type 0 where
  goto : Statement → Parser → ℕ → Move
  reject : Parser → Move

-- A byte from 128 on is a negative `char`.
abbrev pub is_char : ℕ → Bool
is_char c = leb c 127

abbrev pub is_control_char : ℕ → Bool
is_control_char c = leb c 31 || c == 127

-- `isdigit` in the "C" locale.
abbrev pub is_digit : ℕ → Bool
is_digit c = leb b'0' c && leb c b'9'

unfoldable pub is_start : Statement → Bool
is_start start = true
is_start _ = false

-- `std::stack<Statement>().swap(states)` and `return Error`.
abbrev pub fail : Parser → Move
fail p = reject (record p { states = [] })

abbrev pub push : Parser → ℕ → Parser
push p c = record p { buf = p.buf ++ c ∷ [] }

-- `case StartArray` falls through to `case Start`.
start_byte : Parser → ℕ → Move
start_byte p c =
    let q = record p { buf = [] } in
    if c == b'+'
    then goto string q 0
    else if c == b'-'
    then goto error_string q 0
    else if c == b':'
    then goto integer q 0
    else if c == b'$'
    then goto bulk_size q 0
    else if c == b'*'
    then goto bulk_size (record q { bulk_size = pos 0 }) 0
    else reject q

string_byte : Parser → ℕ → Move
string_byte p c =
    if c == b'\r'
    then goto string_lf p 0
    else if is_char c && not (is_control_char c)
    then goto string (push p c) 0
    else fail p

error_string_byte : Parser → ℕ → Move
error_string_byte p c =
    if c == b'\r'
    then goto error_lf p 0
    else if is_char c && not (is_control_char c)
    then goto error_string (push p c) 0
    else fail p

-- `buf.empty()` at the carriage return behind a number.
abbrev number_end : Statement → Parser → Bytes → Move
number_end s p [] = fail p
number_end s p (_ ∷ _) = goto s p 0

bulk_size_byte : Parser → ℕ → Move
bulk_size_byte p c =
    if c == b'\r'
    then number_end bulk_size_lf p p.buf
    else if is_digit c || c == b'-'
    then goto bulk_size (push p c) 0
    else fail p

string_lf_byte : Parser → ℕ → Move
string_lf_byte p c =
    if c == b'\n' then goto start (record p { redis_value = bytes_value p.buf }) 0 else fail p

error_lf_byte : Parser → ℕ → Move
error_lf_byte p c =
    if c == b'\n' then goto start (record p { redis_value = error_value p.buf }) 0 else fail p

-- The payload as far as the chunk holds it; `length rest` is `size - pos`.
unfoldable pub read_available : Parser → ℕ → Bytes → Move
read_available p n rest =
    let can_read = min n (length rest) in
    let q =
      if ltb 0 can_read
      then record p { buf = take can_read rest; bulk_size = pos (n - can_read) }
      else p in
    goto (if ltb 0 (n - can_read) then bulk else bulk_cr) q can_read

-- The branches on `bulkSize`: -1, 0, below 0, and a payload.
unfoldable pub sized : Parser → ℤ → Bytes → Move
unfolding read_available
sized p (negsuc zero) rest = goto start (record p { redis_value = null_value }) 0
sized p (pos zero) rest = goto bulk_cr p 0
sized p (negsuc (suc _)) rest = fail p
sized p (pos (suc n)) rest = read_available p (suc n) rest

bulk_size_lf_byte : Build → Parser → ℕ → Bytes → Result Move
unfolding sized
bulk_size_lf_byte build p c rest =
    if c == b'\n'
    then (do
      n ← buffer_to_long build p.buf
      ok (sized (record p { bulk_size = n; buf = [] }) n rest))
    else ok (fail p)

-- `available` is `size - pos + 1`, and the first byte of the range is `c`.
unfoldable pub read_bulk : Parser → ℕ → ℕ → Bytes → Move
read_bulk p n c rest =
    let can_read = min (length rest + 1) n in
    let q = record p { buf = p.buf ++ take can_read (c ∷ rest); bulk_size = pos (n - can_read) } in
    goto (if n - can_read == 0 then bulk_cr else bulk) q (can_read - 1)

bulk_cr_byte : Parser → ℕ → Move
bulk_cr_byte p c = if c == b'\r' then goto bulk_lf p 0 else fail p

-- Without the assertion a size of 0 steps back by a byte, which is then read in `BulkCR`, and one
-- below 0 inserts a range whose end is in front of its begin.
bulk_at : Build → Parser → ℤ → ℕ → Bytes → Result Move
unfolding read_bulk bulk_cr_byte
bulk_at build p (pos (suc n)) c rest = ok (read_bulk p (suc n) c rest)
bulk_at build p (pos zero) c rest = do assert build false; ok (bulk_cr_byte p c)
bulk_at build p (negsuc n) c rest = do assert build false; fault bad_range

bulk_lf_byte : Parser → ℕ → Move
bulk_lf_byte p c =
    if c == b'\n' then goto start (record p { redis_value = bytes_value p.buf }) 0 else fail p

array_size_byte : Parser → ℕ → Move
array_size_byte p c =
    if c == b'\r'
    then number_end array_size_lf p p.buf
    else if is_digit c || c == b'-'
    then goto array_size (push p c) 0
    else fail p

-- The branches on `arraySize`: -1, 0, below 0, and items to come.
unfoldable pub array_sized : Parser → ℤ → Move
array_sized p (negsuc zero) = goto start (record p { redis_value = null_value }) 0
array_sized p (pos zero) = goto start (record p { redis_value = array_value nil }) 0
array_sized p (negsuc (suc _)) = fail p
array_sized p (pos (suc n)) =
    goto start_array
      (record p {
        array_sizes = pos (suc n) ∷ p.array_sizes;
        array_values = array_value nil ∷ p.array_values;
      })
      0

array_size_lf_byte : Build → Parser → ℕ → Result Move
unfolding array_sized
array_size_lf_byte build p c =
    if c == b'\n' then (do n ← buffer_to_long build p.buf; ok (array_sized p n)) else ok (fail p)

integer_byte : Parser → ℕ → Move
integer_byte p c =
    if c == b'\r'
    then number_end integer_lf p p.buf
    else if is_digit c || c == b'-'
    then goto integer (push p c) 0
    else fail p

integer_lf_byte : Build → Parser → ℕ → Result Move
integer_lf_byte build p c =
    if c == b'\n'
    then (do
      n ← buffer_to_long build p.buf
      ok (goto start (record p { redis_value = int_value n; buf = [] }) 0))
    else ok (fail p)

-- The switch. `rest` is the part of the chunk behind `c`.
unfoldable pub step : Build → Statement → Parser → ℕ → Bytes → Result Move
unfolding start_byte string_byte error_string_byte bulk_size_byte string_lf_byte error_lf_byte
    bulk_size_lf_byte bulk_at bulk_cr_byte bulk_lf_byte array_size_byte array_size_lf_byte
    integer_byte integer_lf_byte
step build start_array p c rest = ok (start_byte p c)
step build start p c rest = ok (start_byte p c)
step build string p c rest = ok (string_byte p c)
step build error_string p c rest = ok (error_string_byte p c)
step build bulk_size p c rest = ok (bulk_size_byte p c)
step build string_lf p c rest = ok (string_lf_byte p c)
step build error_lf p c rest = ok (error_lf_byte p c)
step build bulk_size_lf p c rest = bulk_size_lf_byte build p c rest
step build bulk p c rest = bulk_at build p p.bulk_size c rest
step build bulk_cr p c rest = ok (bulk_cr_byte p c)
step build bulk_lf p c rest = ok (bulk_lf_byte p c)
step build array_size p c rest = ok (array_size_byte p c)
step build array_size_lf p c rest = array_size_lf_byte build p c
step build integer p c rest = ok (integer_byte p c)
step build integer_lf p c rest = integer_lf_byte build p c
