-- ===== src/Parser.antt =====
-- src/redisclient/RedisParser.h and RedisParser.cpp: the incremental parser of replies.
-- The debug output of the loop is left out, and memory is taken to suffice (`reserve` has no effect).
pub mod Number
pub mod Step
pub mod Complete
pub mod Bytewise
pub mod Reference
pub mod Chunks
pub mod Bounds
pub mod Split
pub mod Print
pub mod Stream
pub mod Kept
pub mod Frames
pub mod Calls
pub mod Nested
pub mod Flat
pub mod Lines
pub mod Delivery
pub mod Replies
pub mod Yields
pub mod Pieces
pub mod Arrays
use redisclient_libary.Common.{
  Bytes, Bool, true, false, List, [], ◌∷◌, ℕ, zero, suc, ◌+◌, length, drop, if◌then◌else◌, Build,
  Result, ok, fault, out_of_fuel, ◌>>=◌, ◌&&◌,
}
use redisclient_libary.Value.{RedisValue, null_value, moved_from}
use Step.{Statement, start, Parser, Move, goto, reject, is_start, step}
use Complete.{complete}
use redisclient_libary.Common.Int.{pos}

-- The constructor.
abbrev pub new_parser : Parser
new_parser = record {
  states = [];
  bulk_size = pos 0;
  buf = [];
  redis_value = null_value;
  array_sizes = [];
  array_values = [];
}

pub data ParseResult : Type 0 where
  completed uncompleted error : ParseResult

-- What `parse` returns, with the parser that it leaves.
pub record Parsed : Type 0 where
  pub consumed : ℕ
  pub result : ParseResult
  pub parser : Parser

abbrev pub is_empty {ℓ} : {A : Type ℓ} → List A → Bool
is_empty [] = true
is_empty (x ∷ xs) = false

-- How a round of the loop ends. The number counts the bytes read beyond `c`.
pub data Round : Type 0 where
  go_on break_out : Statement → Parser → ℕ → Round
  give_up : Parser → Round

-- The block `if (state == Start)` at the end of a round.
unfoldable pub after : Build → Move → Result Round
unfolding is_start complete
after build (reject p) = ok (give_up p)
after build (goto s p k) =
    if is_start s
    then (do
      q ← complete build p
      ok (if is_empty q.array_sizes then break_out s q k else go_on s q k))
    else ok (go_on s p k)

-- The code after the loop.
unfoldable pub leave : Statement → Parser → ℕ → Parsed
unfolding is_start
leave s p n =
    if is_empty p.array_sizes && is_start s
    then record { consumed = n; result = completed; parser = p }
    else record { consumed = n; result = uncompleted; parser = record p { states = s ∷ p.states } }

-- What follows a round: the next one, `break` or `return`.
unfoldable pub conclude :
    (Statement → Parser → ℕ → Result Parsed) → ℕ → Result Round → Result Parsed
unfolding leave
conclude again n (fault e) = fault e
conclude again n (ok (go_on s q k)) = again s q k
conclude again n (ok (break_out s q k)) = ok (leave s q (n + 1 + k))
conclude again n (ok (give_up q)) = ok (record { consumed = n + 1; result = error; parser = q })

-- `while (pos < size)`: the list holds the bytes from `ptr + pos` up to `ptr + size`, so that its
-- length is `size - pos`. Each round reads one byte at least, and `size` rounds are enough.
unfoldable pub loop : Build → ℕ → Statement → Parser → ℕ → Bytes → Result Parsed
unfolding step after leave conclude
loop build fuel s p n [] = ok (leave s p n)
loop build zero s p n (c ∷ rest) = fault out_of_fuel
loop build (suc fuel) s p n (c ∷ rest) =
    conclude (λ s' q k. loop build fuel s' q (n + 1 + k) (drop k rest)) n
      (step build s p c rest >>= after build)

-- The saved state is taken off the stack, `Start` if there is none.
abbrev pub resumed : List Statement → Statement
resumed [] = start
resumed (s ∷ ss) = s

abbrev pub rest_states : List Statement → List Statement
rest_states [] = []
rest_states (s ∷ ss) = ss

unfoldable pub parse_chunk : Build → Parser → Bytes → Result Parsed
unfolding loop
parse_chunk build p input =
    loop build (length input) (resumed p.states) (record p { states = rest_states p.states }) 0
      input

unfoldable pub parse : Build → Parser → Bytes → Result Parsed
unfolding parse_chunk
parse build p input = parse_chunk build p input

-- `result` moves the value out.
unfoldable pub result : Parser → RedisValue × Parser
unfolding moved_from
result p = (p.redis_value, record p { redis_value = moved_from p.redis_value })
