-- ===== src/Socket.antt =====
-- src/redisclient/RedisClientImpl.cpp, the socket functions of the unnamed namespace.
-- What the system answers to the calls of one attempt is an argument: a list with an entry for each
-- attempt to come. Where it ends before a loop does, the loop still runs, and the result is `none`.
-- The timeouts are passed on to the system, which keeps them.
pub mod Transfer
pub mod Buffers
pub mod Reads
use redisclient_libary.Common.{
  Bytes, Bool, List, [], ◌∷◌, ◌++◌, ℕ, zero, suc, ◌+◌, ◌-◌, ◌==◌, length, take, drop, Option, none,
  some, if◌then◌else◌,
}

-- An `error_code` that is set: end of file, or a system error with its number.
pub data ErrorCode : Type 0 where
  eof : ErrorCode
  system : ℕ → ErrorCode

-- EINTR
abbrev pub eintr : ℕ
eintr = 4

-- The answer of `poll`: above 0, 0 and -1.
pub data Poll : Type 0 where
  ready timed_out poll_failed : Poll

-- Whether `setsockopt` returned 0, the answer of `poll`, that of `send` for the room that is left,
-- where `none` is -1, and `errno`, which a call that fails sets to a number above 0.
pub record SendAttempt : Type 0 where
  pub option_set : Bool
  pub polled : Poll
  pub accepted : ℕ → Option ℕ
  pub errno : ℕ

-- The same for `recv`, which fails or stores bytes in the room that is offered.
pub record RecvAttempt : Type 0 where
  pub option_set : Bool
  pub polled : Poll
  pub received : ℕ → Option Bytes
  pub errno : ℕ

unfoldable pub socket_write_impl : SendAttempt → ℕ → Option ℕ
socket_write_impl a size =
    if a.option_set
    then elim a.polled [ ready ↦ a.accepted size | timed_out ↦ some 0 | poll_failed ↦ none ]
    else none

-- `none` is -1, and 0 is the empty list of bytes.
unfoldable pub socket_read_some_impl : RecvAttempt → ℕ → Option Bytes
socket_read_some_impl a size =
    if a.option_set
    then elim a.polled [ ready ↦ a.received size | timed_out ↦ some [] | poll_failed ↦ none ]
    else none

-- How `socketWrite` ends: the count, the bytes that went out, the error code and the attempts left.
pub record Written : Type 0 where
  pub sent : ℕ
  pub wire : Bytes
  pub ec : Option ErrorCode
  pub attempts : List SendAttempt

-- One result of `socketWriteImpl` in the loop: `continue`, `break` with a code, or progress.
pub data Turn : Type 0 where
  again : Turn
  stop : ErrorCode → Turn
  moved : ℕ → Turn

unfoldable pub turn : Option ℕ → ℕ → Turn
turn none errno = if errno == eintr then again else stop (system errno)
turn (some zero) errno = stop eof
turn (some (suc n)) errno = moved (suc n)

-- `while (bytesSend < buffer_size(buffer))`; the rest is `buffer + bytesSend`.
unfoldable pub write_loop : List SendAttempt → Option ErrorCode → ℕ → Bytes → Bytes → Option Written
write_loop attempts ec sent wire [] =
    some (record { sent = sent; wire = wire; ec = ec; attempts = attempts })
write_loop [] ec sent wire (b ∷ rest) = none
write_loop (a ∷ attempts) ec sent wire (b ∷ rest) =
    elim (turn (socket_write_impl a (length (b ∷ rest))) a.errno) [
      | again ↦ write_loop attempts ec sent wire (b ∷ rest)
      | stop e ↦ some (record { sent = sent; wire = wire; ec = some e; attempts = attempts })
      | moved n ↦ write_loop attempts ec (sent + n) (wire ++ take n (b ∷ rest)) (drop n (b ∷ rest))
    ]

unfoldable pub socket_write : List SendAttempt → Option ErrorCode → Bytes → Option Written
unfolding write_loop
socket_write attempts ec buffer = write_loop attempts ec 0 [] buffer

-- The loop over several buffers, up to the first error. `ec` is as the caller left it.
unfoldable pub write_all :
    List SendAttempt → Option ErrorCode → ℕ → Bytes → List Bytes → Option Written
write_all attempts ec sent wire [] =
    some (record { sent = sent; wire = wire; ec = ec; attempts = attempts })
write_all attempts ec sent wire (buffer ∷ buffers) = elim (socket_write attempts ec buffer) [
  | none ↦ none
  | some w ↦ elim w.ec [
    | none ↦ write_all w.attempts none (sent + w.sent) (wire ++ w.wire) buffers
    | some e ↦
        some (record {
          sent = sent + w.sent;
          wire = wire ++ w.wire;
          ec = some e;
          attempts = w.attempts;
        })
  ]
]

unfoldable pub socket_write_buffers :
    List SendAttempt → Option ErrorCode → List Bytes → Option Written
unfolding write_all
socket_write_buffers attempts ec buffers = write_all attempts ec 0 [] buffers

-- How `socketReadSome` ends: the bytes stored at the front of the buffer, and the error code.
pub record Received : Type 0 where
  pub bytes : Bytes
  pub ec : Option ErrorCode
  pub attempts : List RecvAttempt

-- An attempt that ends the loop without a byte.
abbrev failed_read : List RecvAttempt → ErrorCode → Received
failed_read attempts e = record { bytes = []; ec = some e; attempts = attempts }

unfoldable pub socket_read_some : List RecvAttempt → Option ErrorCode → ℕ → Option Received
socket_read_some [] ec size = none
socket_read_some (a ∷ attempts) ec size = elim (socket_read_some_impl a size) [
  | none ↦
      let retry = socket_read_some attempts ec size in
      if a.errno == eintr then retry else some (failed_read attempts (system a.errno))
  | some [] ↦ some (failed_read attempts eof)
  | some (b ∷ bs) ↦ some (record { bytes = b ∷ bs; ec = ec; attempts = attempts })
]
