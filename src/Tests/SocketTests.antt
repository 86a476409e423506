-- ===== src/Tests/SocketTests.antt =====
-- The socket functions on concrete input.
use mathlib.Core.Path.{subst}
use mathlib.Core.Option.{some-injective}
use redisclient_libary.Common.{
  Bytes, take, take_within, true, List, [], ◌∷◌, ℕ, min, length, flatten, map, codes, none, some,
  ◌≡◌, ◌≤◌, refl, arith,
}
use redisclient_libary.Common.Decimal.{to_string}
use redisclient_libary.Buffer.{RedisBuffer, text, raw, content}
use redisclient_libary.Command.{make_command}
use redisclient_libary.Command.Decode.{read_requests}
use redisclient_libary.Socket.{
  SendAttempt, RecvAttempt, Received, socket_read_some, socket_read_some_impl, ready, Written,
  socket_write, socket_write_buffers, turn, socket_write_impl,
}
use redisclient_libary.Socket.Transfer.{IsSend, Outcome}
use redisclient_libary.Socket.Reads.{IsRecv}
use redisclient_libary.Socket.Buffers.{socket_write_buffers-Outcome}
use redisclient_libary.Client.SyncApi.Pipelines.{socket_write_buffers-requests}

-- A socket that takes some bytes at a time, one that is interrupted and one that is closed.
abbrev pub taking : ℕ → SendAttempt
taking most = record {
  option_set = true;
  polled = ready;
  accepted = λ n. some (min n most);
  errno = 0;
}

abbrev interrupted : SendAttempt
interrupted = record { option_set = true; polled = ready; accepted = λ n. none; errno = 4 }

pub taking-IsSend : (most : ℕ) → IsSend (taking most)
taking-IsSend most n k e = let taken : min n most ≡ k = some-injective _ _ e in omega (arith, taken)

interrupted-IsSend : IsSend interrupted
interrupted-IsSend n k e = cc e

abbrev slowly : List SendAttempt
slowly = taking 4 ∷ interrupted ∷ taking 4 ∷ []

abbrev ping_out : Written
ping_out = record { sent = 6; wire = codes "PING\r\n"; ec = none; attempts = [] }

ping_written : socket_write slowly none (codes "PING\r\n") ≡ some ping_out
unfolding socket_write turn socket_write_impl
ping_written = refl

abbrev pub two_commands : List (List RedisBuffer)
two_commands = (text (codes "PING") ∷ []) ∷ (text (codes "GET") ∷ raw (codes "k") ∷ []) ∷ []

abbrev pub fast : List SendAttempt
fast = taking 100 ∷ taking 100 ∷ []

abbrev pub two_out : Written
two_out = record {
  sent = 34;
  wire = codes "*1\r\n$4\r\nPING\r\n*2\r\n$3\r\nGET\r\n$1\r\nk\r\n";
  ec = none;
  attempts = [];
}

pub two_written : socket_write_buffers fast none (map make_command two_commands) ≡ some two_out
unfolding socket_write_buffers make_command socket_write turn socket_write_impl to_string
two_written = refl

socket_write_buffers-Outcome_example :
    Outcome none (flatten (map make_command two_commands)) two_out
socket_write_buffers-Outcome_example =
    socket_write_buffers-Outcome fast (map make_command two_commands) two_out
      (taking-IsSend 100, (taking-IsSend 100, tt)) two_written

socket_write_buffers-requests_example :
    read_requests (length two_commands) two_out.wire ≡ some (map (map content) two_commands, [])
socket_write_buffers-requests_example =
    socket_write_buffers-requests fast two_commands two_out
      (taking-IsSend 100, (taking-IsSend 100, tt)) two_written refl

-- A peer whose bytes are there, and a signal.
abbrev pub giving : Bytes → RecvAttempt
giving bs = record {
  option_set = true;
  polled = ready;
  received = λ n. some (take n bs);
  errno = 0;
}

abbrev pub signalled : RecvAttempt
signalled = record { option_set = true; polled = ready; received = λ n. none; errno = 4 }

pub giving-IsRecv : (bs : Bytes) → IsRecv (giving bs)
giving-IsRecv bs n got e =
    let taken : take n bs ≡ got = some-injective _ _ e in
    subst (λ x. length x ≤ n) taken (take_within n bs)

pub signalled-IsRecv : IsRecv signalled
signalled-IsRecv n got e = cc e

abbrev got_four : Received
got_four = record { bytes = codes "+PON"; ec = none; attempts = giving (codes "G") ∷ [] }

read_four :
    socket_read_some (signalled ∷ giving (codes "+PONG") ∷ giving (codes "G") ∷ []) none 4
    ≡ some got_four
unfolding socket_read_some socket_read_some_impl
read_four = refl
