-- ===== src/Examples/Console.antt =====
-- What the programs of examples/ that use the synchronous client share: the client, the two streams that
-- they write lines to, and the first steps of each `main`.
use redisclient_libary.Common.{Bytes, true, List, [], ◌∷◌, ◌++◌, none, some, codes}
use redisclient_libary.Socket.{ErrorCode}
use redisclient_libary.Client.{Ended, returned, thrown, crashed, waiting, ◌>>◌, return}
use redisclient_libary.Client.Sync.{Sync, Run}
use redisclient_libary.Client.Connect.{SystemAnswers, connect_ec}

pub record Session : Type 0 where
  pub client : Sync
  pub out : List Bytes
  pub err : List Bytes

-- EXIT_SUCCESS, EXIT_FAILURE, `exit(-1)` and `abort`.
pub data Exit : Type 0 where
  exit_success exit_failure exit_minus_one aborted : Exit

abbrev pub Program : Type 0 → Type 0
Program A = Session → Ended Session A

-- An operation of the client. An exception is nobody's in these programs.
abbrev pub on_client : {A : Type 0} → Run A → Program A
on_client run s = elim (run s.client) [
  | returned x c ↦ returned x (record s { client = c })
  | thrown e c ↦ thrown e (record s { client = c })
  | crashed f ↦ crashed f
  | waiting ↦ waiting
]

abbrev pub say : Bytes → Program Unit
say line s = returned tt (record s { out = s.out ++ line ∷ [] })

abbrev pub complain : Bytes → Program Unit
complain line s = returned tt (record s { err = s.err ++ line ∷ [] })

abbrev pub failing : Bytes → Program Exit
failing line = complain line >> return exit_failure

-- `connect`, and the test of its error code: the message in front of the code's, and what the program
-- ends with then.
unfoldable pub with_connection :
    {A : Type 0} → Bytes → A → (ErrorCode → Bytes) → SystemAnswers → Program A → Program A
unfolding connect_ec
with_connection note failed describe answers next = on_client (connect_ec true answers) >> λ s.
    elim s.client.ec [ none ↦ next s | some e ↦ (complain (note ++ describe e) >> return failed) s ]

abbrev pub no_connection : Bytes
no_connection = codes "Can't connect to redis: "
