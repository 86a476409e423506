-- ===== src/Examples/SyncPrograms/Results.antt =====
-- sync_pipeline.cpp against a server that prints a reply to each request.
use redisclient_libary.Common.{
  Bytes, true, List, [], ◌∷◌, ◌++◌, length, map, All, none, some, Build, ◌≡◌, refl, ap, ◌∙◌, sym,
  codes, append_assoc, append-nil,
}
use redisclient_libary.Common.Decimal.{to_string_int}
use redisclient_libary.Value.{is_ok, to_array, inspect, array_value}
use redisclient_libary.Parser.Print.{
  Reply, simple, failure, number, nil_bulk, bulk_string, IsSendable, meaning,
}
use redisclient_libary.Parser.Stream.{printed}
use redisclient_libary.Command.{make_command}
use redisclient_libary.Socket.{ErrorCode, Written, socket_write_buffers}
use redisclient_libary.Client.{returned, ◌>>=◌, ◌>>◌}
use redisclient_libary.Client.Sync.{OnError, Sync}
use redisclient_libary.Client.Sync.Listening.{arriving, listening}
use redisclient_libary.Client.Sync.Replies.{meanings, sent}
use redisclient_libary.Client.Connect.{SystemAnswers, connect_ec}
use redisclient_libary.Client.SyncApi.{pipelined, finish}
use redisclient_libary.Client.SyncApi.Pipelines.{pipelined-Replied}
use redisclient_libary.Examples.Console.{Session, exit_success, with_connection}
use redisclient_libary.Examples.Serving.{IsServed}
use redisclient_libary.Examples.SyncPrograms.{
  example_pipeline, say_results, run_pipeline, sync_pipeline,
}
use redisclient_libary.Examples.SyncPrograms.Dialogue.{Shows}

-- What the user sees of each reply.
abbrev pub result_line : Reply → Bytes
result_line (simple s) = codes "Result: " ++ s
result_line (bulk_string s) = codes "Result: " ++ s
result_line (failure s) = codes "Result: " ++ (codes "error: " ++ s)
result_line (number i) = codes "Result: " ++ to_string_int i
result_line nil_bulk = codes "Result: " ++ codes "(null)"

-- The session behind such lines.
abbrev with_lines : Session → List Bytes → Session
with_lines s lines = record s { out = s.out ++ lines }

line-inspect : (r : Reply) → codes "Result: " ++ inspect (meaning r) ≡ result_line r
unfolding inspect
line-inspect (simple s) = refl
line-inspect (bulk_string s) = refl
line-inspect (failure s) = refl
line-inspect (number i) = refl
line-inspect nil_bulk = refl

say_results-lines :
    (rs : List Reply) (s : Session)
    → say_results (meanings rs) s ≡ returned tt (with_lines s (map result_line rs))
unfolding say_results
say_results-lines [] s = ap (λ x. returned tt (record s { out = x })) (sym (append-nil s.out))
say_results-lines (r ∷ rs) s =
    say_results-lines rs (with_lines s ((codes "Result: " ++ inspect (meaning r)) ∷ []))
    ∙ ap (λ x. returned tt (record s { out = x }))
        (append_assoc s.out ((codes "Result: " ++ inspect (meaning r)) ∷ []) (map result_line rs)
          ∙ ap (λ x. s.out ++ x ∷ map result_line rs) (line-inspect r))

module _ ⦃errors : OnError⦄ (build : Build) where
  finish-clear :
      (c : Sync) (chunks : List Bytes)
      → c.receives ≡ map arriving chunks
      → pipelined build example_pipeline c
        ≡ pipelined build example_pipeline (listening c c.parser c.buf chunks)
  unfolding pipelined
  finish-clear c chunks e = ap (λ x. pipelined build example_pipeline (record c { receives = x })) e

  run_pipeline-Shows :
      (s : Session) (rs : List Reply) (c : Sync)
      → pipelined build example_pipeline s.client ≡ returned (array_value (meanings rs)) c
      → run_pipeline build s
        ≡ returned exit_success (with_lines (record s { client = c }) (map result_line rs))
  unfolding run_pipeline finish
  run_pipeline-Shows s rs c e =
      rw (◌>>=◌, e, ◌>>=◌)
        (unfold is_ok to_array in
          rw (◌>>◌, ◌>>=◌, say_results-lines rs (record s { client = c })) refl)

-- `main` against a server that prints a reply that is no array to each of the seven requests, when the
-- client gets a connection, for which it writes nothing, and the requests go out: the program writes a
-- line for each reply, errors included, in their order, and ends well. The replies are lines of
-- printable ASCII, integers other than LONG_MIN, nil, and payloads of any bytes.
pub sync_pipeline-Shows :
    ⦃errors : OnError⦄ (build : Build) (describe : ErrorCode → Bytes) (answers : SystemAnswers)
    (s : Session) (c : Sync) (rs : List Reply) (rest : Bytes) (w : Written)
    → connect_ec true answers s.client ≡ returned tt c
    → c.ec ≡ none
    → c.wire ≡ s.client.wire
    → length rs ≡ 7
    → All IsSendable rs
    → IsServed c (printed rs rest)
    → socket_write_buffers c.sends none (map make_command example_pipeline) ≡ some w
    → w.ec ≡ none
    → Shows s w.wire
        (record { exit = exit_success; out = map result_line rs; err = [] })
        (sync_pipeline build describe answers s)
unfolding sync_pipeline with_connection
sync_pipeline-Shows build describe answers s c rs rest w e clear wired seven h v out went =
    let d =
      pipelined-Replied build c example_pipeline rs c.parser c.buf v.chunks rest w v.on seven v.idle
        h v.chunked v.stream_is out went in
    rw (◌>>=◌, e, clear)
      (record {
        session =
            with_lines (record s { client = listening (sent c w) d.parser d.buf d.left })
              (map result_line rs);
        ends =
            run_pipeline-Shows build (record s { client = c }) rs _
              (finish-clear build c v.chunks v.to_come ∙ d.answer);
        out = refl;
        err = sym (append-nil s.err);
        wire = ap (λ x. x ++ w.wire) wired;
      })
