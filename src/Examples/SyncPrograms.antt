-- ===== src/Examples/SyncPrograms.antt =====
-- examples/sync_set_get.cpp, sync_pipeline.cpp and sync_timeout.cpp.
pub mod Dialogue
pub mod Results
pub mod Polling
use redisclient_libary.Common.{
  Bytes, [], ◌∷◌, ◌++◌, ℕ, zero, suc, Option, none, some, codes, Build, if◌then◌else◌,
}
use redisclient_libary.Value.{Values, nil, cons, is_error, is_ok, to_text, to_array, inspect}
use redisclient_libary.Buffer.{text}
use redisclient_libary.Socket.{ErrorCode}
use redisclient_libary.Client.{◌>>=◌, ◌>>◌, return}
use redisclient_libary.Client.Sync.{OnError}
use redisclient_libary.Client.Connect.{SystemAnswers}
use redisclient_libary.Client.SyncApi.{
  command, command_ec, Pipeline, new_pipeline, add_command, finish,
}
use redisclient_libary.Examples.Console.{
  Exit, exit_success, exit_failure, Program, on_client, say, complain, failing, with_connection,
  no_connection,
}

module _ ⦃errors : OnError⦄ (build : Build) where
  -- The second command of sync_set_get.cpp.
  unfoldable pub get_key : Program Exit
  unfolding is_ok to_text
  get_key = on_client (command build (codes "GET") (text (codes "key") ∷ [])) >>= λ v.
      if is_ok v
      then (say (codes "GET: " ++ to_text v) >> return exit_success)
      else failing (codes "GET error: " ++ to_text v)

  -- `main` of sync_set_get.cpp, behind the connection.
  unfoldable pub set_get : Program Exit
  unfolding is_error to_text get_key
  set_get = do
    v ← on_client (command build (codes "SET") (text (codes "key") ∷ text (codes "value") ∷ []))
    if is_error v then failing (codes "SET error: " ++ to_text v) else get_key

  unfoldable pub sync_set_get : (ErrorCode → Bytes) → SystemAnswers → Program Exit
  unfolding with_connection set_get
  sync_set_get describe answers =
      with_connection no_connection exit_failure describe answers set_get

-- The commands of sync_pipeline.cpp.
abbrev pub example_pipeline : Pipeline
example_pipeline = add_command (codes "DEL") (text (codes "key") ∷ []) (
    add_command (codes "DEL") (text (codes "counter") ∷ []) (
      add_command (codes "GET") (text (codes "counter") ∷ []) (
        add_command (codes "DECR") (text (codes "counter") ∷ []) (
          add_command (codes "INCR") (text (codes "counter") ∷ []) (
            add_command (codes "INCR") (text (codes "counter") ∷ []) (
              add_command (codes "SET") (text (codes "key") ∷ text (codes "value") ∷ [])
                new_pipeline))))))

-- The loop over the results.
unfoldable pub say_results : Values → Program Unit
unfolding inspect
say_results nil = return tt
say_results (cons v vs) = say (codes "Result: " ++ inspect v) >> say_results vs

module _ ⦃errors : OnError⦄ (build : Build) where
  -- `main` of sync_pipeline.cpp, behind the connection.
  unfoldable pub run_pipeline : Program Exit
  unfolding is_ok to_text to_array say_results
  run_pipeline = on_client (finish build example_pipeline) >>= λ (v, rest).
      if is_ok v
      then (say_results (to_array v) >> return exit_success)
      else failing (codes "GET error: " ++ to_text v)

  unfoldable pub sync_pipeline : (ErrorCode → Bytes) → SystemAnswers → Program Exit
  unfolding with_connection run_pipeline
  sync_pipeline describe answers =
      with_connection no_connection exit_failure describe answers run_pipeline

  -- A round of `while(1)` in sync_timeout.cpp: none if it goes on, behind `sleep`.
  unfoldable pub timeout_round : (ErrorCode → Bytes) → Program (Option Exit)
  unfolding is_error to_text
  timeout_round describe = do
    v ← on_client (command_ec build (codes "GET") (text (codes "key") ∷ []))
    λ s. elim s.client.ec [
      | some e ↦ (complain (codes "Network error: " ++ describe e) >> return (some exit_failure)) s
      | none ↦
          (if is_error v
              then (complain (codes "GET error: " ++ to_text v) >> return (some exit_failure))
              else (say (codes "GET: " ++ to_text v) >> return none))
            s
    ]

  -- So many rounds: none if the loop still runs behind them.
  unfoldable pub timeout_rounds : (ErrorCode → Bytes) → ℕ → Program (Option Exit)
  unfolding timeout_round
  timeout_rounds describe zero = return none
  timeout_rounds describe (suc n) = timeout_round describe >>= λ ended. elim ended [
    | some e ↦ return (some e)
    | none ↦ timeout_rounds describe n
  ]

  -- `main` of sync_timeout.cpp. The timeouts are the system's.
  unfoldable pub sync_timeout : (ErrorCode → Bytes) → SystemAnswers → ℕ → Program (Option Exit)
  unfolding with_connection timeout_rounds
  sync_timeout describe answers n =
      with_connection no_connection (some exit_failure) describe answers (timeout_rounds describe n)
