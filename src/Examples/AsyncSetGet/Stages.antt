-- ===== src/Examples/AsyncSetGet/Stages.antt =====
-- The stages that async_set_get.cpp goes through, and what can happen in each.
use mathlib.Core.Path.{subst}
use redisclient_libary.Common.{
  Bytes, List, [], ◌∷◌, ◌++◌, append-nil, ◌<◌, Option, none, some, Build, ◌≡◌, refl, sym, arith,
}
use redisclient_libary.Parser.Step.{Parser}
use redisclient_libary.Parser.Print.{Reply, print, IsSendable}
use redisclient_libary.Parser.Delivery.{IsIdle}
use redisclient_libary.Parser.Yields.{Yields, printed-Yields}
use redisclient_libary.Socket.{ErrorCode}
use redisclient_libary.Client.{Ended, returned}
use redisclient_libary.Client.Async.{OnError, Async, Argument}
use redisclient_libary.Client.Async.Loops.{write_ends, do_async_command, async_write}
use redisclient_libary.Client.Async.Chunks.{reading}
use redisclient_libary.Client.Async.Writes.{outstanding}
use redisclient_libary.Client.AsyncApi.{new_client, run_task}
use redisclient_libary.Examples.AsyncSetGet.{Action, text_of, set_get_call}
use redisclient_libary.Examples.AsyncSetGet.Turns.{
  Turn, del_turn, handler, request, turn_task, sent_before, sent_with, reply_to, got_before,
  got_with, shown_before, all_shown,
}

abbrev taken : Option Bytes → List Bytes
taken none = []
taken (some b) = b ∷ []

-- The client with the write that is under way, if one is, and what was written.
abbrev pub writing : Option Bytes → Bytes → Async Action
writing w wire = record new_client {
  data_written = taken w;
  writes = outstanding (taken w);
  wire = wire;
}

module _ ⦃errors : OnError Action⦄ (build : Build) (describe : ErrorCode → Bytes)
    (r r' r'' : Reply) where
  -- A command is posted; or it is queued behind a write; or it is sent, and a part of its reply was
  -- read; or all three were answered.
  pub data Stage : Async Action → Bytes → Type 0 where
    posted :
        (t : Turn) (w : Option Bytes) (p : Parser) (calls : List (Action × Argument))
        → IsIdle p
        → Stage
            (reading
              (writing w (sent_before t))
              p
              []
              calls
              (turn_task t ∷ [])
              (shown_before r r' r'' t))
            (got_before r r' r'' t)
    queued :
        (t : Turn) (b : Bytes) (p : Parser) (calls : List (Action × Argument))
        → IsIdle p
        → Stage
            (reading
              (record (writing (some b) (sent_before t)) { data_queued = request t ∷ [] })
              p
              (handler t ∷ [])
              calls
              []
              (shown_before r r' r'' t))
            (got_before r r' r'' t)
    sent :
        (t : Turn) (w : Option Bytes) (p : Parser) (calls : List (Action × Argument))
        (part more : Bytes)
        → part ++ more ≡ print (reply_to r r' r'' t) []
        → Yields build p more (reply_to r r' r'' t ∷ [])
        → Stage
            (reading
              (writing w (sent_with t))
              p
              (handler t ∷ [])
              calls
              []
              (shown_before r r' r'' t))
            (got_before r r' r'' t ++ part)
    done :
        (w : Option Bytes) (p : Parser) (calls : List (Action × Argument))
        → Stage
            (reading (writing w (sent_with del_turn)) p [] calls [] (all_shown r r' r''))
            (got_with r r' r'' del_turn)

  -- An operation returns, and in a stage.
  abbrev pub KeepsStage : Bytes → Ended (Async Action) (Unit {0}) → Type 0
  KeepsStage got (returned x d) = Stage d got
  KeepsStage got _ = ⊥

  module _ (sendable : (t : Turn) → IsSendable (reply_to r r' r'' t)) where
    -- The request of a turn goes out, and nothing of its reply was read.
    goes_out :
        (t : Turn) (p : Parser) (calls : List (Action × Argument))
        → IsIdle p
        → Stage
            (reading
              (writing (some (request t)) (sent_before t ++ (request t ++ [])))
              p
              (handler t ∷ [])
              calls
              []
              (shown_before r r' r'' t))
            (got_before r r' r'' t)
    goes_out t p calls idle =
        subst
          (λ x.
            Stage
              (reading (writing (some (request t)) (sent_before t ++ x)) p (handler t ∷ []) calls []
                (shown_before r r' r'' t))
              (got_before r r' r'' t))
          (sym (append-nil (request t)))
          (subst
            (λ x.
              Stage
                (reading (writing (some (request t)) (sent_with t)) p (handler t ∷ []) calls []
                  (shown_before r r' r'' t))
                x)
            (append-nil (got_before r r' r'' t))
            (sent t (some (request t)) p calls [] (print (reply_to r r' r'' t) []) refl
              (printed-Yields build p (reply_to r r' r'' t ∷ []) idle (sendable t, tt))))

    pub run_task-Stage :
        (c : Async Action) (got : Bytes)
        → Stage c got
        → KeepsStage got (run_task (text_of build describe) (set_get_call build describe) c)
    unfolding run_task do_async_command async_write
    run_task-Stage c got (posted t none p calls idle) = goes_out t p calls idle
    run_task-Stage c got (posted t (some b) p calls idle) = queued t b p calls idle
    run_task-Stage c got (queued t b p calls idle) = queued t b p calls idle
    run_task-Stage c got (sent t w p calls part more e y) = sent t w p calls part more e y
    run_task-Stage c got (done w p calls) = done w p calls

    pub write_ends-Stage :
        (c : Async Action) (got : Bytes)
        → Stage c got
        → 0 < c.writes
        → KeepsStage got (write_ends (text_of build describe) none c)
    unfolding write_ends async_write
    write_ends-Stage c got (posted t none p calls idle) l = absurd (omega (arith, l))
    write_ends-Stage c got (posted t (some b) p calls idle) l = posted t none p calls idle
    write_ends-Stage c got (queued t b p calls idle) l = goes_out t p calls idle
    write_ends-Stage c got (sent t none p calls part more e y) l = absurd (omega (arith, l))
    write_ends-Stage c got (sent t (some b) p calls part more e y) l =
        sent t none p calls part more e y
    write_ends-Stage c got (done none p calls) l = absurd (omega (arith, l))
    write_ends-Stage c got (done (some b) p calls) l = done none p calls
