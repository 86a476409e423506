-- ===== src/Examples/AsyncSetGet/Outcomes.antt =====
-- What async_set_get.cpp has shown and sent at any time, and that it gets through.
use redisclient_libary.Common.{
  Bytes, List, [], ◌∷◌, ◌++◌, append-nil, append_assoc, ◌<◌, length, none, Build, ◌≡◌, refl, ap,
  ◌∙◌, sym, arith, codes,
}
use redisclient_libary.Value.{to_text}
use redisclient_libary.Parser.Step.{Parser}
use redisclient_libary.Parser.Print.{Reply, IsSendable, meaning}
use redisclient_libary.Parser.Yields.{Yields, next}
use redisclient_libary.Parser.Split.{parse-empty}
use redisclient_libary.Socket.{ErrorCode}
use redisclient_libary.Client.{Ended, returned, thrown, crashed, waiting}
use redisclient_libary.Client.Async.{OnError, Async, Run}
use redisclient_libary.Client.Async.Loops.{read_ends, write_ends}
use redisclient_libary.Client.AsyncApi.{run_task}
use redisclient_libary.Examples.AsyncSetGet.{Action, text_of, prints, stops, set_get_call}
use redisclient_libary.Examples.AsyncSetGet.Turns.{
  Turn, set_turn, get_turn, del_turn, request, sent_before, sent_with, reply_to, got_before,
  shown_before, all_shown, IsAnswering, Runs,
}
use redisclient_libary.Examples.AsyncSetGet.Stages.{
  Stage, posted, queued, sent, done, KeepsStage, run_task-Stage, write_ends-Stage,
}
use redisclient_libary.Examples.AsyncSetGet.Interleavings.{
  nothing_more, read_ends-Stage, Runs-Stage,
}

length-Yields :
    (build : Build) (p : Parser) (stream : Bytes) (r : Reply)
    → Yields build p stream (r ∷ [])
    → 0 < length stream
length-Yields build p [] _ (next r n q e pos v y) =
    let zero_read : n ≡ 0 = parse-empty build p _ e in absurd (omega (arith, zero_read, pos))
length-Yields build p (b ∷ bs) r y = omega arith

-- The requests that are still to be sent.
rest_sent : (t : Turn) → (rest : Bytes) × (sent_before t ++ rest ≡ sent_with del_turn)
rest_sent set_turn = (sent_with del_turn, refl)
rest_sent get_turn = (
  request get_turn ++ request del_turn,
  sym (append_assoc (request set_turn) (request get_turn) (request del_turn)),
)
rest_sent del_turn = (request del_turn, refl)

rest_behind : (t : Turn) → (rest : Bytes) × (sent_with t ++ rest ≡ sent_with del_turn)
rest_behind set_turn = rest_sent get_turn
rest_behind get_turn = rest_sent del_turn
rest_behind del_turn = ([], append-nil (sent_with del_turn))

module _ (r r' r'' : Reply) where
  rest_shown :
      (t : Turn) → (rest : List Action) × (shown_before r r' r'' t ++ rest ≡ all_shown r r' r'')
  rest_shown set_turn = (all_shown r r' r'', refl)
  rest_shown get_turn = (prints (codes "GET: " ++ to_text (meaning r')) ∷ stops ∷ [], refl)
  rest_shown del_turn = (stops ∷ [], refl)

module _ ⦃errors : OnError Action⦄ (build : Build) (describe : ErrorCode → Bytes) (r r' r'' : Reply)
    (server : Bytes → Bytes) where
  -- An operation returns.
  abbrev pub Returns : Run Action Unit → Async Action → Type 0
  Returns run c = (d : Async Action) × (run c ≡ returned tt d)

  KeepsStage-Returns :
      (got : Bytes) (ended : Ended (Async Action) (Unit {0}))
      → KeepsStage build describe r r' r'' got ended
      → (d : Async Action) × (ended ≡ returned tt d)
  KeepsStage-Returns got (returned x d) k = (d, refl)
  KeepsStage-Returns got (thrown e d) k = elim k [ ]
  KeepsStage-Returns got (crashed f) k = elim k [ ]
  KeepsStage-Returns got waiting k = elim k [ ]

  -- What was shown and sent is in order, all that may happen next returns, and when nothing is left that
  -- may happen all is shown and sent.
  pub record GetsThrough (c : Async Action) (got : Bytes) : Type 0 where
    pub to_show : List Action
    pub shows : c.marks ++ to_show ≡ all_shown r r' r''
    pub to_send : Bytes
    pub sends : c.wire ++ to_send ≡ sent_with del_turn
    pub task_returns : Returns (run_task (text_of build describe) (set_get_call build describe)) c
    pub write_returns : 0 < c.writes → Returns (write_ends (text_of build describe) none) c
    pub read_returns :
        (chunk more : Bytes)
        → 0 < length chunk
        → got ++ (chunk ++ more) ≡ server c.wire
        → Returns
            (read_ends build (text_of build describe) (set_get_call build describe) none chunk)
            c
    pub at_end :
        c.tasks ≡ []
        → c.writes ≡ 0
        → got ≡ server c.wire
        → (c.marks ≡ all_shown r r' r'') × (c.wire ≡ sent_with del_turn)

  module _ (answering : IsAnswering r r' r'' server)
      (sendable : (t : Turn) → IsSendable (reply_to r r' r'' t)) where
    abbrev Shows : Async Action → Type 0
    Shows c = (rest : List Action) × (c.marks ++ rest ≡ all_shown r r' r'')

    abbrev Sends : Async Action → Type 0
    Sends c = (rest : Bytes) × (c.wire ++ rest ≡ sent_with del_turn)

    Stage-Shows : (c : Async Action) (got : Bytes) → Stage build describe r r' r'' c got → Shows c
    Stage-Shows c got (posted t w p calls idle) = rest_shown r r' r'' t
    Stage-Shows c got (queued t b p calls idle) = rest_shown r r' r'' t
    Stage-Shows c got (sent t w p calls part more e y) = rest_shown r r' r'' t
    Stage-Shows c got (done w p calls) = ([], refl)

    Stage-Sends : (c : Async Action) (got : Bytes) → Stage build describe r r' r'' c got → Sends c
    Stage-Sends c got (posted t w p calls idle) = rest_sent t
    Stage-Sends c got (queued t b p calls idle) = rest_sent t
    Stage-Sends c got (sent t w p calls part more e y) = rest_behind t
    Stage-Sends c got (done w p calls) = rest_behind del_turn

    Stage-at_end :
        (c : Async Action) (got : Bytes)
        → Stage build describe r r' r'' c got
        → c.tasks ≡ []
        → c.writes ≡ 0
        → got ≡ server c.wire
        → (c.marks ≡ all_shown r r' r'') × (c.wire ≡ sent_with del_turn)
    Stage-at_end c got (posted t w p calls idle) no_task no_write all_read = absurd (cc no_task)
    Stage-at_end c got (queued t b p calls idle) no_task no_write all_read =
        absurd (omega (arith, no_write))
    Stage-at_end c got (sent t w p calls part more e y) no_task no_write all_read =
        elim (nothing_more (got_before r r' r'' t ++ part) more []
          (append_assoc (got_before r r' r'' t) part (more ++ [])
            ∙ ap (λ x. got_before r r' r'' t ++ (part ++ x)) (append-nil more)
            ∙ ap (λ x. got_before r r' r'' t ++ x) e
            ∙ sym (answering.answers t)
            ∙ sym all_read)
          (length-Yields build p more (reply_to r r' r'' t) y)) [ ]
    Stage-at_end c got (done w p calls) no_task no_write all_read = (refl, refl)

    -- The program with a connection, while nothing fails, whatever the order in which the strand runs what
    -- is posted, writes end, and the replies arrive in chunks: at any time it has sent a first part of
    -- the requests SET, GET and DEL in this order, and has shown the first two replies and stopped so
    -- far as it is, in this order. Whatever may happen next returns. If nothing more may, as no task is
    -- posted, no write is under way and all that the server printed is read, then all requests are
    -- sent, both lines are shown, and the program was stopped. The server is taken to print sendable
    -- replies, each when it has got the whole request.
    pub Runs-GetsThrough :
        (c : Async Action) (got : Bytes) → Runs build describe server c got → GetsThrough c got
    Runs-GetsThrough c got runs =
        let stage = Runs-Stage build describe r r' r'' server answering sendable c got runs in
        let (to_show, shows) = Stage-Shows c got stage in
        let (to_send, sends) = Stage-Sends c got stage in
        record {
          to_show = to_show;
          shows = shows;
          to_send = to_send;
          sends = sends;
          task_returns =
              KeepsStage-Returns got _
                (run_task-Stage build describe r r' r'' sendable c got stage);
          write_returns = λ l.
              KeepsStage-Returns got _
                (write_ends-Stage build describe r r' r'' sendable c got stage l);
          read_returns = λ chunk more l e.
              KeepsStage-Returns (got ++ chunk) _ (
                read_ends-Stage build describe r r' r'' server answering c got chunk more stage l
                  e);
          at_end = Stage-at_end c got stage;
        }
