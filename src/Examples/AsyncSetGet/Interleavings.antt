-- ===== src/Examples/AsyncSetGet/Interleavings.antt =====
-- async_set_get.cpp in all orders in which the system, the strand and the server may go on.
use mathlib.Core.Path.{subst}
use redisclient_libary.Common.{
  Bytes, List, [], ◌∷◌, ◌++◌, append-nil, append_assoc, ℕ, ◌<◌, length, length-append, none, Option,
  Build, ◌≡◌, inl, inr, refl, ap, ◌∙◌, sym, arith,
}
use redisclient_libary.Parser.{new_parser}
use redisclient_libary.Parser.Step.{Parser}
use redisclient_libary.Parser.Print.{Reply, print, IsSendable, meaning}
use redisclient_libary.Parser.Delivery.{IsIdle}
use redisclient_libary.Parser.Yields.{Yields}
use redisclient_libary.Socket.{ErrorCode}
use redisclient_libary.Client.Async.{OnError, Async, Argument, reply, code}
use redisclient_libary.Client.Async.Loops.{read_ends}
use redisclient_libary.Client.Async.Chunks.{reading}
use redisclient_libary.Client.Async.Single.{read_ends-ReadsOne}
use redisclient_libary.Examples.AsyncSetGet.{Action, text_of, on_connected, set_get_call}
use redisclient_libary.Examples.AsyncSetGet.Posting.{
  asked, connecting_well-between, shown, set_get_call-IsPosting,
}
use redisclient_libary.Examples.AsyncSetGet.Turns.{
  Turn, set_turn, get_turn, del_turn, handler, sent_before, sent_with, reply_to, got_before,
  got_with, shown_before, IsAnswering, Runs, starts, task_runs, write_is_over, bytes_arrive,
}
use redisclient_libary.Examples.AsyncSetGet.Stages.{
  Stage, posted, queued, sent, done, writing, KeepsStage, run_task-Stage, write_ends-Stage,
}

same_front : (front a b : Bytes) → front ++ a ≡ front ++ b → a ≡ b
same_front [] a b e = e
same_front (x ∷ front) a b e = same_front front a b (cc e)

-- Nothing can arrive where the server has printed what was read.
pub nothing_more : (got chunk more : Bytes) → got ++ (chunk ++ more) ≡ got → 0 < length chunk → ⊥
nothing_more got chunk more e l =
    omega (arith, l, ap length e, length-append got (chunk ++ more), length-append chunk more)

module _ ⦃errors : OnError Action⦄ (build : Build) (describe : ErrorCode → Bytes) (r r' r'' : Reply)
    (server : Bytes → Bytes) (answering : IsAnswering r r' r'' server) where
  printed_before : (t : Turn) → server (sent_before t) ≡ got_before r r' r'' t
  printed_before set_turn = answering.silent
  printed_before get_turn = answering.answers set_turn
  printed_before del_turn = answering.answers get_turn

  -- The stage behind a reply that was read.
  abbrev answered_client : Turn → Option Bytes → Parser → List (Action × Argument) → Async Action
  answered_client t w p calls =
      reading (writing w (sent_with t)) p [] calls
        (asked (handler t) (reply (meaning (reply_to r r' r'' t))))
        (shown_before r r' r'' t
          ++ shown describe (handler t) (reply (meaning (reply_to r r' r'' t))))

  answered_stage :
      (t : Turn) (w : Option Bytes) (p : Parser) (calls : List (Action × Argument))
      → IsIdle p
      → Stage build describe r r' r'' (answered_client t w p calls) (got_with r r' r'' t)
  answered_stage set_turn w p calls idle = posted get_turn w p calls idle
  answered_stage get_turn w p calls idle = posted del_turn w p calls idle
  answered_stage del_turn w p calls idle = done w p calls

  read_part :
      (t : Turn) (w : Option Bytes) (p : Parser) (calls : List (Action × Argument))
      (part more : Bytes) (b : ℕ) (bs others : Bytes)
      → part ++ more ≡ print (reply_to r r' r'' t) []
      → (b ∷ bs) ++ others ≡ more
      → Yields build p more (reply_to r r' r'' t ∷ [])
      → KeepsStage build describe r r' r'' ((got_before r r' r'' t ++ part) ++ (b ∷ bs)) (
          read_ends build (text_of build describe) (set_get_call build describe) none (b ∷ bs) (
            reading
              (writing w (sent_with t))
              p
              (handler t ∷ [])
              calls
              []
              (shown_before r r' r'' t)))
  read_part t w p calls part more b bs others e f y =
      elim (read_ends-ReadsOne (set_get_call build describe) asked (shown describe)
        (set_get_call-IsPosting build describe) (writing w (sent_with t)) build
        (text_of build describe) b bs others p (reply_to r r' r'' t) (handler t) calls []
        (shown_before r r' r'' t)
        (subst (λ x. Yields build p x (reply_to r r' r'' t ∷ [])) (sym f) y)) [
          | inl (q, idle, end, answer) ↦
              let got = got_before r r' r'' t in
              let rest : more ≡ b ∷ bs =
                sym f ∙ ap (λ x. (b ∷ bs) ++ x) end ∙ append-nil (b ∷ bs) in
              subst (KeepsStage build describe r r' r'' ((got ++ part) ++ (b ∷ bs))) (sym answer) (
                subst
                  (Stage build describe r r' r'' (
                    answered_client t w q
                      (calls ++ (handler t, reply (meaning (reply_to r r' r'' t))) ∷ [])))
                  (ap (λ x. got ++ x) (sym e ∙ ap (λ x. part ++ x) rest)
                    ∙ sym (append_assoc got part (b ∷ bs)))
                  (answered_stage t w q
                    (calls ++ (handler t, reply (meaning (reply_to r r' r'' t))) ∷ []) idle))
          | inr (q, yields, answer) ↦
              let got = got_before r r' r'' t in
              subst (KeepsStage build describe r r' r'' ((got ++ part) ++ (b ∷ bs))) (sym answer) (
                subst
                  (Stage build describe r r' r'' (
                    reading (writing w (sent_with t)) q (handler t ∷ []) calls []
                      (shown_before r r' r'' t)))
                  (sym (append_assoc got part (b ∷ bs)))
                  (sent t w q calls (part ++ (b ∷ bs)) others
                    (append_assoc part (b ∷ bs) others ∙ ap (λ x. part ++ x) f ∙ e) yields))
        ]

  pub read_ends-Stage :
      (c : Async Action) (got chunk more : Bytes)
      → Stage build describe r r' r'' c got
      → 0 < length chunk
      → got ++ (chunk ++ more) ≡ server c.wire
      → KeepsStage build describe r r' r''
          (got ++ chunk)
          (read_ends build (text_of build describe) (set_get_call build describe) none chunk c)
  read_ends-Stage c got [] more s l e = absurd (omega (arith, l))
  read_ends-Stage c got (b ∷ bs) others (posted t w p calls idle) l e =
      elim (nothing_more (got_before r r' r'' t) (b ∷ bs) others (e ∙ printed_before t) l) [ ]
  read_ends-Stage c got (b ∷ bs) others (queued t x p calls idle) l e =
      elim (nothing_more (got_before r r' r'' t) (b ∷ bs) others (e ∙ printed_before t) l) [ ]
  read_ends-Stage c got (b ∷ bs) others (done w p calls) l e =
      elim (nothing_more (got_with r r' r'' del_turn) (b ∷ bs) others
        (e ∙ answering.answers del_turn) l) [ ]
  read_ends-Stage c got (b ∷ bs) others (sent t w p calls part more f y) l e =
      read_part t w p calls part more b bs others f
        (same_front part ((b ∷ bs) ++ others) more (
          same_front (got_before r r' r'' t) (part ++ ((b ∷ bs) ++ others)) (part ++ more) (
            sym (append_assoc (got_before r r' r'' t) part ((b ∷ bs) ++ others))
            ∙ e
            ∙ answering.answers t
            ∙ ap (λ x. got_before r r' r'' t ++ x) (sym f))))
        y

  module _ (sendable : (t : Turn) → IsSendable (reply_to r r' r'' t)) where
    pub Runs-Stage :
        (c : Async Action) (got : Bytes)
        → Runs build describe server c got
        → Stage build describe r r' r'' c got
    Runs-Stage c _ (starts e) =
        subst (KeepsStage build describe r r' r'' [])
          (sym (connecting_well-between build describe) ∙ e)
          (posted set_turn none new_parser ((on_connected, code none) ∷ [])
            (record { no_state = refl; no_array = refl }))
    Runs-Stage d got (task_runs {c} runs e) =
        subst (KeepsStage build describe r r' r'' got) e
          (run_task-Stage build describe r r' r'' sendable c got (Runs-Stage c got runs))
    Runs-Stage d got (write_is_over {c} runs l e) =
        subst (KeepsStage build describe r r' r'' got) e
          (write_ends-Stage build describe r r' r'' sendable c got (Runs-Stage c got runs) l)
    Runs-Stage d _ (bytes_arrive {c} {got} chunk more runs l f e) =
        subst (KeepsStage build describe r r' r'' (got ++ chunk)) e
          (read_ends-Stage c got chunk more (Runs-Stage c got runs) l f)
