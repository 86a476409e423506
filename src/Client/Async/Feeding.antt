-- ===== src/Client/Async/Feeding.antt =====
-- What `asyncRead` makes of one chunk of a stream of replies.
use mathlib.Core.Path.{subst}
use redisclient_libary.Common.{
  Bytes, List, [], ◌∷◌, ◌++◌, append_assoc, drop-within, ℕ, zero, suc, ◌+◌, ◌≤◌, length,
  length-drop, drop, inl, inr, Build, ok, ◌≡◌, refl, ap, ◌∙◌, arith,
}
use redisclient_libary.Parser.Step.{Parser}
use redisclient_libary.Parser.Print.{Reply}
use redisclient_libary.Parser.Bounds.{parse_bounds}
use redisclient_libary.Parser.Split.{parse-IsSplit}
use redisclient_libary.Parser.{uncompleted, Parsed, parse, result}
use redisclient_libary.Client.{Ended, returned, ◌>>=◌}
use redisclient_libary.Client.Async.{OnError, Async, Calls, Argument, Task, reply, process_message}
use redisclient_libary.Client.Async.Loops.{read_round, read_loop}
use redisclient_libary.Client.Async.Answers.{
  IsPosting, posted, serving, answered, read_loop-completed, read_loop-nil,
}
use redisclient_libary.Parser.Yields.{Yields, next, Yields-rest}

module _ {H : Type 0} ⦃errors : OnError H⦄ (call : Calls H) (new : H → Argument → List (Task H))
    (notes : H → Argument → List H) (posting : IsPosting call new notes) (c : Async H)
    (build : Build) (others : List H) where
  -- The replies of a chunk are answered, and the others are still to be answered in the stream.
  pub record FedSome (stream : Bytes) (calls : List (H × Argument)) (tasks : List (Task H))
      (marks : List H) (ended : Ended (Async H) (Unit {0})) : Type 0 where
    pub parser : Parser
    pub rs : List Reply
    pub hs : List H
    pub made : List (H × Argument)
    pub done : List (Task H)
    pub noted : List H
    pub answer :
        ended
        ≡ returned tt
            (record (serving c parser (hs ++ others) made done noted) { reads = c.reads + 1 })
    pub even : length hs ≡ length rs
    pub yields : Yields build parser stream rs
    pub to_come : made ++ answered hs rs ≡ calls
    pub to_do : done ++ posted new (answered hs rs) ≡ tasks
    pub to_note : noted ++ posted notes (answered hs rs) ≡ marks

  pub FedSome-path :
      (stream : Bytes) {calls calls' : List (H × Argument)} {tasks tasks' : List (Task H)}
      {marks marks' : List H} {ended ended' : Ended (Async H) (Unit {0})}
      → calls' ≡ calls
      → tasks' ≡ tasks
      → marks' ≡ marks
      → ended ≡ ended'
      → FedSome stream calls' tasks' marks' ended'
      → FedSome stream calls tasks marks ended
  FedSome-path stream e g k f d = record {
    parser = d.parser;
    rs = d.rs;
    hs = d.hs;
    made = d.made;
    done = d.done;
    noted = d.noted;
    answer = f ∙ d.answer;
    even = d.even;
    yields = d.yields;
    to_come = d.to_come ∙ e;
    to_do = d.to_do ∙ g;
    to_note = d.to_note ∙ k;
  }

  pub read_loop-part :
      (fuel : ℕ) (b : ℕ) (bs : Bytes) (p : Parser) (hs : List H) (calls : List (H × Argument))
      (tasks : List (Task H)) (marks : List H) (r : Parsed)
      → parse build p (b ∷ bs) ≡ ok r
      → r.result ≡ uncompleted
      → read_loop build call (suc fuel) (b ∷ bs) (serving c p hs calls tasks marks)
        ≡ returned tt (record (serving c r.parser hs calls tasks marks) { reads = c.reads + 1 })
  unfolding read_loop read_round process_message
  read_loop-part fuel b bs p hs calls tasks marks r e u = rw (◌>>=◌, e, u) refl

  pub read_loop-FedSome :
      (fuel : ℕ) (chunk stream : Bytes) (p : Parser) (rs : List Reply) (hs : List H)
      (calls : List (H × Argument)) (tasks : List (Task H)) (marks : List H)
      → length chunk ≤ fuel
      → length hs ≡ length rs
      → Yields build p (chunk ++ stream) rs
      → FedSome stream
          (calls ++ answered hs rs)
          (tasks ++ posted new (answered hs rs))
          (marks ++ posted notes (answered hs rs))
          (read_loop build call fuel chunk (serving c p (hs ++ others) calls tasks marks))
  read_loop-FedSome fuel [] stream p rs hs calls tasks marks l even y = record {
    parser = p;
    rs = rs;
    hs = hs;
    made = calls;
    done = tasks;
    noted = marks;
    answer = read_loop-nil call build fuel (serving c p (hs ++ others) calls tasks marks);
    even = even;
    yields = y;
    to_come = refl;
    to_do = refl;
    to_note = refl;
  }
  read_loop-FedSome zero (b ∷ bs) stream p rs hs calls tasks marks l even y = absurd (omega arith)
  read_loop-FedSome (suc fuel) (b ∷ bs) stream p _ [] calls tasks marks l even
        (next r n q e pos v y) =
      absurd (omega (arith, even))
  read_loop-FedSome (suc fuel) (b ∷ bs) stream p _ (h ∷ hs) calls tasks marks l even
        (next {rs = rs} r n q e pos v y) =
      elim (parse-IsSplit build p b bs stream _ refl e) [
        | inl whole ↦
            let (_, high, _) = parse_bounds build p b bs _ whole in
            let more =
              read_loop-FedSome fuel (drop n (b ∷ bs)) stream (result q).1 rs hs
                (calls ++ (h, reply q.redis_value) ∷ []) (tasks ++ new h (reply q.redis_value))
                (marks ++ notes h (reply q.redis_value)) (omega (arith, length-drop n (b ∷ bs)))
                (omega (arith, even))
                (subst (λ x. Yields build (result q).1 x rs) (drop-within n (b ∷ bs) stream high)
                  y) in
            FedSome-path stream
              (append_assoc calls ((h, reply q.redis_value) ∷ []) (answered hs rs)
                ∙ ap (λ x. calls ++ (h, reply x) ∷ answered hs rs) v)
              (append_assoc tasks (new h (reply q.redis_value)) (posted new (answered hs rs))
                ∙ ap (λ x. tasks ++ (new h (reply x) ++ posted new (answered hs rs))) v)
              (append_assoc marks (notes h (reply q.redis_value)) (posted notes (answered hs rs))
                ∙ ap (λ x. marks ++ (notes h (reply x) ++ posted notes (answered hs rs))) v)
              (read_loop-completed call new notes posting c build fuel (b ∷ bs) p h (hs ++ others)
                calls tasks marks n q (omega arith) whole)
              more
        | inr split ↦ record {
          parser = split.part.parser;
          rs = r ∷ rs;
          hs = h ∷ hs;
          made = calls;
          done = tasks;
          noted = marks;
          answer =
              read_loop-part fuel b bs p ((h ∷ hs) ++ others) calls tasks marks split.part
                split.first_part split.asks;
          even = even;
          yields = Yields-rest build p b bs stream r rs n q split v y;
          to_come = refl;
          to_do = refl;
          to_note = refl;
        }
      ]
