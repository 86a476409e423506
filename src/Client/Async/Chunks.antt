-- ===== src/Client/Async/Chunks.antt =====
-- Which handlers a connected client calls for a stream of replies that arrives in chunks.
use mathlib.Core.Path.{subst}
use redisclient_libary.Common.{
  Bytes, List, [], ◌∷◌, ◌++◌, append-nil, append_assoc, refl, flatten, ℕ, ◌≤◌, length, All, Option,
  none, Build, ◌≡◌, ap, ◌∙◌, sym, arith,
}
use redisclient_libary.Parser.Step.{Parser}
use redisclient_libary.Parser.Print.{Reply, IsSendable}
use redisclient_libary.Parser.Stream.{printed}
use redisclient_libary.Parser.Delivery.{IsIdle}
use redisclient_libary.Parser.Split.{parse-empty}
use redisclient_libary.Socket.{ErrorCode}
use redisclient_libary.Client.{Ended, returned, ◌>>=◌, ◌>>◌, return}
use redisclient_libary.Client.Async.{OnError, Async, Run, Calls, Argument, Task}
use redisclient_libary.Client.Async.Loops.{async_read, read_ends}
use redisclient_libary.Client.Async.Answers.{IsPosting, posted, serving, answered}
use redisclient_libary.Parser.Yields.{Yields, nothing, next, printed-Yields}
use redisclient_libary.Client.Async.Feeding.{FedSome, FedSome-path, read_loop-FedSome}

module _ {H : Type 0} ⦃errors : OnError H⦄ where
  -- The ends of reads without an error, each of a chunk.
  abbrev pub feed : Build → (Option ErrorCode → Bytes) → Calls H → List Bytes → Run H Unit
  feed build describe call [] = return tt
  feed build describe call (chunk ∷ chunks) =
      read_ends build describe call none chunk >> feed build describe call chunks

  -- A connected client with one read under way.
  abbrev pub reading :
      Async H → Parser → List H → List (H × Argument) → List (Task H) → List H → Async H
  reading c p hs calls tasks marks = record (serving c p hs calls tasks marks) { reads = 1 }

  -- The client has made the calls, has the tasks to run and the marks, and waits for a reply with the handlers that
  -- are left.
  pub record Fed (c : Async H) (others : List H) (calls : List (H × Argument))
      (tasks : List (Task H)) (marks : List H) (ended : Ended (Async H) (Unit {0})) : Type 0 where
    pub parser : Parser
    pub idle : IsIdle parser
    pub answer : ended ≡ returned tt (reading c parser others calls tasks marks)

module _ {H : Type 0} ⦃errors : OnError H⦄ (call : Calls H) (new : H → Argument → List (Task H))
    (notes : H → Argument → List H) (posting : IsPosting call new notes) (c : Async H)
    (build : Build) (describe : Option ErrorCode → Bytes) (others : List H) where
  feed_chunk :
      (b : ℕ) (bs stream : Bytes) (p : Parser) (rs : List Reply) (hs : List H)
      (calls : List (H × Argument)) (tasks : List (Task H)) (marks : List H)
      → length hs ≡ length rs
      → Yields build p ((b ∷ bs) ++ stream) rs
      → FedSome call new notes posting
          (record c { reads = 0 })
          build
          others
          stream
          (calls ++ answered hs rs)
          (tasks ++ posted new (answered hs rs))
          (marks ++ posted notes (answered hs rs))
          (read_ends build describe call none
            (b ∷ bs)
            (reading c p (hs ++ others) calls tasks marks))
  unfolding read_ends async_read
  feed_chunk b bs stream p rs hs calls tasks marks even y =
      read_loop-FedSome call new notes posting (record c { reads = 0 }) build others
        (length (b ∷ bs)) (b ∷ bs) stream p rs hs calls tasks marks (omega arith) even y

  -- The first chunks of a stream.
  feed-FedSome :
      (chunks : List Bytes) (stream : Bytes) (p : Parser) (rs : List Reply) (hs : List H)
      (calls : List (H × Argument)) (tasks : List (Task H)) (marks : List H)
      → All (λ chunk. 1 ≤ length chunk) chunks
      → length hs ≡ length rs
      → Yields build p (flatten chunks ++ stream) rs
      → FedSome call new notes posting
          (record c { reads = 0 })
          build
          others
          stream
          (calls ++ answered hs rs)
          (tasks ++ posted new (answered hs rs))
          (marks ++ posted notes (answered hs rs))
          (feed build describe call chunks (reading c p (hs ++ others) calls tasks marks))
  feed-FedSome [] stream p rs hs calls tasks marks h even y = record {
    parser = p;
    rs = rs;
    hs = hs;
    made = calls;
    done = tasks;
    noted = marks;
    answer = refl;
    even = even;
    yields = y;
    to_come = refl;
    to_do = refl;
    to_note = refl;
  }
  feed-FedSome ([] ∷ chunks) stream p rs hs calls tasks marks (h, _) even y =
      absurd (omega (arith, h))
  feed-FedSome ((b ∷ bs) ∷ chunks) stream p rs hs calls tasks marks (_, h) even y =
      let d =
        feed_chunk b bs (flatten chunks ++ stream) p rs hs calls tasks marks even
          (subst (λ x. Yields build p x rs) (append_assoc (b ∷ bs) (flatten chunks) stream) y) in
      FedSome-path call new notes posting (record c { reads = 0 }) build others stream d.to_come
        d.to_do d.to_note (rw (◌>>◌, ◌>>=◌, d.answer) refl)
        (feed-FedSome chunks stream d.parser d.rs d.hs d.made d.done d.noted h d.even d.yields)

  -- Nothing is left of the stream.
  finished :
      (p : Parser) (rs : List Reply) (hs : List H) (made calls : List (H × Argument))
      (done tasks : List (Task H)) (noted marks : List H) (ended : Ended (Async H) (Unit {0}))
      → ended ≡ returned tt (reading c p (hs ++ others) made done noted)
      → length hs ≡ length rs
      → Yields build p [] rs
      → made ++ answered hs rs ≡ calls
      → done ++ posted new (answered hs rs) ≡ tasks
      → noted ++ posted notes (answered hs rs) ≡ marks
      → Fed c others calls tasks marks ended
  finished p _ [] made calls done tasks noted marks ended e even (nothing idle) f g k = record {
    parser = p;
    idle = idle;
    answer =
        e
        ∙ ap (λ x. returned tt (reading c p others x done noted)) (sym (append-nil made) ∙ f)
        ∙ ap (λ x. returned tt (reading c p others calls x noted)) (sym (append-nil done) ∙ g)
        ∙ ap (λ x. returned tt (reading c p others calls tasks x)) (sym (append-nil noted) ∙ k);
  }
  finished p _ (_ ∷ _) made calls done tasks noted marks ended e even (nothing idle) f g k =
      absurd (omega (arith, even))
  finished p _ hs made calls done tasks noted marks ended e even (next r n q e' pos v y) f g k =
      let zero_read : n ≡ 0 = parse-empty build p _ e' in absurd (omega (arith, zero_read, pos))

  feed-Yields :
      (chunks : List Bytes) (p : Parser) (rs : List Reply) (hs : List H)
      (calls : List (H × Argument)) (tasks : List (Task H)) (marks : List H)
      → All (λ chunk. 1 ≤ length chunk) chunks
      → length hs ≡ length rs
      → Yields build p (flatten chunks) rs
      → Fed c others
          (calls ++ answered hs rs)
          (tasks ++ posted new (answered hs rs))
          (marks ++ posted notes (answered hs rs))
          (feed build describe call chunks (reading c p (hs ++ others) calls tasks marks))
  feed-Yields chunks p rs hs calls tasks marks h even y =
      let d =
        feed-FedSome chunks [] p rs hs calls tasks marks h even
          (subst (λ x. Yields build p x rs) (sym (append-nil (flatten chunks))) y) in
      finished d.parser d.rs d.hs d.made _ d.done _ d.noted _ _ d.answer d.even d.yields d.to_come
        d.to_do d.to_note

-- A stream of whole replies, none of them an array, that a connected client reads in chunks that
-- are not empty, cut anywhere, from between replies, with one read under way, while as many
-- handlers wait as there are replies, or more: the handlers that have waited longest are called
-- with the values of the replies, each with that of one and all in order; what they post waits in
-- the same order behind the tasks of before; the other handlers still wait, the parser waits for a
-- reply, and one read is under way. This is for handlers that use the client only to post commands
-- and to mark, if at all, and for replies that are lines of printable ASCII, integers other than
-- LONG_MIN, nil, and payloads of any bytes.
pub feed-Fed :
    {H : Type 0} ⦃errors : OnError H⦄ (call : Calls H) (new : H → Argument → List (Task H))
    (notes : H → Argument → List H) (posting : IsPosting call new notes) (c : Async H)
    (build : Build) (describe : Option ErrorCode → Bytes) (chunks : List Bytes) (rs : List Reply)
    (hs others : List H) (p : Parser) (calls : List (H × Argument)) (tasks : List (Task H))
    (marks : List H)
    → All (λ chunk. 1 ≤ length chunk) chunks
    → flatten chunks ≡ printed rs []
    → length hs ≡ length rs
    → All IsSendable rs
    → IsIdle p
    → Fed c others
        (calls ++ answered hs rs)
        (tasks ++ posted new (answered hs rs))
        (marks ++ posted notes (answered hs rs))
        (feed build describe call chunks (reading c p (hs ++ others) calls tasks marks))
feed-Fed call new notes posting c build describe chunks rs hs others p calls tasks marks h cut even
      s idle =
    feed-Yields call new notes posting c build describe others chunks p rs hs calls tasks marks h
      even (subst (λ x. Yields build p x rs) (sym cut) (printed-Yields build p rs idle s))
