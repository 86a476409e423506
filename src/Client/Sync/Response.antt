-- ===== src/Client/Sync/Response.antt =====
-- What `syncReadResponse` makes of a stream that arrives in chunks.
use mathlib.Core.Path.{subst}
use redisclient_libary.Value.{RedisValue, moved_from}
use redisclient_libary.Common.{
  Bytes, drop-within, drop-over, flatten, false, List, [], ◌∷◌, ◌++◌, ℕ, zero, suc, ◌+◌, ◌≤◌, ◌<◌,
  length, drop, map, length-map, All, Build, ok, inl, inr, ◌≡◌, refl, ap, ◌∙◌, sym, arith,
}
use redisclient_libary.Parser.Step.{Parser}
use redisclient_libary.Parser.Bounds.{parse_bounds}
use redisclient_libary.Parser.Split.{IsSplit, parse-IsSplit, parse-empty}
use redisclient_libary.Parser.{completed, uncompleted, Parsed, parse, result}
use redisclient_libary.Client.{Ended, returned, ◌>>=◌}
use redisclient_libary.Client.Sync.{
  OnError, Sync, capacity, fill, scan, response_round, response_loop, sync_read_response,
}
use redisclient_libary.Client.Sync.Listening.{
  arriving, IsChunk, listening, suc_two, fill-listening, fill-held, scan-completed,
  scan-uncompleted,
}

-- The answer that a reply in the stream gets: the chunks that are left begin behind it.
pub record Answers (c : Sync) (stream : Bytes) (r : Parsed) (ended : Ended Sync RedisValue)
    : Type 0 where
  pub buf : Bytes
  pub left : List Bytes
  pub answer : ended ≡ returned r.parser.redis_value (listening c (result r.parser).1 buf left)
  pub behind : buf ++ flatten left ≡ drop r.consumed stream
  pub chunked : All IsChunk left

module _ ⦃errors : OnError⦄ (build : Build) (c : Sync) where
  response_loop-held :
      (fuel : ℕ) (p : Parser) (b : ℕ) (bs : Bytes) (chunks : List Bytes) (r : Parsed)
      → parse build p (b ∷ bs) ≡ ok r
      → r.result ≡ completed
      → response_loop build (suc fuel) (listening c p (b ∷ bs) chunks)
        ≡ returned r.parser.redis_value
            (listening c (result r.parser).1 (drop r.consumed (b ∷ bs)) chunks)
  unfolding response_loop response_round fill parse scan result
  response_loop-held fuel p b bs chunks r e done =
      rw (scan-completed build c p b bs chunks r e done) refl

  response_loop-part :
      (fuel : ℕ) (p : Parser) (b : ℕ) (bs : Bytes) (chunks : List Bytes) (r : Parsed)
      → parse build p (b ∷ bs) ≡ ok r
      → r.result ≡ uncompleted
      → response_loop build (suc fuel) (listening c p (b ∷ bs) chunks)
        ≡ response_loop build fuel (listening c r.parser [] chunks)
  unfolding response_loop response_round fill parse scan
  response_loop-part fuel p b bs chunks r e u =
      rw (scan-uncompleted build c p b bs chunks r e u) refl

  same_round :
      (x d : Sync)
      → fill x ≡ returned false d
      → fill d ≡ returned false d
      → response_round build x ≡ response_round build d
  unfolding response_round
  same_round x d e f = rw (e, f, ◌>>=◌) refl

  same_loop :
      (fuel : ℕ) (x d : Sync)
      → response_round build x ≡ response_round build d
      → response_loop build (suc fuel) x ≡ response_loop build (suc fuel) d
  unfolding response_loop
  same_loop fuel x d e = rw (e, ◌>>=◌) refl

  response_loop-arrives :
      (fuel : ℕ) (p : Parser) (b : ℕ) (bs : Bytes) (chunks : List Bytes)
      → length (b ∷ bs) ≤ capacity
      → response_loop build (suc fuel) (listening c p [] ((b ∷ bs) ∷ chunks))
        ≡ response_loop build (suc fuel) (listening c p (b ∷ bs) chunks)
  response_loop-arrives fuel p b bs chunks h =
      same_loop fuel _ _
        (same_round _ _ (fill-listening build c p b bs chunks h) (fill-held build c p b bs chunks))

  -- What a part leaves is answered in the rest of the stream.
  Answers-rest :
      (p : Parser) (b : ℕ) (bs : Bytes) (rest : Bytes) (r : Parsed) (ended : Ended Sync RedisValue)
      (split : IsSplit build p (b ∷ bs) rest r)
      → Answers c rest split.last ended
      → Answers c ((b ∷ bs) ++ rest) r ended
  unfolding result
  Answers-rest p b bs rest r ended split a =
      let (_, _, all) = parse_bounds build p b bs split.part split.first_part in
      record {
        buf = a.buf;
        left = a.left;
        answer =
            a.answer
            ∙ ap
                (λ q.
                  returned q.redis_value (
                    listening c (record q { redis_value = moved_from q.redis_value }) a.buf a.left))
                (sym split.same_parser);
        behind =
            a.behind
            ∙ sym (drop-over (length (b ∷ bs)) split.last.consumed (b ∷ bs) rest refl)
            ∙ ap (λ n. drop n ((b ∷ bs) ++ rest))
                (sym (split.both ∙ ap (λ n. n + split.last.consumed) (all split.asks)));
        chunked = a.chunked;
      }

  module _ (chunks : List Bytes) (fuel : ℕ) (cs : All IsChunk chunks) where
    -- A chunk that is held may be the whole of the reply, or its first part.
    response_held :
        ((q : Parser) (l : Parsed)
          → parse build q (flatten chunks) ≡ ok l
          → l.result ≡ completed
          → 0 < l.consumed
          → Answers c (flatten chunks) l (response_loop build fuel (listening c q [] chunks)))
        → (p : Parser) (b : ℕ) (bs : Bytes) (r : Parsed)
        → parse build p ((b ∷ bs) ++ flatten chunks) ≡ ok r
        → r.result ≡ completed
        → Answers c
            ((b ∷ bs) ++ flatten chunks)
            r
            (response_loop build (suc fuel) (listening c p (b ∷ bs) chunks))
    response_held ih p b bs r e done = elim (parse-IsSplit build p b bs (flatten chunks) r done e) [
      | inl first ↦
          let (_, high, _) = parse_bounds build p b bs r first in
          record {
            buf = drop r.consumed (b ∷ bs);
            left = chunks;
            answer = response_loop-held fuel p b bs chunks r first done;
            behind = sym (drop-within r.consumed (b ∷ bs) (flatten chunks) high);
            chunked = cs;
          }
      | inr split ↦ Answers-rest p b bs (flatten chunks) r _ split (
          subst (Answers c (flatten chunks) split.last)
            (sym (response_loop-part fuel p b bs chunks split.part split.first_part split.asks))
            (ih split.part.parser split.last split.last_part split.done split.reads))
    ]

  response_none :
      (chunks : List Bytes) (fuel : ℕ) (p : Parser) (r : Parsed)
      → All IsChunk chunks
      → length chunks ≤ fuel
      → parse build p (flatten chunks) ≡ ok r
      → r.result ≡ completed
      → 0 < r.consumed
      → Answers c (flatten chunks) r (response_loop build fuel (listening c p [] chunks))
  response_none [] fuel p r cs l e done reads =
      let none_read : r.consumed ≡ 0 = parse-empty build p r e in absurd (omega (arith, none_read))
  response_none ([] ∷ chunks) fuel p r ((h, _), cs) l e done reads = absurd (omega (arith, h))
  response_none ((b ∷ bs) ∷ chunks) zero p r cs l e done reads = absurd (omega arith)
  response_none ((b ∷ bs) ∷ chunks) (suc fuel) p r ((_, h), cs) l e done reads =
      subst (Answers c (flatten ((b ∷ bs) ∷ chunks)) r)
        (sym (response_loop-arrives fuel p b bs chunks h))
        (response_held chunks fuel cs
          (λ q m f d k. response_none chunks fuel q m cs (omega arith) f d k) p b bs r e done)

-- A reply that the stream holds is what `syncReadResponse` returns, however the stream is cut: what
-- the client holds in its buffer and the chunks that are to come. The value and the parser are what
-- `parse` of the whole stream gives, and what follows the reply in the stream is left.
pub sync_read_response-Answers :
    ⦃errors : OnError⦄ (build : Build) (c : Sync) (p : Parser) (held : Bytes) (chunks : List Bytes)
    (r : Parsed)
    → All IsChunk chunks
    → parse build p (held ++ flatten chunks) ≡ ok r
    → r.result ≡ completed
    → 0 < r.consumed
    → Answers c (held ++ flatten chunks) r (sync_read_response build (listening c p held chunks))
unfolding sync_read_response
sync_read_response-Answers build c p [] chunks r cs e done reads =
    response_none build c chunks (length (map arriving chunks) + 2) p r cs
      (omega (arith, length-map arriving chunks)) e done reads
sync_read_response-Answers build c p (b ∷ bs) chunks r cs e done reads =
    rw (suc_two (length (map arriving chunks))) (
      response_held build c chunks (suc (length (map arriving chunks))) cs
        (λ q m f d k.
          response_none build c chunks (suc (length (map arriving chunks))) q m cs
            (omega (arith, length-map arriving chunks)) f d k)
        p b bs r e done)
