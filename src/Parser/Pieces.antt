-- ===== src/Parser/Pieces.antt =====
-- A reply that arrives in any number of pieces.
use mathlib.Core.Path.{subst}
use redisclient_libary.Common.{
  Bytes, List, [], ◌∷◌, ◌++◌, append-nil, flatten, ℕ, ◌≤◌, length, length-append, All, Build, ok,
  inl, inr, ◌≡◌, refl, ap, ◌∙◌, sym, arith,
}
use redisclient_libary.Value.{RedisValue}
use redisclient_libary.Parser.Step.{Parser}
use redisclient_libary.Parser.Bounds.{parse_bounds}
use redisclient_libary.Parser.Split.{IsSplit, parse-IsSplit}
use redisclient_libary.Parser.Print.{Reply, print, IsSendable, meaning}
use redisclient_libary.Parser.Delivery.{IsIdle, Delivers}
use redisclient_libary.Parser.Replies.{parse-print}
use redisclient_libary.Parser.{completed, uncompleted, Parsed, parse}

-- Each piece but the last is read to its end and leaves the reply unfinished, and the last one ends it.
pub data ReadsPieces (build : Build) (v : RedisValue) : Parser → List Bytes → Type 0 where
  last_piece :
      {p : Parser} {a : Bytes}
      → Delivers (parse build p a) (length a) v
      → ReadsPieces build v p (a ∷ [])
  piece :
      {p : Parser} {a : Bytes} {pieces : List Bytes} (q : Parser)
      → parse build p a ≡ ok (record { consumed = length a; result = uncompleted; parser = q })
      → ReadsPieces build v q pieces
      → ReadsPieces build v p (a ∷ pieces)

module _ (build : Build) (v : RedisValue) where
  Delivers-rest :
      (p q : Parser) (c : ℕ) (a rest : Bytes)
      → (split : IsSplit build p
          (c ∷ a)
          rest
          (record { consumed = length ((c ∷ a) ++ rest); result = completed; parser = q }))
      → q.redis_value ≡ v
      → IsIdle q
      → Delivers (parse build split.part.parser rest) (length rest) v
  Delivers-rest p q c a rest split e idle =
      let last = split.last in
      let (_, _, all) = parse_bounds build p c a split.part split.first_part in
      record {
        parser = q;
        found =
            split.last_part
            ∙ ap (λ x. ok (record { consumed = last.consumed; result = x; parser = last.parser }))
                split.done
            ∙ ap (λ x. ok (record { consumed = last.consumed; result = completed; parser = x }))
                (sym split.same_parser)
            ∙ ap (λ n. ok (record { consumed = n; result = completed; parser = q }))
                (omega (arith, split.both, all split.asks, length-append (c ∷ a) rest));
        value = e;
        idle = idle;
      }

  first_piece :
      (p : Parser) (c : ℕ) (a rest : Bytes) (r : Parsed)
      → (split : IsSplit build p (c ∷ a) rest r)
      → parse build p (c ∷ a)
        ≡ ok
            (record { consumed = length (c ∷ a); result = uncompleted; parser = split.part.parser })
  first_piece p c a rest r split =
      let part = split.part in
      let (_, _, all) = parse_bounds build p c a part split.first_part in
      split.first_part
      ∙ ap (λ n. ok (record { consumed = n; result = part.result; parser = part.parser }))
          (all split.asks)
      ∙ ap (λ x. ok (record { consumed = length (c ∷ a); result = x; parser = part.parser }))
          split.asks

  Delivers-ReadsPieces :
      (p : Parser) (a : Bytes) (pieces : List Bytes)
      → All (λ piece. 1 ≤ length piece) (a ∷ pieces)
      → Delivers (parse build p (flatten (a ∷ pieces))) (length (flatten (a ∷ pieces))) v
      → ReadsPieces build v p (a ∷ pieces)
  Delivers-ReadsPieces p a [] h d =
      last_piece (subst (λ b. Delivers (parse build p b) (length b) v) (append-nil a) d)
  Delivers-ReadsPieces p [] (b ∷ pieces) h d = absurd (omega (arith, h.0))
  Delivers-ReadsPieces p (c ∷ a) (b ∷ pieces) (_, h) d =
      let rest = flatten (b ∷ pieces) in
      elim (parse-IsSplit build p c a rest _ refl d.found) [
        | inl whole ↦
            let (_, high, _) = parse_bounds build p c a _ whole in
            absurd (
              omega
                (arith, high, h.0, length-append (c ∷ a) rest, length-append b (flatten pieces)))
        | inr split ↦ piece split.part.parser (first_piece p c a rest _ split) (
            Delivers-ReadsPieces split.part.parser b pieces h
              (Delivers-rest p d.parser c a rest split d.value d.idle))
      ]

-- A reply that is no array, but a line of printable ASCII, an integer other than LONG_MIN, nil, or a
-- payload of any bytes, may be cut into any pieces that are not empty: a parser that waits
-- for a reply reads each of them to its end, asks for more behind all but the last, and has the
-- value that was sent behind that one, where it waits for a reply again.
pub print-ReadsPieces :
    (build : Build) (p : Parser) (r : Reply) (a : Bytes) (pieces : List Bytes)
    → IsIdle p
    → IsSendable r
    → All (λ piece. 1 ≤ length piece) (a ∷ pieces)
    → flatten (a ∷ pieces) ≡ print r []
    → ReadsPieces build (meaning r) p (a ∷ pieces)
print-ReadsPieces build p r a pieces idle s h cut =
    Delivers-ReadsPieces build (meaning r) p a pieces h (
      subst (λ b. Delivers (parse build p b) (length b) (meaning r)) (sym cut)
        (parse-print build p r [] idle s))
