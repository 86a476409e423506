-- ===== src/Parser/Split.antt =====
-- A reply of which a first chunk may hold only a part.
use redisclient_libary.Common.{
  Bytes, Bool-cases, ◌&&◌, [], ◌∷◌, ◌++◌, append-nil, ℕ, ◌+◌, ◌<◌, Build, Result, ok, fault, ◌⊎◌,
  inl, inr, ◌≡◌, refl, ap, ◌∙◌, sym,
}
use redisclient_libary.Parser.Step.{Statement, Parser, is_start}
use redisclient_libary.Parser.Chunks.{advance, resume, parse-append}
use redisclient_libary.Parser.Bounds.{parse_bounds}
use redisclient_libary.Parser.{
  ParseResult, completed, uncompleted, error, Parsed, parse, leave, resumed, rest_states, is_empty,
}

pub ok-injective {ℓ} : {A : Type ℓ} {x y : A} → ok x ≡ ok y → x ≡ y
ok-injective e = cc e

leave-consumed : (s : Statement) (q : Parser) (n : ℕ) → (leave s q n).consumed ≡ n
unfolding leave
leave-consumed s q n = elim (Bool-cases (is_empty q.array_sizes && is_start s)) [
  | inl e ↦ rw e refl
  | inr e ↦ rw e refl
]

pub parse-empty :
    (build : Build) (p : Parser) (r : Parsed) → parse build p [] ≡ ok r → r.consumed ≡ 0
unfolding parse
parse-empty build p r e =
    sym (ap (λ x. x.consumed) (ok-injective e))
    ∙ leave-consumed (resumed p.states) (record p { states = rest_states p.states }) 0

-- A first chunk asks for more, and the rest of the stream completes the reply.
pub record IsSplit (build : Build) (p : Parser) (first rest : Bytes) (r : Parsed) : Type 0 where
  pub part : Parsed
  pub last : Parsed
  pub first_part : parse build p first ≡ ok part
  pub asks : part.result ≡ uncompleted
  pub last_part : parse build part.parser rest ≡ ok last
  pub done : last.result ≡ completed
  pub reads : 0 < last.consumed
  pub same_parser : r.parser ≡ last.parser
  pub both : r.consumed ≡ part.consumed + last.consumed

module _ (build : Build) where
  resume-uncompleted :
      (b : Bytes) (q : Parsed)
      → q.result ≡ uncompleted
      → resume build b (ok q) ≡ advance q.consumed (parse build q.parser b)
  resume-uncompleted b q u = simp u

  -- Behind an unfinished reply there is none in an empty chunk.
  nothing_more :
      (p : Parser) (c : ℕ) (a : Bytes) (q r : Parsed)
      → parse build p (c ∷ a) ≡ ok q
      → q.result ≡ uncompleted
      → parse build q.parser [] ≡ ok r
      → r.result ≡ uncompleted
  nothing_more p c a q r e u h =
      let same : q ≡ record r { consumed = q.consumed + r.consumed } = ok-injective (
        sym e
        ∙ sym (ap (parse build p) (append-nil (c ∷ a)))
        ∙ parse-append build p c a []
        ∙ ap (resume build []) e
        ∙ resume-uncompleted [] q u
        ∙ ap (advance q.consumed) h) in
      sym (ap (λ x. x.result) same) ∙ u

  reads_more :
      (p : Parser) (c : ℕ) (a : Bytes) (q : Parsed) (rest : Bytes) (r : Parsed)
      → parse build p (c ∷ a) ≡ ok q
      → q.result ≡ uncompleted
      → parse build q.parser rest ≡ ok r
      → r.result ≡ completed
      → 0 < r.consumed
  reads_more p c a q [] r e u h done = cc (nothing_more p c a q r e u h, done)
  reads_more p c a q (d ∷ rest) r e u h done =
      let (low, _, _) = parse_bounds build q.parser d rest r h in low

  module _ (p : Parser) (c : ℕ) (a rest : Bytes) (r : Parsed) (done : r.result ≡ completed) where
    IsSplit-rest :
        (q : Parsed) (l : Result Parsed)
        → parse build p (c ∷ a) ≡ ok q
        → q.result ≡ uncompleted
        → parse build q.parser rest ≡ l
        → advance q.consumed l ≡ ok r
        → IsSplit build p (c ∷ a) rest r
    IsSplit-rest q (fault x) e u h s = cc s
    IsSplit-rest q (ok l) e u h s =
        let same : record l { consumed = q.consumed + l.consumed } ≡ r = ok-injective s in
        let ends : l.result ≡ completed = ap (λ x. x.result) same ∙ done in
        record {
          part = q;
          last = l;
          first_part = e;
          asks = u;
          last_part = h;
          done = ends;
          reads = reads_more p c a q rest l e u h ends;
          same_parser = sym (ap (λ x. x.parser) same);
          both = sym (ap (λ x. x.consumed) same);
        }

    IsSplit-first :
        (q : Parsed) (v : ParseResult)
        → parse build p (c ∷ a) ≡ ok q
        → q.result ≡ v
        → resume build rest (ok q) ≡ ok r
        → (parse build p (c ∷ a) ≡ ok r) ⊎ IsSplit build p (c ∷ a) rest r
    IsSplit-first q completed e u h =
        let kept : resume build rest (ok q) ≡ ok q = simp u in inl (e ∙ sym kept ∙ h)
    IsSplit-first q error e u h =
        let kept : resume build rest (ok q) ≡ ok q = simp u in
        cc (ap (λ x. x.result) (ok-injective (sym kept ∙ h)), u, done)
    IsSplit-first q uncompleted e u h = inr (
        IsSplit-rest q (parse build q.parser rest) e u refl (sym (resume-uncompleted rest q u) ∙ h))

    IsSplit-cases :
        (f : Result Parsed)
        → parse build p (c ∷ a) ≡ f
        → resume build rest f ≡ ok r
        → (parse build p (c ∷ a) ≡ ok r) ⊎ IsSplit build p (c ∷ a) rest r
    IsSplit-cases (fault x) e h = cc h
    IsSplit-cases (ok q) e h = IsSplit-first q q.result e refl h

    -- A reply ends in the first chunk, or is finished in the rest.
    pub parse-IsSplit :
        parse build p ((c ∷ a) ++ rest) ≡ ok r
        → (parse build p (c ∷ a) ≡ ok r) ⊎ IsSplit build p (c ∷ a) rest r
    parse-IsSplit h =
        IsSplit-cases (parse build p (c ∷ a)) refl (sym (parse-append build p c a rest) ∙ h)
