-- ===== src/Parser/Stream.antt =====
-- Replies that a server prints one behind the other.
use redisclient_libary.Common.{
  Bytes, List, [], ◌∷◌, ◌++◌, append_assoc, ◌<◌, length, drop, drop-length_append, ◌≡◌, refl, ap,
  ◌∙◌, sym, arith,
}
use redisclient_libary.Common.Decimal.{to_string}
use redisclient_libary.Parser.Print.{Reply, simple, failure, number, nil_bulk, bulk_string, print}

-- What a server sends, with what follows.
abbrev pub printed : List Reply → Bytes → Bytes
printed [] rest = rest
printed (r ∷ rs) rest = print r (printed rs rest)

print-append : (r : Reply) (rest : Bytes) → print r rest ≡ print r [] ++ rest
print-append (simple s) rest = ap (◌∷◌ b'+') (sym (append_assoc s (b'\r' ∷ b'\n' ∷ []) rest))
print-append (failure s) rest = ap (◌∷◌ b'-') (sym (append_assoc s (b'\r' ∷ b'\n' ∷ []) rest))
print-append (number i) rest = ap (◌∷◌ b':') (sym (append_assoc _ (b'\r' ∷ b'\n' ∷ []) rest))
print-append nil_bulk rest = refl
print-append (bulk_string s) rest =
    ap (λ t. b'$' ∷ (to_string (length s) ++ (b'\r' ∷ b'\n' ∷ t)))
      (sym (append_assoc s (b'\r' ∷ b'\n' ∷ []) rest))
    ∙ ap (◌∷◌ b'$')
        (sym (append_assoc (to_string (length s)) (b'\r' ∷ b'\n' ∷ (s ++ b'\r' ∷ b'\n' ∷ [])) rest))

pub drop-print : (r : Reply) (rest : Bytes) → drop (length (print r [])) (print r rest) ≡ rest
drop-print r rest =
    ap (drop (length (print r []))) (print-append r rest) ∙ drop-length_append (print r []) rest

pub print-pos : (r : Reply) → 0 < length (print r [])
print-pos (simple s) = omega arith
print-pos (failure s) = omega arith
print-pos (number i) = omega arith
print-pos nil_bulk = omega arith
print-pos (bulk_string s) = omega arith
