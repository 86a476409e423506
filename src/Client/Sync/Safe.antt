-- ===== src/Client/Sync/Safe.antt =====
-- The inner loop of `syncReadResponse`: how it ends, whatever bytes are held.
pub mod Loop
pub mod Commands
use native.Mathlib.Nat.{zero-add}
use redisclient_libary.Common.{
  Bytes, false, [], ◌∷◌, ℕ, zero, suc, ◌+◌, ◌≤◌, length, length-drop, codes, drop, drop-length, All,
  Option, none, some, Build, Result, ok, fault, ◌≡◌, refl, arith, codes,
}
use redisclient_libary.Value.{RedisValue, is_array, null_value}
use redisclient_libary.Parser.Step.{Parser}
use redisclient_libary.Parser.Number.Faults.{IsNumberFault}
use redisclient_libary.Parser.Kept.{IsSaved, ParsedKept, parse-Kept}
use redisclient_libary.Parser.Flat.{IsFlat, Enters, IsFlat-Kept, result-IsSaved}
use redisclient_libary.Parser.Bounds.{parse_bounds}
use redisclient_libary.Parser.{Parsed, ParseResult, completed, uncompleted, error, parse, result}
use redisclient_libary.Socket.Reads.{IsRecv}
use redisclient_libary.Client.{
  ErrorHandler, default_handler, installed, Ended, returned, thrown, crashed, waiting, ◌>>=◌, ◌>>◌,
  return,
}
use redisclient_libary.Client.Sync.{
  OnError, Sync, Run, capacity, report, parser_error, scan, resume,
}

-- The parser is outside of any array, the buffer holds no more than its array, and `recv` keeps to the
-- room that it is offered.
pub record IsReadable (c : Sync) : Type 0 where
  pub flat : IsSaved IsFlat Enters c.parser
  pub in_room : length c.buf ≤ capacity
  pub receives : All IsRecv c.receives

-- A value is no array; an exception comes from the error handler; a fault from `bufferToLong`; or the
-- operation waits for the system.
abbrev pub EndsSafely : Ended Sync RedisValue → Type 0
EndsSafely (returned v d) = IsReadable d × (is_array v ≡ false)
EndsSafely (thrown e d) = IsReadable d
EndsSafely (crashed f) = IsNumberFault f
EndsSafely waiting = Unit

-- The same of the inner loop, which goes on with an empty buffer.
abbrev pub ScanEnds : Sync → Ended Sync (Option RedisValue) → Type 0
ScanEnds c (returned none d) = IsReadable d × (d.buf ≡ []) × (d.receives ≡ c.receives)
ScanEnds c (returned (some v) d) = IsReadable d × (is_array v ≡ false)
ScanEnds c (thrown e d) = IsReadable d
ScanEnds c (crashed f) = IsNumberFault f
ScanEnds c waiting = Unit

abbrev pub holding : Sync → Bytes → Sync
holding c b = record c { buf = b }

kept :
    (c : Sync) (bs : Bytes) (n : ℕ) (q : Parser)
    → IsReadable (holding c bs)
    → IsSaved IsFlat Enters q
    → IsReadable (record c { parser = q; buf = drop n bs })
kept c bs n q h v = record {
  flat = v;
  in_room = omega (arith, h.in_room, length-drop n bs);
  receives = h.receives;
}

-- How the function that is installed for errors may end.
abbrev pub TellsSafely : Ended Sync (Unit {0}) → Type 0
TellsSafely (returned x d) = IsReadable d
TellsSafely (thrown e d) = IsReadable d
TellsSafely (crashed f) = IsNumberFault f
TellsSafely waiting = Unit

abbrev pub ErrorsKeepReadable : OnError → Type 0
ErrorsKeepReadable e = (note : Bytes) (c : Sync) → IsReadable c → TellsSafely (e.on_error note c)

-- A value that is null goes out behind a report.
null-ScanEnds :
    (c : Sync) (next : ℕ) (again : ℕ → Run (Option RedisValue)) (run : Run Unit) (d : Sync)
    (e : Ended Sync (Unit {0}))
    → run d ≡ e
    → TellsSafely e
    → ScanEnds c (((run >> return (some null_value, next)) >>= resume again) d)
unfolding is_array
null-ScanEnds c next again run d (returned x u) f h = rw (◌>>=◌, ◌>>◌, f) (h, refl)
null-ScanEnds c next again run d (thrown x u) f h = rw (◌>>=◌, ◌>>◌, f) h
null-ScanEnds c next again run d (crashed x) f h = rw (◌>>=◌, ◌>>◌, f) h
null-ScanEnds c next again run d waiting f h = rw (◌>>=◌, ◌>>◌, f) tt

report-TellsSafely :
    ⦃errors : OnError⦄ (note : Bytes) (c : Sync) (handler : ErrorHandler)
    → ErrorsKeepReadable errors
    → IsReadable c
    → TellsSafely (report note (record c { error_handler = handler }))
unfolding report
report-TellsSafely note c default_handler safe h = ground arith
report-TellsSafely note c installed safe h = safe note _ (ground arith)

-- A parser error behind `n` bytes.
error-EndsSafely :
    ⦃errors : OnError⦄ (c : Sync) (next : ℕ) (again : ℕ → Run (Option RedisValue))
    → ErrorsKeepReadable errors
    → IsReadable c
    → ScanEnds c ((parser_error next >>= resume again) c)
unfolding parser_error
error-EndsSafely c next again safe h =
    null-ScanEnds c next again (report (codes "[RedisClient] Parser error")) c _ refl
      (report-TellsSafely _ c c.error_handler safe h)

module _ ⦃errors : OnError⦄ (safe : ErrorsKeepReadable errors) (build : Build) where
  scan-nil :
      (fuel n : ℕ) (c : Sync) → scan build fuel n (holding c []) ≡ returned none (holding c [])
  unfolding scan
  scan-nil zero zero c = refl
  scan-nil zero (suc n) c = refl
  scan-nil (suc fuel) zero c = refl
  scan-nil (suc fuel) (suc n) c = refl

  scan-result :
      (c : Sync) (b : ℕ) (bs : Bytes) (r : Parsed) (v : ParseResult)
      → IsReadable (holding c (b ∷ bs))
      → parse build c.parser (b ∷ bs) ≡ ok r
      → r.result ≡ v
      → IsSaved IsFlat Enters r.parser
      → ScanEnds (holding c (b ∷ bs)) (scan build (length (b ∷ bs)) 0 (holding c (b ∷ bs)))
  unfolding scan result
  scan-result c b bs r completed h e u k =
      rw (e, u)
        (
          kept c (b ∷ bs) (0 + r.consumed) (result r.parser).1 h (result-IsSaved r.parser k),
          k.good.not_array,
        )
  scan-result c b bs r uncompleted h e u k =
      let (_, _, all) = parse_bounds build c.parser b bs r e in
      rw (e, u, zero-add r.consumed, all u, drop-length bs)
        (rw (scan-nil (length bs) (length (b ∷ bs)) (record c { parser = r.parser }))
          (record { flat = k; in_room = omega arith; receives = h.receives }, refl, refl))
  scan-result c b bs r error h e u k =
      rw (e, u)
        (error-EndsSafely (record c { parser = r.parser; buf = drop (0 + r.consumed) (b ∷ bs) })
          (0 + r.consumed) (scan build (length bs)) safe
          (kept c (b ∷ bs) (0 + r.consumed) r.parser h k))

  scan-held :
      (c : Sync) (b : ℕ) (bs : Bytes) (r : Result Parsed)
      → IsReadable (holding c (b ∷ bs))
      → parse build c.parser (b ∷ bs) ≡ r
      → ParsedKept IsFlat Enters r
      → ScanEnds (holding c (b ∷ bs)) (scan build (length (b ∷ bs)) 0 (holding c (b ∷ bs)))
  unfolding scan
  scan-held c b bs (fault f) h e k = rw e k
  scan-held c b bs (ok r) h e k = scan-result c b bs r r.result h e refl k

  pub scan-ScanEnds :
      (c : Sync) (bs : Bytes)
      → IsReadable (holding c bs)
      → ScanEnds (holding c bs) (scan build (length bs) 0 (holding c bs))
  scan-ScanEnds c [] h = rw (scan-nil 0 0 c) (h, refl, refl)
  scan-ScanEnds c (b ∷ bs) h =
      scan-held c b bs (parse build c.parser (b ∷ bs)) h refl
        (parse-Kept IsFlat Enters IsFlat-Kept build c.parser (b ∷ bs) h.flat)
