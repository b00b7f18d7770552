-- ===== src/Parsers/Jsonc/Stripping.antt =====
-- `_strip_comments` against the grammar: it returns on the texts of the grammar, and what it
-- returns is what the grammar leaves.
use codewizard_sherpa.Prelude.{suc, ◌-◌, ◌≤◌, ◌≡◌, ◌≢◌, ◌↔◌, [], ◌∷◌, arith, length}
use codewizard_sherpa.Prelude.Outcome.{ok, err}
use codewizard_sherpa.Parsers.Jsonc.{
  Bytes, Mode, code, line_comment, string, block_comment, opens, after_code, after_string, turns,
  scan, close, strip_comments, assertion_error,
}
use codewizard_sherpa.Parsers.Jsonc.Grammar.{Strips, IsClosed, Strips-scan}
use codewizard_sherpa.Parsers.Jsonc.Reading.{scan-Reads}

scan_shrinks : (state : Mode) (s : Bytes) → length (scan state s).0 ≤ length s
unfolding scan opens turns
scan_shrinks state [] = omega arith
scan_shrinks code (b ∷ []) = omega arith
scan_shrinks code (b ∷ c ∷ s) = ground (
  arith,
  scan_shrinks line_comment s,
  scan_shrinks (block_comment 1) s,
  scan_shrinks (after_code b) (c ∷ s),
)
scan_shrinks (string e) (b ∷ s) = omega (arith, scan_shrinks (after_string e b) s)
scan_shrinks line_comment (b ∷ s) = ground (arith, scan_shrinks code s, scan_shrinks line_comment s)
scan_shrinks (block_comment d) (b ∷ []) = omega arith
scan_shrinks (block_comment d) (b ∷ c ∷ s) = ground (
  arith,
  scan_shrinks code s,
  scan_shrinks (block_comment (suc d)) s,
  scan_shrinks (block_comment (d - 1)) s,
  scan_shrinks (block_comment d) (c ∷ s),
)

close-IsClosed :
    (s out : Bytes) (last : Mode) (kept : Bytes)
    → close s out last ≡ ok kept
    → IsClosed last × (out ≡ kept)
unfolding close
close-IsClosed s out code kept h = ground arith
close-IsClosed s out line_comment kept h = ground arith
close-IsClosed s out (string e) kept h = cc
close-IsClosed s out (block_comment d) kept h = cc

close-ok :
    (s out : Bytes) (last : Mode)
    → IsClosed last
    → length out ≤ length s
    → close s out last ≡ ok out
unfolding close
close-ok s out code h bound = ground arith
close-ok s out line_comment h bound = ground arith
close-ok s out (string e) h bound = elim h [ ]
close-ok s out (block_comment d) h bound = elim h [ ]

close_asserts :
    (s out : Bytes) (last : Mode) → length out ≤ length s → close s out last ≢ err assertion_error
unfolding close
close_asserts s out code bound h = ground arith
close_asserts s out line_comment bound h = ground arith
close_asserts s out (string e) bound h = cc
close_asserts s out (block_comment d) bound h = cc

-- The stripper returns on exactly the texts of the grammar, whose comments are closed and whose
-- strings are, and returns what the grammar leaves of them: the strings verbatim, whatever
-- slashes and stars they hold, no comment, also where block comments nest, and the newline behind
-- a line comment.
pub strip_comments-ok_iff : (s out : Bytes) → (strip_comments s ≡ ok out) ↔ Strips s out
unfolding strip_comments
strip_comments-ok_iff s out = (
  λ h.
      (let (closed, e) = close-IsClosed s (scan code s).0 (scan code s).1 out h in
        rw⁻¹ e (scan-Reads code s closed)),
  λ k.
      (let (e, closed) = Strips-scan k in
        let bound : length out ≤ length s = ground (arith, scan_shrinks code s, e) in
        rw e (close-ok s out (scan code s).1 closed bound)),
)

-- What the stripper raises is one of its two errors of an open string or comment: its assertion
-- that the output is no longer than the input never fails.
pub strip_comments-asserts : (s : Bytes) → strip_comments s ≢ err assertion_error
unfolding strip_comments
strip_comments-asserts s = close_asserts s (scan code s).0 (scan code s).1 (scan_shrinks code s)

pub strip_comments-shrinks : (s out : Bytes) → strip_comments s ≡ ok out → length out ≤ length s
unfolding strip_comments
strip_comments-shrinks s out h =
    let (closed, e) = close-IsClosed s (scan code s).0 (scan code s).1 out h in
    ground (arith, scan_shrinks code s, e)
