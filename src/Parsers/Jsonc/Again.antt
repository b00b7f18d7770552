-- ===== src/Parsers/Jsonc/Again.antt =====
-- A text that was stripped once has nothing left to strip.
use codewizard_sherpa.Prelude.{ℕ, ◌≡◌, ◌≢◌, [], ◌∷◌, arith}
use codewizard_sherpa.Prelude.Outcome.{ok}
use codewizard_sherpa.Parsers.Jsonc.{Bytes, star, slash, newline, strip_comments}
use codewizard_sherpa.Parsers.Jsonc.Grammar.{
  Starts, Strips, nothing, byte, literal, line, last_line, block,
}
use codewizard_sherpa.Parsers.Jsonc.Stripping.{strip_comments-ok_iff}

-- A slash of code in front of what is left opens a comment only where it did before.
Starts-kept :
    {s out : Bytes} (b x : ℕ)
    → Strips s out
    → (Starts (b ∷ s) slash slash → ⊥)
    → (Starts (b ∷ s) slash star → ⊥)
    → Starts (b ∷ out) slash x
    → Starts (b ∷ s) slash x
Starts-kept b x nothing single multi h = h
Starts-kept b x (byte c unquoted single' multi' more) single multi h = h
Starts-kept b x (literal lit more) single multi h = h
Starts-kept b x (line body free more) single multi h = absurd (single (ground arith))
Starts-kept b x (last_line body free) single multi h = absurd (single (ground arith))
Starts-kept b x (block comment more) single multi h = absurd (single (ground arith))

unstarted : (b x y : ℕ) (s : Bytes) → b ≢ x → Starts (b ∷ s) x y → ⊥
unstarted b x y [] apart h = h
unstarted b x y (c ∷ s) apart h = apart h.0

Strips-again : {s out : Bytes} → Strips s out → Strips out out
Strips-again nothing = nothing
Strips-again (byte b unquoted single multi more) =
    byte b unquoted (λ h. single (Starts-kept b slash more single multi h))
      (λ h. multi (Starts-kept b star more single multi h)) (Strips-again more)
Strips-again (literal lit more) = literal lit (Strips-again more)
Strips-again (line body {out = out} free more) =
    byte newline (ground arith) (unstarted newline slash slash out (ground arith))
      (unstarted newline slash star out (ground arith)) (Strips-again more)
Strips-again (last_line body free) = nothing
Strips-again (block comment more) = Strips-again more

-- Stripping is idempotent: no comment comes about where the text in front of a removed comment
-- meets the text behind it.
pub strip_comments_again : (s out : Bytes) → strip_comments s ≡ ok out → strip_comments out ≡ ok out
strip_comments_again s out h =
    (strip_comments-ok_iff out out).1 (Strips-again ((strip_comments-ok_iff s out).0 h))
