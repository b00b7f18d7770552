-- ===== src/Parsers/Jsonc/Grammar.antt =====
-- A grammar of texts with comments, apart from the machine of jsonc.py, and what is left of such a
-- text.
use codewizard_sherpa.Prelude.{
  ℕ, suc, ◌≡◌, ◌≢◌, refl, ap, false, [], ◌∷◌, ◌++◌, arith, All, ◌==◌, if◌then◌else◌,
}
use codewizard_sherpa.Parsers.Jsonc.{
  Bytes, newline, double_quote, star, slash, backslash, Mode, code, line_comment, string,
  block_comment, opens, after_code, after_string, turns, scan,
}

-- The text starts with the two bytes.
abbrev pub Starts : Bytes → ℕ → ℕ → Type 0
Starts (b ∷ c ∷ s) x y = (b ≡ x) × (c ≡ y)
Starts s x y = ⊥

-- A string literal behind its first quote, to its last one.
pub data Literal : Bytes → Type 0 where
  quote : Literal (double_quote ∷ [])
  escape : (b : ℕ) {body : Bytes} → Literal body → Literal (backslash ∷ b ∷ body)
  plain :
      (b : ℕ) {body : Bytes} → b ≢ double_quote → b ≢ backslash → Literal body → Literal (b ∷ body)

-- What closes a number of levels of a block comment.
pub data Comment : ℕ → Bytes → Type 0 where
  done : Comment 0 []
  leave : {d : ℕ} {body : Bytes} → Comment d body → Comment (suc d) (star ∷ slash ∷ body)
  enter :
      {d : ℕ} {body : Bytes} → Comment (suc (suc d)) body → Comment (suc d) (slash ∷ star ∷ body)
  inside :
      (b : ℕ) {d : ℕ} {body : Bytes}
      → (Starts (b ∷ body) star slash → ⊥)
      → (Starts (b ∷ body) slash star → ⊥)
      → Comment (suc d) body
      → Comment (suc d) (b ∷ body)

-- `Strips s out`: `s` is code, strings and comments, and `out` is `s` less its comments, the
-- newline behind a line comment kept.
pub data Strips : Bytes → Bytes → Type 0 where
  nothing : Strips [] []
  byte :
      (b : ℕ) {s out : Bytes}
      → b ≢ double_quote
      → (Starts (b ∷ s) slash slash → ⊥)
      → (Starts (b ∷ s) slash star → ⊥)
      → Strips s out
      → Strips (b ∷ s) (b ∷ out)
  literal :
      {body s out : Bytes}
      → Literal body
      → Strips s out
      → Strips (double_quote ∷ (body ++ s)) (double_quote ∷ (body ++ out))
  line :
      (body : Bytes) {s out : Bytes}
      → All (λ b. b ≢ newline) body
      → Strips s out
      → Strips (slash ∷ slash ∷ (body ++ newline ∷ s)) (newline ∷ out)
  last_line : (body : Bytes) → All (λ b. b ≢ newline) body → Strips (slash ∷ slash ∷ body) []
  block :
      {body s out : Bytes} → Comment 1 body → Strips s out → Strips (slash ∷ star ∷ (body ++ s)) out

-- The state of a block comment with the levels, code when there are none.
abbrev pub level : ℕ → Mode
level d = if d == 0 then code else block_comment d

scan-Literal :
    {body : Bytes} (s : Bytes)
    → Literal body
    → scan (string false) (body ++ s) ≡ (body ++ (scan code s).0, (scan code s).1)
unfolding scan after_string
scan-Literal s quote = refl
scan-Literal s (escape b {body = body} more) = ground (arith, scan-Literal s more)
scan-Literal s (plain b {body = body} unquoted unescaped more) = ground (arith, scan-Literal s more)

scan-Comment :
    {d : ℕ} {body : Bytes} (s : Bytes) → Comment d body → scan (level d) (body ++ s) ≡ scan code s
unfolding scan turns
scan-Comment s done = refl
scan-Comment s (leave {d = d} more) = ground (arith, scan-Comment s more)
scan-Comment s (enter {d = d} more) = ground (arith, scan-Comment s more)
scan-Comment s (inside b {d = d} {body = []} inner outer more) = elim more [ ]
scan-Comment s (inside b {d = d} {body = c ∷ body} inner outer more) =
    ground (arith, scan-Comment s more)

scan_line :
    (body s : Bytes)
    → All (λ b. b ≢ newline) body
    → scan line_comment (body ++ s) ≡ scan line_comment s
unfolding scan
scan_line [] s h = refl
scan_line (b ∷ body) s h = ground (arith, scan_line body s h.1)

scan_last_line :
    (body : Bytes) → All (λ b. b ≢ newline) body → scan line_comment body ≡ ([], line_comment)
unfolding scan
scan_last_line [] h = refl
scan_last_line (b ∷ body) h = ground (arith, scan_last_line body h.1)

-- A byte of code that opens no comment is kept.
pub scan-byte :
    (b : ℕ) (s : Bytes)
    → (Starts (b ∷ s) slash slash → ⊥)
    → (Starts (b ∷ s) slash star → ⊥)
    → scan code (b ∷ s) ≡ (b ∷ (scan (after_code b) s).0, (scan (after_code b) s).1)
unfolding scan opens
scan-byte b [] single multi = refl
scan-byte b (c ∷ s) single multi = ground arith

-- A text may end in code or in a line comment.
abbrev pub IsClosed : Mode → Type 0
IsClosed code = Unit
IsClosed line_comment = Unit
IsClosed state = ⊥

pub Strips-scan :
    {s out : Bytes} → Strips s out → ((scan code s).0 ≡ out) × IsClosed (scan code s).1
unfolding scan opens after_code
Strips-scan nothing = (refl, tt)
Strips-scan (byte b {s = s} unquoted single multi more) =
    ground (arith, Strips-scan more, scan-byte b s single multi)
Strips-scan (literal {body = body} {s = s} lit more) =
    rw
      (
        scan-byte double_quote (body ++ s) (λ h. ground (arith, h)) (λ h. ground (arith, h)),
        scan-Literal s lit,
      )
      (ap (λ r. double_quote ∷ (body ++ r)) (Strips-scan more).0, (Strips-scan more).1)
Strips-scan (line body {s = s} free more) =
    ground (arith, Strips-scan more, scan_line body (newline ∷ s) free)
Strips-scan (last_line body free) = ground (arith, scan_last_line body free)
Strips-scan (block {body = body} {s = s} comment more) =
    ground (arith, Strips-scan more, scan-Comment s comment)
