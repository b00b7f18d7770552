-- ===== src/Parsers/Jsonc/Reading.antt =====
-- What the machine of jsonc.py reads, state by state, where the text ends well.
use codewizard_sherpa.Prelude.{
  ℕ, zero, suc, ◌≡◌, ◌≢◌, refl, ap, true, false, [], ◌∷◌, ◌++◌, arith, All, ◌==◌, ◌⊎◌, inl, inr,
  Bool-cases,
}
use codewizard_sherpa.Parsers.Jsonc.{
  Bytes, newline, double_quote, star, slash, backslash, Mode, code, line_comment, string,
  block_comment, opens, after_code, after_string, turns, scan,
}
use codewizard_sherpa.Parsers.Jsonc.Grammar.{
  Starts, Literal, quote, escape, plain, Comment, done, leave, enter, inside, Strips, nothing, byte,
  literal, line, last_line, block, IsClosed, level, scan-byte,
}

-- What a text is whose scan from the state ends well, and what it puts out.
abbrev pub Reads : Mode → Bytes → Bytes → Type 0
Reads code s out = Strips s out
Reads line_comment s out =
    (All (λ b. b ≢ newline) s × (out ≡ []))
    ⊎ ((body : Bytes) × (rest : Bytes) × (kept : Bytes) × All (λ b. b ≢ newline) body
        × (s ≡ body ++ newline ∷ rest)
        × (out ≡ newline ∷ kept)
        × Strips rest kept)
Reads (string false) s out =
    (body : Bytes) × (rest : Bytes) × (kept : Bytes) × Literal body
    × (s ≡ body ++ rest)
    × (out ≡ body ++ kept)
    × Strips rest kept
Reads (string true) s out =
    (b : ℕ) × (body : Bytes) × (rest : Bytes) × (kept : Bytes) × Literal body
    × (s ≡ b ∷ (body ++ rest))
    × (out ≡ b ∷ (body ++ kept))
    × Strips rest kept
Reads (block_comment zero) s out = Unit
Reads (block_comment (suc d)) s out =
    (body : Bytes) × (rest : Bytes) × Comment (suc d) body × (s ≡ body ++ rest) × Strips rest out

Starts-cases :
    (b c : ℕ) (s : Bytes) (x y : ℕ) → Starts (b ∷ c ∷ s) x y ⊎ (Starts (b ∷ c ∷ s) x y → ⊥)
Starts-cases b c s x y = ground (arith, Bool-cases (b == x), Bool-cases (c == y))

-- From the state behind the opening of a string or a comment to the whole text.
from_line : (s out : Bytes) → Reads line_comment s out → Strips (slash ∷ slash ∷ s) out
from_line s out (inl (free, e)) = rw e (last_line s free)
from_line s out (inr (body, rest, kept, free, p, q, more)) = rw (p, q) (line body free more)

from_block : (s out : Bytes) → Reads (block_comment 1) s out → Strips (slash ∷ star ∷ s) out
from_block s out (body, rest, comment, p, more) = rw p (block comment more)

from_string :
    (s out : Bytes) → Reads (string false) s out → Strips (double_quote ∷ s) (double_quote ∷ out)
from_string s out (body, rest, kept, lit, p, q, more) = rw (p, q) (literal lit more)

from_byte :
    (b : ℕ) (s : Bytes)
    → (Starts (b ∷ s) slash slash → ⊥)
    → (Starts (b ∷ s) slash star → ⊥)
    → ((state : Mode) → IsClosed (scan state s).1 → Reads state s (scan state s).0)
    → IsClosed (scan code (b ∷ s)).1
    → Strips (b ∷ s) (scan code (b ∷ s)).0
unfolding after_code
from_byte b s single multi next h =
    let step = scan-byte b s single multi in
    let k : IsClosed (scan (after_code b) s).1 = rw step at h in
    elim (Bool-cases (b == double_quote)) [
      | inl e ↦
          let p : b ≡ double_quote = ground (arith, e) in
          rw step (rw p (from_string s (scan (string false) s).0 (next (string false) (rw p at k))))
      | inr e ↦
          let p : b ≢ double_quote = ground (arith, e) in
          rw step (rw e (byte b p single multi (next code (rw e at k))))
    ]

from_inside :
    (d b c : ℕ) (s out : Bytes)
    → (Starts (b ∷ c ∷ s) slash star → ⊥)
    → (Starts (b ∷ c ∷ s) star slash → ⊥)
    → Reads (block_comment (suc d)) (c ∷ s) out
    → Reads (block_comment (suc d)) (b ∷ c ∷ s) out
from_inside d b c s out outer inner ([], rest, comment, p, more) = elim comment [ ]
from_inside d b c s out outer inner (x ∷ body, rest, comment, p, more) = (
  b ∷ x ∷ body,
  rest,
  inside b (λ h. inner (ground (arith, p, h))) (λ h. outer (ground (arith, p, h))) comment,
  ap (λ l. b ∷ l) p,
  more,
)

scan_inside :
    (d b c : ℕ) (s : Bytes)
    → (Starts (b ∷ c ∷ s) slash star → ⊥)
    → (Starts (b ∷ c ∷ s) star slash → ⊥)
    → scan (block_comment (suc d)) (b ∷ c ∷ s) ≡ scan (block_comment (suc d)) (c ∷ s)
unfolding scan turns
scan_inside d b c s outer inner = ground arith

scan_leave :
    (d : ℕ) (s : Bytes) → scan (block_comment (suc d)) (star ∷ slash ∷ s) ≡ scan (level d) s
unfolding scan turns
scan_leave d s = ground arith

from_leave :
    (d : ℕ) (s : Bytes)
    → ((state : Mode) → IsClosed (scan state s).1 → Reads state s (scan state s).0)
    → IsClosed (scan (level d) s).1
    → (body : Bytes) × (rest : Bytes) × Comment d body
      × (s ≡ body ++ rest)
      × Strips rest (scan (level d) s).0
from_leave zero s next h = ([], s, done, refl, next code h)
from_leave (suc d) s next h =
    let e : level (suc d) ≡ block_comment (suc d) = ground arith in
    rw e (next (block_comment (suc d)) (rw e at h))

pub scan-Reads :
    (state : Mode) (s : Bytes) → IsClosed (scan state s).1 → Reads state s (scan state s).0
unfolding scan opens turns after_string
scan-Reads code [] h = nothing
scan-Reads line_comment [] h = inl (tt, refl)
scan-Reads (string e) [] h = elim h [ ]
scan-Reads (block_comment zero) s h = tt
scan-Reads (block_comment (suc d)) [] h = elim h [ ]
scan-Reads code (b ∷ []) h = from_byte b [] (λ k. k) (λ k. k) (λ m. scan-Reads m []) h
scan-Reads code (b ∷ c ∷ s) h = elim (Starts-cases b c s slash slash) [
  | inl (p, q) ↦
      rw (p, q) (from_line s (scan line_comment s).0 (scan-Reads line_comment s (rw (p, q) at h)))
  | inr single ↦ elim (Starts-cases b c s slash star) [
    | inl (p, q) ↦
        rw (p, q)
          (from_block s (scan (block_comment 1) s).0
            (scan-Reads (block_comment 1) s (rw (p, q) at h)))
    | inr multi ↦ from_byte b (c ∷ s) single multi (λ m. scan-Reads m (c ∷ s)) h
  ]
]
scan-Reads line_comment (b ∷ s) h = elim (Bool-cases (b == newline)) [
  | inl e ↦
      let p : b ≡ newline = ground (arith, e) in
      rw p (inr ([], s, (scan code s).0, tt, refl, refl, scan-Reads code s (rw p at h)))
  | inr e ↦
      let p : b ≢ newline = ground (arith, e) in
      elim (scan-Reads line_comment s (rw (e, IsClosed) at h)) [
        | inl (free, q) ↦ rw (e, scan) (inl ((p, free), q))
        | inr (body, rest, kept, free, q, r, more) ↦
            rw (e, scan) (inr (b ∷ body, rest, kept, (p, free), ap (λ l. b ∷ l) q, r, more))
      ]
]
scan-Reads (string true) (b ∷ s) h =
    let (body, rest, kept, lit, p, q, more) = scan-Reads (string false) s h in
    (b, body, rest, kept, lit, ap (λ r. b ∷ r) p, ap (λ r. b ∷ r) q, more)
scan-Reads (string false) (b ∷ s) h = elim (Bool-cases (b == backslash)) [
  | inl e ↦
      let p : b ≡ backslash = ground (arith, e) in
      let (c, body, rest, kept, lit, q, r, more) = scan-Reads (string true) s (rw p at h) in
      rw p (
        backslash ∷ c ∷ body,
        rest,
        kept,
        escape c lit,
        ap (λ l. backslash ∷ l) q,
        ap (λ l. backslash ∷ l) r,
        more,
      )
  | inr e ↦ elim (Bool-cases (b == double_quote)) [
    | inl i ↦
        let p : b ≡ double_quote = ground (arith, i) in
        rw p
          (double_quote ∷ [], s, (scan code s).0, quote, refl, refl, scan-Reads code s (rw p at h))
    | inr i ↦
        let (body, rest, kept, lit, q, r, more) =
          scan-Reads (string false) s (rw (e, i, IsClosed) at h) in
        rw (e, i, scan)
          (
            b ∷ body,
            rest,
            kept,
            plain b (ground (arith, i)) (ground (arith, e)) lit,
            ap (λ l. b ∷ l) q,
            ap (λ l. b ∷ l) r,
            more,
          )
  ]
]
scan-Reads (block_comment (suc d)) (b ∷ []) h = elim h [ ]
scan-Reads (block_comment (suc d)) (b ∷ c ∷ s) h = elim (Starts-cases b c s slash star) [
  | inl (p, q) ↦
      let (body, rest, comment, r, more) =
        scan-Reads (block_comment (suc (suc d))) s (rw (p, q) at h) in
      rw (p, q) (slash ∷ star ∷ body, rest, enter comment, ap (λ l. slash ∷ star ∷ l) r, more)
  | inr outer ↦ elim (Starts-cases b c s star slash) [
    | inl (p, q) ↦
        let k : IsClosed (scan (level d) s).1 = rw (p, q, scan_leave d s) at h in
        let (body, rest, comment, r, more) = from_leave d s (λ m. scan-Reads m s) k in
        rw (p, q, scan_leave d s)
          (star ∷ slash ∷ body, rest, leave comment, ap (λ l. star ∷ slash ∷ l) r, more)
    | inr inner ↦
        let step = scan_inside d b c s outer inner in
        rw step (
          from_inside d b c s (scan (block_comment (suc d)) (c ∷ s)).0 outer inner
            (scan-Reads (block_comment (suc d)) (c ∷ s) (rw step at h)))
  ]
]
