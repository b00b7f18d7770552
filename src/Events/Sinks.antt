-- ===== src/Events/Sinks.antt =====
-- The two sinks of events.py: lines in memory, and a file of compressed frames, one for each
-- record, of which the last may be cut off.
use codewizard_sherpa.Prelude.{
  ℕ, suc, ◌≡◌, ◌≢◌, refl, sym, ap, List, [], ◌∷◌, ◌++◌, arith, ◌==◌, if◌then◌else◌, List-cases, inl,
  inr,
}
use codewizard_sherpa.Prelude.Texts.{Text}

pub data Frame : Type 0 where
  whole : (content : Text) → Frame
  truncated : Frame

pub data Sink : Type 0 where
  memory : (lines : List Text) → Sink
  file : (frames : List Frame) → Sink

-- What the iterator of `read_all` yields, one line after the other, until it ends or raises at a
-- frame with its number.
pub data Lines : Type 0 where
  done : Lines
  torn : (line_number : ℕ) → Lines
  line : Text → Lines → Lines

-- `content.rstrip(b"\n")`
unfoldable pub rstrip : Text → Text
rstrip [] = []
rstrip (c ∷ s) = elim (rstrip s) [ [] ↦ if c == 10 then [] else c ∷ [] | d ∷ r ↦ c ∷ d ∷ r ]

-- The loop of the file's `read_all` behind a number of frames.
unfoldable pub read_frames : ℕ → List Frame → Lines
read_frames n [] = done
read_frames n (truncated ∷ frames) = torn (suc n)
read_frames n (whole content ∷ frames) =
    let rest = read_frames (suc n) frames in
    elim (rstrip content) [ [] ↦ rest | c ∷ r ↦ line (c ∷ r) rest ]

unfoldable pub lines_of : List Text → Lines
lines_of [] = done
lines_of (l ∷ ls) = line l (lines_of ls)

unfoldable pub read_all : Sink → Lines
read_all (memory lines) = lines_of lines
read_all (file frames) = read_frames 0 frames

unfoldable pub append : Text → Sink → Sink
append l (memory lines) = memory (lines ++ l ∷ [])
append l (file frames) = file (frames ++ whole (l ++ 10 ∷ []) ∷ [])

-- A line that the file gives back: it is not empty and no newline ends it.
abbrev pub IsLine : Text → Type 0
IsLine l = (rstrip l ≡ l) × (l ≢ [])

-- One more line, where the iterator gets that far.
abbrev pub snoc : Text → Lines → Lines
snoc l done = line l done
snoc l (torn n) = torn n
snoc l (line x rest) = line x (snoc l rest)

rstrip-newline : (s : Text) → rstrip (s ++ 10 ∷ []) ≡ rstrip s
unfolding rstrip
rstrip-newline [] = refl
rstrip-newline (c ∷ s) = rw (rstrip-newline s) refl

read_frames-append :
    (l : Text)
    → IsLine l
    → (n : ℕ) (frames : List Frame)
    → read_frames n (frames ++ whole (l ++ 10 ∷ []) ∷ []) ≡ snoc l (read_frames n frames)
unfolding read_frames
read_frames-append l h n [] = elim (List-cases l) [
  | inl e ↦ absurd (h.1 e)
  | inr (c, r, e) ↦
      let p : rstrip (l ++ 10 ∷ []) ≡ c ∷ r = ground (arith, rstrip-newline l, h.0, e) in
      rw (p, read_frames) (ap (λ x. line x done) (sym e))
]
read_frames-append l h n (truncated ∷ frames) = refl
read_frames-append l h n (whole content ∷ frames) = elim (List-cases (rstrip content)) [
  | inl e ↦ rw (e, read_frames) (read_frames-append l h (suc n) frames)
  | inr (c, r, e) ↦ rw (e, read_frames) (ap (line (c ∷ r)) (read_frames-append l h (suc n) frames))
]

lines_of-append : (l : Text) (ls : List Text) → lines_of (ls ++ l ∷ []) ≡ snoc l (lines_of ls)
unfolding lines_of
lines_of-append l [] = refl
lines_of-append l (x ∷ ls) = ap (line x) (lines_of-append l ls)

-- A line that is appended to a sink of either kind is the last that is read back; behind a cut
-- off frame no line is read.
pub read_all-append :
    (l : Text) → IsLine l → (sink : Sink) → read_all (append l sink) ≡ snoc l (read_all sink)
unfolding read_all append
read_all-append l h (memory lines) = lines_of-append l lines
read_all-append l h (file frames) = read_frames-append l h 0 frames
