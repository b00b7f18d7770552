-- ===== src/Parsers/Loading/Accepted.antt =====
-- safe_json.py, safe_yaml.py and jsonc.py: the files that a load accepts.
use codewizard_sherpa.Prelude.{
  ℕ, ◌≤◌, ◌≡◌, ◌≢◌, ◌↔◌, refl, List, [], ◌∷◌, arith, inl, inr, List-cases, length, ltb,
  if◌then◌else◌,
}
use codewizard_sherpa.Prelude.Outcome.{Outcome, ok, ◌>>=◌, Outcome-cases, >>=-eq-ok}
use codewizard_sherpa.Parsers.Jsonc.{Bytes, strip_comments}
use codewizard_sherpa.Parsers.Jsonc.Stripping.{strip_comments-shrinks}
use codewizard_sherpa.Parsers.Depth.{container, Heap, assert_max_depth}
use codewizard_sherpa.Parsers.Loading.{
  OsError, eloop, other, File, null_document, other_document, mapping, translated, escaping,
  Decoder, open_file, read_capped, open_capped, refuse_empty, decode_with, require_mapping,
  cap_depth, finish, load_json, read_whole, stripped, load_jsonc,
}

-- A mapping that the decoder makes of the bytes, nested within the cap.
abbrev pub Decodes : Decoder → ℕ → Bytes → Heap → ℕ → Type 0
Decodes loads max_depth bytes heap id =
    (loads bytes ≡ ok (heap, mapping id))
    × ((seen : List ℕ) × (assert_max_depth heap max_depth (container id) ≡ ok seen))

finish-ok_iff :
    (loads : Decoder) (max_depth : ℕ) (bytes : Bytes) (heap : Heap) (id : ℕ)
    → (finish loads max_depth bytes ≡ ok (heap, id)) ↔ Decodes loads max_depth bytes heap id
unfolding finish decode_with require_mapping cap_depth
finish-ok_iff loads max_depth bytes heap id = (
  λ h. elim (Outcome-cases (loads bytes)) [
    | inl (translated, p) ↦ absurd (ground (arith, p, h))
    | inl (escaping, p) ↦ absurd (ground (arith, p, h))
    | inr ((heap', null_document), p) ↦ absurd (ground (arith, p, h))
    | inr ((heap', other_document), p) ↦ absurd (ground (arith, p, h))
    | inr ((heap', mapping id'), p) ↦
        elim (Outcome-cases (assert_max_depth heap' max_depth (container id'))) [
          | inl (e, q) ↦ absurd (ground (arith, p, q, h))
          | inr (seen, q) ↦
              let e : heap' ≡ heap = ground (arith, p, q, h) in
              let f : id' ≡ id = ground (arith, p, q, h) in rw⁻¹ (e, f) (p, (seen, q))
        ]
  ],
  λ (p, (seen, q)). ground (arith, p, q),
)

-- The file is open, within the cap of size, and `bytes` is what one read of its size gives.
pub record Reads (opened : Outcome OsError File) (max_bytes : ℕ) (bytes : Bytes) : Type 0 where
  pub file : File
  pub opens : opened ≡ ok file
  pub within : file.st_size ≤ max_bytes
  pub content : bytes ≡ (if ltb 0 file.st_size then file.read file.st_size else [])

open_capped-ok_iff :
    (opened : Outcome OsError File) (max_bytes : ℕ) (bytes : Bytes)
    → (open_capped opened max_bytes ≡ ok bytes) ↔ Reads opened max_bytes bytes
unfolding open_capped open_file read_capped
open_capped-ok_iff opened max_bytes bytes = (
  λ h. elim (Outcome-cases opened) [
    | inl (eloop, p) ↦ absurd (ground (arith, p, h))
    | inl (other errno, p) ↦ absurd (ground (arith, p, h))
    | inr (file, p) ↦ record {
      file = file;
      opens = p;
      within = ground (arith, p, h);
      content = ground (arith, p, h);
    }
  ],
  λ r. ground (arith, r.opens, r.within, r.content),
)

refuse_empty-ok :
    (read bytes : Bytes) → refuse_empty read ≡ ok bytes → (read ≡ bytes) × (bytes ≢ [])
unfolding refuse_empty
refuse_empty-ok [] bytes h = cc
refuse_empty-ok (b ∷ more) bytes h = ground (arith, h)

ok-refuse_empty : (bytes : Bytes) → bytes ≢ [] → refuse_empty bytes ≡ ok bytes
unfolding refuse_empty
ok-refuse_empty [] h = absurd (h refl)
ok-refuse_empty (b ∷ bytes) h = refl

-- A JSON file is loaded exactly if it opens, is within the cap of size, is not empty, and decodes
-- to a mapping whose walk stays within the cap of depth; what is returned is that mapping.
pub load_json-ok_iff :
    (json_loads : Decoder) (opened : Outcome OsError File) (max_bytes max_depth : ℕ) (heap : Heap)
    (id : ℕ)
    → (load_json json_loads opened max_bytes max_depth ≡ ok (heap, id)) ↔ (
        (bytes : Bytes) × Reads opened max_bytes bytes
        × (bytes ≢ [])
        × Decodes json_loads max_depth bytes heap id)
unfolding load_json
load_json-ok_iff json_loads opened max_bytes max_depth heap id = (
  λ h.
      (let (bytes, p, rest) =
          >>=-eq-ok (open_capped opened max_bytes >>= refuse_empty) (finish json_loads max_depth)
            h in
        let (read, q, kept) = >>=-eq-ok (open_capped opened max_bytes) refuse_empty p in
        let (same, some_bytes) = refuse_empty-ok read bytes kept in
        let r : open_capped opened max_bytes ≡ ok bytes = rw same at q in
        (
          bytes,
          (open_capped-ok_iff opened max_bytes bytes).0 r,
          some_bytes,
          (finish-ok_iff json_loads max_depth bytes heap id).0 rest,
        )),
  λ (bytes, r, some_bytes, d).
      rw
        (
          (open_capped-ok_iff opened max_bytes bytes).1 r,
          ok-refuse_empty bytes some_bytes,
          (finish-ok_iff json_loads max_depth bytes heap id).1 d,
        )
        refl,
)

read_whole-full :
    (file : File) (max_bytes : ℕ)
    → file.st_size ≤ max_bytes
    → length (file.read file.st_size) ≡ file.st_size
    → read_whole max_bytes file ≡ ok (file.read file.st_size)
unfolding read_whole
read_whole-full file max_bytes within full = elim (List-cases (file.read file.st_size)) [
  | inl p ↦ ground (arith, within, full, p)
  | inr (b, bytes, p) ↦ ground (arith, within, full, p)
]

-- A file that holds the bytes.
abbrev pub file_of : Bytes → File
file_of bytes = record { st_size = length bytes; read = λ n. bytes }

open_capped-file_of :
    (bytes : Bytes) (max_bytes : ℕ)
    → length bytes ≤ max_bytes
    → open_capped (ok (file_of bytes)) max_bytes ≡ ok bytes
unfolding open_capped open_file read_capped
open_capped-file_of [] max_bytes within = ground (arith, within)
open_capped-file_of (b ∷ bytes) max_bytes within = ground (arith, within)

stripped-ok : (bytes out : Bytes) → strip_comments bytes ≡ ok out → stripped bytes ≡ ok out
unfolding stripped
stripped-ok bytes out h = ground (arith, h)

-- A file of comments and JSON that is within the cap and read in full loads as the stripped file
-- does: the comments change neither the mapping nor the error.
pub load_jsonc_stripped :
    (json_loads : Decoder) (file : File) (out : Bytes) (max_bytes max_depth : ℕ)
    → file.st_size ≤ max_bytes
    → length (file.read file.st_size) ≡ file.st_size
    → strip_comments (file.read file.st_size) ≡ ok out
    → load_jsonc json_loads (ok file) max_bytes max_depth
      ≡ load_json json_loads (ok (file_of out)) max_bytes max_depth
unfolding load_jsonc load_json open_file
load_jsonc_stripped json_loads file out max_bytes max_depth within full strips =
    let bound = strip_comments-shrinks (file.read file.st_size) out strips in
    rw
      (
        read_whole-full file max_bytes within full,
        stripped-ok (file.read file.st_size) out strips,
        open_capped-file_of out max_bytes (omega (arith, bound, full, within)),
      )
      refl
