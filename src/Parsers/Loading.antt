-- ===== src/Parsers/Loading.antt =====
-- src/codegenie/parsers/_io.py, safe_json.py, safe_yaml.py and the `load` of jsonc.py: the steps
-- from a path to a mapping. The file system, `json` and `yaml` are parameters: what `os.open`
-- returned, and what the decoders make of bytes.
pub mod Accepted
pub mod Streams
use codewizard_sherpa.Prelude.{
  ℕ, List, [], ◌∷◌, length, ◌==◌, Option, none, some, ltb, if◌then◌else◌,
}
use codewizard_sherpa.Prelude.Outcome.{Outcome, ok, err, ◌>>=◌}
use codewizard_sherpa.Parsers.Jsonc.{
  Bytes, StripError, unterminated_string, unterminated_block_comment, assertion_error,
  strip_comments,
}
use codewizard_sherpa.Parsers.Depth.{Value, container, Heap, DepthError, assert_max_depth}

pub data OsError : Type 0 where
  eloop : OsError
  other : (errno : ℕ) → OsError

-- An open file: `os.fstat(fd).st_size`, and what `os.read(fd, n)` gives.
pub record File : Type 0 where
  pub st_size : ℕ
  pub read : ℕ → Bytes

-- A decoded document by its top: `None`, a mapping, or another value.
pub data Document : Type 0 where
  null_document other_document : Document
  mapping : (id : ℕ) → Document

-- What a decoder raises: the class of errors that the module translates, or another exception.
pub data DecodeError : Type 0 where
  translated escaping : DecodeError

pub data Malformed : Type 0 where
  empty_file short_read open_string open_comment decode_detail not_a_mapping : Malformed

pub data LoadError : Type 0 where
  symlink_refused size_cap_exceeded assertion_failed exception_escapes : LoadError
  os_error : (errno : ℕ) → LoadError
  malformed : Malformed → LoadError
  depth_error : DepthError → LoadError

-- What the third-party decoders return: the objects and the top of a document.
abbrev pub Decoder : Type 0
Decoder = Bytes → Outcome DecodeError (Heap × Document)

-- `os.open` with `O_NOFOLLOW`, and the translation of its error.
unfoldable pub open_file : Outcome OsError File → Outcome LoadError File
open_file (ok file) = ok file
open_file (err eloop) = err symlink_refused
open_file (err (other errno)) = err (os_error errno)

-- The check of the size, and the read.
unfoldable pub read_capped : ℕ → File → Outcome LoadError Bytes
read_capped max_bytes file =
    if ltb max_bytes file.st_size
    then err size_cap_exceeded
    else if ltb 0 file.st_size
    then ok (file.read file.st_size)
    else ok []

unfoldable pub open_capped : Outcome OsError File → (max_bytes : ℕ) → Outcome LoadError Bytes
open_capped opened max_bytes = open_file opened >>= read_capped max_bytes

-- `if not data`
unfoldable pub refuse_empty : Bytes → Outcome LoadError Bytes
refuse_empty [] = err (malformed empty_file)
refuse_empty (b ∷ bytes) = ok (b ∷ bytes)

-- `json.loads` or `yaml.load` under the handler of the module.
unfoldable pub decode_with : Decoder → Bytes → Outcome LoadError (Heap × Document)
decode_with loads bytes = elim (loads bytes) [
  | ok decoded ↦ ok decoded
  | err translated ↦ err (malformed decode_detail)
  | err escaping ↦ err exception_escapes
]

-- `isinstance(obj, dict)`
unfoldable pub require_mapping : Heap × Document → Outcome LoadError (Heap × ℕ)
require_mapping (heap, mapping id) = ok (heap, id)
require_mapping (heap, document) = err (malformed not_a_mapping)

-- The depth walk of a mapping, which is then returned.
unfoldable pub cap_depth : ℕ → Heap × ℕ → Outcome LoadError (Heap × ℕ)
cap_depth max_depth (heap, id) = elim (assert_max_depth heap max_depth (container id)) [
  | ok seen ↦ ok (heap, id)
  | err e ↦ err (depth_error e)
]

-- The decode, the check of the top and the walk, on bytes that are not empty.
unfoldable pub finish : Decoder → ℕ → Bytes → Outcome LoadError (Heap × ℕ)
finish loads max_depth bytes = decode_with loads bytes >>= require_mapping >>= cap_depth max_depth

-- safe_json.py
unfoldable pub load_json :
    Decoder → Outcome OsError File → (max_bytes max_depth : ℕ) → Outcome LoadError (Heap × ℕ)
load_json json_loads opened max_bytes max_depth =
    open_capped opened max_bytes >>= refuse_empty >>= finish json_loads max_depth

-- safe_yaml.py: an empty file is `None` to the decoder.
unfoldable pub load_yaml :
    Decoder → Outcome OsError File → (max_bytes max_depth : ℕ) → Outcome LoadError (Heap × ℕ)
load_yaml yaml_load opened max_bytes max_depth =
    open_capped opened max_bytes >>= finish yaml_load max_depth

-- `loads` of safe_yaml.py
unfoldable pub loads_yaml :
    Decoder → Bytes → (max_bytes max_depth : ℕ) → Outcome LoadError (Heap × ℕ)
loads_yaml yaml_load bytes max_bytes max_depth =
    if ltb max_bytes (length bytes) then err size_cap_exceeded else finish yaml_load max_depth bytes

-- The read of jsonc.py, which refuses to go on with fewer bytes than the file has.
unfoldable pub read_whole : ℕ → File → Outcome LoadError Bytes
read_whole max_bytes file =
    if ltb max_bytes file.st_size
    then err size_cap_exceeded
    else let bytes = if ltb 0 file.st_size then file.read file.st_size else [] in
      if length bytes == file.st_size then ok bytes else err (malformed short_read)

-- `_strip_comments` under the handlers of `load`.
unfoldable pub stripped : Bytes → Outcome LoadError Bytes
stripped bytes = elim (strip_comments bytes) [
  | ok out ↦ ok out
  | err unterminated_string ↦ err (malformed open_string)
  | err unterminated_block_comment ↦ err (malformed open_comment)
  | err assertion_error ↦ err assertion_failed
]

-- jsonc.py
unfoldable pub load_jsonc :
    Decoder → Outcome OsError File → (max_bytes max_depth : ℕ) → Outcome LoadError (Heap × ℕ)
load_jsonc json_loads opened max_bytes max_depth =
    open_file opened
    >>= read_whole max_bytes
    >>= stripped
    >>= refuse_empty
    >>= finish json_loads max_depth

-- What the generator of `load_all` yields before it ends, and the error it ends with, if any.
pub record Stream : Type 0 where
  pub yielded : List (Heap × Document)
  pub raised : Option LoadError

-- The items of `yaml.load_all`, and the error it ends with, if any.
pub record Documents : Type 0 where
  pub items : List (Heap × Document)
  pub last : Option DecodeError

-- The handler around the loop.
unfoldable pub handled : Option DecodeError → Option LoadError
handled none = none
handled (some translated) = some (malformed decode_detail)
handled (some escaping) = some exception_escapes

-- The checks of one document; `None` passes.
unfoldable pub document_error : ℕ → Heap × Document → Option LoadError
document_error max_depth (heap, null_document) = none
document_error max_depth (heap, other_document) = some (malformed not_a_mapping)
document_error max_depth (heap, mapping id) =
    elim (assert_max_depth heap max_depth (container id)) [
      | ok seen ↦ none
      | err e ↦ some (depth_error e)
    ]

-- `_generate`
unfoldable pub generate : ℕ → List (Heap × Document) → Option DecodeError → Stream
generate max_depth [] last = record { yielded = []; raised = handled last }
generate max_depth (item ∷ items) last =
    let rest = generate max_depth items last in
    elim (document_error max_depth item) [
      | none ↦ record { yielded = item ∷ rest.yielded; raised = rest.raised }
      | some e ↦ record { yielded = []; raised = some e }
    ]

unfoldable pub load_all :
    (Bytes → Documents)
    → Outcome OsError File
    → (max_bytes max_depth : ℕ) → Outcome LoadError Stream
load_all yaml_load_all opened max_bytes max_depth = open_capped opened max_bytes >>= (λ bytes.
    let documents = yaml_load_all bytes in ok (generate max_depth documents.items documents.last))
