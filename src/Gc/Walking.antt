-- ===== src/Gc/Walking.antt =====
-- The walk over the directory of bundles, with what other processes do to it meanwhile.
use codewizard_sherpa.Prelude.{
  ℕ, zero, suc, ◌+◌, ◌-◌, ◌*◌, Bool, false, not, ◌&&◌, ◌||◌, Option, none, some, List, [], ◌∷◌, ltb,
  leb, if◌then◌else◌,
}
use codewizard_sherpa.Prelude.Texts.{Text, codes, text_eq}
use codewizard_sherpa.Gc.Ttl.{GcError, permission_error, is_digit}

abbrev pub second : ℕ
second = 1000000000

unfoldable pub is_evictable : ℕ → ℕ → ℕ → Bool
is_evictable now mtime ttl_seconds = ltb (ttl_seconds * second) (now - mtime)

-- The lower-case hexadecimal digits.
unfoldable pub is_hex : ℕ → Bool
is_hex c = is_digit c || (leb 97 c && leb c 102)

unfoldable pub hex_then : ℕ → Text → Text → Bool
hex_then zero suffix s = text_eq s suffix
hex_then (suc n) suffix [] = false
hex_then (suc n) suffix (c ∷ s) = is_hex c && hex_then n suffix s

-- `_HEX_NAME_RE`
unfoldable pub is_hex_name : Text → Bool
is_hex_name = hex_then 64 (codes ".json")

-- What other processes and the file system do to a child during the walk.
pub data Fate : Type 0 where
  stays gone_before_stat gone_before_unlink locked : Fate

pub record Child : Type 0 where
  pub name : Text
  pub is_symlink : Bool
  pub is_file : Bool
  pub mtime : ℕ
  pub size : ℕ
  pub fate : Fate

-- The three tests in front of `stat`.
unfoldable pub is_bundle : Child → Bool
is_bundle child = not child.is_symlink && child.is_file && is_hex_name child.name

-- The counters of the walk, the children in the directory behind it, and what ended it early.
pub record Walk : Type 0 where
  pub entries_evicted : ℕ
  pub bytes_reclaimed : ℕ
  pub left : List Child
  pub raised : Option GcError

unfoldable pub keep : Child → Walk → Walk
keep child walk = record {
  entries_evicted = walk.entries_evicted;
  bytes_reclaimed = walk.bytes_reclaimed;
  left = child ∷ walk.left;
  raised = walk.raised;
}

-- The part of the loop's body behind `_is_evictable`: `walk` is that of the children to come.
unfoldable pub unlink : Child → List Child → Walk → Walk
unlink child rest walk = elim child.fate [
  | stays ↦ record {
    entries_evicted = suc walk.entries_evicted;
    bytes_reclaimed = child.size + walk.bytes_reclaimed;
    left = walk.left;
    raised = walk.raised;
  }
  | gone_before_stat ↦ walk
  | gone_before_unlink ↦ walk
  | locked ↦ record {
    entries_evicted = 0;
    bytes_reclaimed = 0;
    left = child ∷ rest;
    raised = some (permission_error child.name);
  }
]

unfoldable pub skip : Child → Walk → Walk
skip child walk = elim child.fate [
  | stays ↦ keep child walk
  | gone_before_stat ↦ walk
  | gone_before_unlink ↦ walk
  | locked ↦ keep child walk
]

unfoldable pub sweep : ℕ → ℕ → List Child → Walk
sweep now ttl [] = record { entries_evicted = 0; bytes_reclaimed = 0; left = []; raised = none }
sweep now ttl (child ∷ rest) =
    let walk = sweep now ttl rest in
    if is_bundle child && is_evictable now child.mtime ttl
    then unlink child rest walk
    else skip child walk
