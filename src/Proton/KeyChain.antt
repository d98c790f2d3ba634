-- ===== src/Proton/KeyChain.antt =====
-- proton-core/src/lib.rs, `FileKeyChain`: its entries as files. A `String` is its bytes here.
pub mod Entries
use aerogram.Prelude.{
  ℕ, Bool, true, false, ◌&&◌, not, Option, none, some, List, [], ◌∷◌, ◌++◌, if◌then◌else◌, Text,
  Bytes, codes, text_eq, Result, ok, err, map_ok,
}
use aerogram.Prelude.{◌-◌}
use aerogram.Prelude.Utf8.{is_utf8}

pub data KeyChainEntryKind : Type 0 where
  encryption_key device_key pin_hash : KeyChainEntryKind

-- A `PathBuf` by its components, as its equality takes it.
abbrev pub PathBuf : Type 0
PathBuf = List Text

abbrev pub path_eq : PathBuf → PathBuf → Bool
path_eq [] [] = true
path_eq [] (d ∷ q) = false
path_eq (c ∷ p) [] = false
path_eq (c ∷ p) (d ∷ q) = text_eq c d && path_eq p q

pub record File : Type 0 where
  pub bytes : Bytes
  pub mode : ℕ

-- What the system may refuse, each by itself.
pub data Access : Type 0 where
  writing reading removing changing_mode : Access

-- The files, what the system refuses at a path, and what the process's umask leaves of 0666 for a
-- new file.
pub record FileSystem : Type 0 where
  pub files : PathBuf → Option File
  pub denied : Access → PathBuf → Bool
  pub new_mode : ℕ

-- The boxed errors: the system's refusal, no such file, and bytes that are no text.
pub data KeyChainError : Type 0 where
  permission_denied not_found invalid_data : KeyChainError

abbrev pub set_file : PathBuf → Option File → FileSystem → FileSystem
set_file p f fs = record fs { files = λ q. if path_eq p q then f else fs.files q }

-- `std::fs::write`: a new file gets the mode of new files, an old one keeps its own.
unfoldable pub fs_write :
    PathBuf → Bytes → FileSystem → Result KeyChainError (Unit {0}) × FileSystem
fs_write p bytes fs = if fs.denied writing p then (err permission_denied, fs) else (
  ok tt,
  set_file p
      (some (record {
        bytes = bytes;
        mode = elim (fs.files p) [ none ↦ fs.new_mode | some f ↦ f.mode ];
      }))
      fs,
)

-- `set_permissions(…).ok()`: a refusal is swallowed.
unfoldable pub set_permissions : PathBuf → ℕ → FileSystem → FileSystem
set_permissions p mode fs = elim (fs.files p) [
  | none ↦ fs
  | some f ↦
      if fs.denied changing_mode p then fs else set_file p (some (record f { mode = mode })) fs
]

unfoldable pub remove_file : PathBuf → FileSystem → Result KeyChainError (Unit {0}) × FileSystem
remove_file p fs = elim (fs.files p) [
  | none ↦ (err not_found, fs)
  | some f ↦
      if fs.denied removing p then (err permission_denied, fs) else (ok tt, set_file p none fs)
]

unfoldable pub read_to_string : PathBuf → FileSystem → Result KeyChainError Bytes
unfolding is_utf8
read_to_string p fs = elim (fs.files p) [
  | none ↦ err not_found
  | some f ↦
      if fs.denied reading p
      then err permission_denied
      else if is_utf8 f.bytes
      then ok f.bytes
      else err invalid_data
]

abbrev pub exists : PathBuf → FileSystem → Bool
exists p fs = elim (fs.files p) [ none ↦ false | some _ ↦ true ]

abbrev pub file_name : KeyChainEntryKind → Text
file_name encryption_key = codes "encryption.key"
file_name device_key = codes "device.key"
file_name pin_hash = codes "pin_hash.key"

pub record FileKeyChain : Type 0 where
  pub dir : PathBuf

-- `self.dir.join(format!("{name}.key"))`
unfoldable pub path : FileKeyChain → KeyChainEntryKind → PathBuf
path chain kind = chain.dir ++ file_name kind ∷ []

-- On Unix.
unfoldable pub store_entry :
    FileKeyChain
    → KeyChainEntryKind
    → Bytes
    → FileSystem
    → Result KeyChainError (Unit {0}) × FileSystem
unfolding fs_write set_permissions
store_entry chain kind key fs =
    let (r, fs') = fs_write (path chain kind) key fs in
    elim r [ err e ↦ (err e, fs') | ok _ ↦ (ok tt, set_permissions (path chain kind) 0x180 fs') ]

unfoldable pub delete_entry :
    FileKeyChain → KeyChainEntryKind → FileSystem → Result KeyChainError (Unit {0}) × FileSystem
unfolding remove_file
delete_entry chain kind fs =
    if exists (path chain kind) fs then remove_file (path chain kind) fs else (ok tt, fs)

unfoldable pub load_entry :
    FileKeyChain → KeyChainEntryKind → FileSystem → Result KeyChainError (Option Bytes)
unfolding read_to_string
load_entry chain kind fs =
    if not (exists (path chain kind) fs)
    then ok none
    else map_ok some (read_to_string (path chain kind) fs)
