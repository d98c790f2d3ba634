-- ===== src/Proton/KeyChain/Entries.antt =====
-- What the keychain gives back.
pub mod Tests
use aerogram.Prelude.{
  ◌≢◌, map_some, unwrap_or, Bool-cases, ℕ, ◌≡◌, refl, sym, ap, ◌∙◌, inl, inr, Bool, true, false,
  ◌&&◌, Option, none, some, [], ◌∷◌, ◌++◌, arith, if◌then◌else◌, Option-cases, Bytes, text_eq,
  text_eq_refl, Result, ok, err,
}
use aerogram.Prelude.{◌-◌}
use aerogram.Prelude.Utf8.{is_utf8}
use aerogram.Proton.KeyChain.{
  KeyChainEntryKind, PathBuf, path_eq, File, writing, reading, removing, changing_mode, FileSystem,
  KeyChainError, set_file, fs_write, set_permissions, remove_file, read_to_string, file_name,
  FileKeyChain, path, store_entry, delete_entry, load_entry,
}
use aerogram.Proton.KeyChain.KeyChainError.{permission_denied, invalid_data}

path_eq_refl : (p : PathBuf) → path_eq p p ≡ true
path_eq_refl [] = refl
path_eq_refl (c ∷ p) = rw (text_eq_refl c, path_eq_refl p) refl

path_eq-append : (p q r : PathBuf) → path_eq (p ++ q) (p ++ r) ≡ path_eq q r
path_eq-append [] q r = refl
path_eq-append (c ∷ p) q r = rw (text_eq_refl c) (path_eq-append p q r)

abbrev kind_eq : KeyChainEntryKind → KeyChainEntryKind → Bool
kind_eq j k = text_eq (file_name j) (file_name k)

path_eq-path :
    (chain : FileKeyChain) (j k : KeyChainEntryKind)
    → path_eq (path chain j) (path chain k) ≡ kind_eq j k && true
unfolding path
path_eq-path chain j k = path_eq-append chain.dir (file_name j ∷ []) (file_name k ∷ [])

-- No two kinds share a name.
kind_eq_distinct : (j k : KeyChainEntryKind) → j ≢ k → kind_eq j k ≡ false
kind_eq_distinct KeyChainEntryKind.encryption_key KeyChainEntryKind.encryption_key h =
    absurd (h refl)
kind_eq_distinct KeyChainEntryKind.encryption_key KeyChainEntryKind.device_key h = refl
kind_eq_distinct KeyChainEntryKind.encryption_key KeyChainEntryKind.pin_hash h = refl
kind_eq_distinct KeyChainEntryKind.device_key KeyChainEntryKind.encryption_key h = refl
kind_eq_distinct KeyChainEntryKind.device_key KeyChainEntryKind.device_key h = absurd (h refl)
kind_eq_distinct KeyChainEntryKind.device_key KeyChainEntryKind.pin_hash h = refl
kind_eq_distinct KeyChainEntryKind.pin_hash KeyChainEntryKind.encryption_key h = refl
kind_eq_distinct KeyChainEntryKind.pin_hash KeyChainEntryKind.device_key h = refl
kind_eq_distinct KeyChainEntryKind.pin_hash KeyChainEntryKind.pin_hash h = absurd (h refl)

-- Loading reads the entry's file, and nothing else.
abbrev pub load_file : Option File → Bool → Result KeyChainError (Option Bytes)
load_file none denied = ok none
load_file (some f) denied =
    if denied
    then err permission_denied
    else if is_utf8 f.bytes
    then ok (some f.bytes)
    else err invalid_data

pub load_entry_file :
    (chain : FileKeyChain) (kind : KeyChainEntryKind) (fs : FileSystem)
    → load_entry chain kind fs
      ≡ load_file (fs.files (path chain kind)) (fs.denied reading (path chain kind))
unfolding load_entry read_to_string
load_entry_file chain kind fs = ground arith

pub set_file_lem :
    (chain : FileKeyChain) (kind : KeyChainEntryKind) (f : Option File) (fs : FileSystem)
    → ((set_file (path chain kind) f fs).files (path chain kind) ≡ f)
      × ((other : KeyChainEntryKind)
          → kind ≢ other
          → (set_file (path chain kind) f fs).files (path chain other)
            ≡ fs.files (path chain other))
set_file_lem chain kind f fs = (
  rw (path_eq_refl (path chain kind)) refl,
  λ other differ. rw (path_eq-path chain kind other, kind_eq_distinct kind other differ) refl,
)

-- The mode that `write` leaves: the file's, or that of new files.
abbrev pub left_mode : FileSystem → PathBuf → ℕ
left_mode fs p = unwrap_or (map_some (λ f. f.mode) (fs.files p)) fs.new_mode

pub fs_write_lem :
    (p : PathBuf) (key : Bytes) (fs : FileSystem)
    → fs.denied writing p ≡ false
    → fs_write p key fs
      ≡ (ok tt, set_file p (some (record { bytes = key; mode = left_mode fs p })) fs)
unfolding fs_write
fs_write_lem p key fs allowed = ground arith

set_permissions_lem :
    (p : PathBuf) (mode : ℕ) (f : File) (fs : FileSystem)
    → fs.denied changing_mode p ≡ false
    → fs.files p ≡ some f
    → set_permissions p mode fs ≡ set_file p (some (record f { mode = mode })) fs
unfolding set_permissions
set_permissions_lem p mode f fs allowed there = ground arith

set_permissions_refused :
    (p : PathBuf) (mode : ℕ) (fs : FileSystem)
    → fs.denied changing_mode p ≡ true
    → set_permissions p mode fs ≡ fs
unfolding set_permissions
set_permissions_refused p mode fs refused = ground arith

store_after_write :
    (chain : FileKeyChain) (kind : KeyChainEntryKind) (key : Bytes) (fs fs' : FileSystem)
    → fs_write (path chain kind) key fs ≡ (ok tt, fs')
    → store_entry chain kind key fs ≡ (ok tt, set_permissions (path chain kind) 0x180 fs')
unfolding store_entry
store_after_write chain kind key fs fs' wrote = ground arith

-- The file of one entry is another, the others and the system are as before.
record Replaced (chain : FileKeyChain) (kind : KeyChainEntryKind) (f : File) (fs after : FileSystem)
    : Type 0 where
  own : after.files (path chain kind) ≡ some f
  others :
      (other : KeyChainEntryKind)
      → kind ≢ other
      → after.files (path chain other) ≡ fs.files (path chain other)
  system : after.denied ≡ fs.denied

-- What the mode of an entry's file is after a key is stored: 0600, or where the system does not let
-- the mode be changed, what `write` left.
abbrev stored_mode : FileSystem → PathBuf → ℕ
stored_mode fs p = if fs.denied changing_mode p then left_mode fs p else 0x180

-- What the files are after a key is stored.
store_entry_files :
    (chain : FileKeyChain) (kind : KeyChainEntryKind) (key : Bytes) (fs : FileSystem)
    → fs.denied writing (path chain kind) ≡ false
    → (after : FileSystem) × (store_entry chain kind key fs ≡ (ok tt, after))
      × Replaced chain kind
          (record { bytes = key; mode = stored_mode fs (path chain kind) })
          fs
          after
store_entry_files chain kind key fs allowed =
    let p = path chain kind in
    let f : File = record { bytes = key; mode = left_mode fs p } in
    let first = set_file p (some f) fs in
    let (own, others) = set_file_lem chain kind (some f) fs in
    let wrote = store_after_write chain kind key fs first (fs_write_lem p key fs allowed) in
    elim (Bool-cases (fs.denied changing_mode p)) [
      | inl refused ↦ (
        first,
        wrote ∙ ap (λ fs'. (ok tt, fs')) (set_permissions_refused p 0x180 first refused),
        record { own = rw (own, refused) refl; others = others; system = refl },
      )
      | inr let_change ↦
          let g : File = record { bytes = key; mode = 0x180 } in
          let (own', others') = set_file_lem chain kind (some g) first in
          (
            set_file p (some g) first,
            wrote ∙ ap (λ fs'. (ok tt, fs')) (set_permissions_lem p 0x180 f first let_change own),
            record {
              own = rw (own', let_change) refl;
              others = λ other differ. others' other differ ∙ others other differ;
              system = refl;
            },
          )
    ]

-- An entry that was not replaced loads as before.
pub load_entry-others :
    (chain : FileKeyChain) (other : KeyChainEntryKind) (fs after : FileSystem)
    → after.files (path chain other) ≡ fs.files (path chain other)
    → after.denied ≡ fs.denied
    → load_entry chain other after ≡ load_entry chain other fs
load_entry-others chain other fs after same system =
    load_entry_file chain other after
    ∙ rw (same, system) refl
    ∙ sym (load_entry_file chain other fs)

-- Where the system lets an entry's file be written and read, a stored key, a text, is loaded again
-- and the other entries load as before. Only the owner may read its file if the system lets the
-- mode be changed; otherwise storing succeeds all the same, and the file has the mode that it had,
-- or if it is new, that of new files.
pub load_entry-store_entry :
    (chain : FileKeyChain) (kind : KeyChainEntryKind) (key : Bytes) (fs : FileSystem)
    → fs.denied writing (path chain kind) ≡ false
    → fs.denied reading (path chain kind) ≡ false
    → is_utf8 key ≡ true
    → let after = store_entry chain kind key fs in
      (after.0 ≡ ok tt)
      × (load_entry chain kind after.1 ≡ ok (some key))
      × (map_some (λ f. f.mode) (after.1.files (path chain kind))
          ≡ some (
              if fs.denied changing_mode (path chain kind)
              then unwrap_or (map_some (λ f. f.mode) (fs.files (path chain kind))) fs.new_mode
              else 0x180))
      × ((other : KeyChainEntryKind)
          → kind ≢ other
          → load_entry chain other after.1 ≡ load_entry chain other fs)
load_entry-store_entry chain kind key fs allowed readable text =
    let (after, run, replaced) = store_entry_files chain kind key fs allowed in
    rw run (
      refl,
      load_entry_file chain kind after ∙ rw (replaced.own, replaced.system, readable, text) refl,
      rw replaced.own refl,
      λ other differ.
          load_entry-others chain other fs after (replaced.others other differ) replaced.system,
    )

delete_missing :
    (chain : FileKeyChain) (kind : KeyChainEntryKind) (fs : FileSystem)
    → fs.files (path chain kind) ≡ none
    → delete_entry chain kind fs ≡ (ok tt, fs)
unfolding delete_entry
delete_missing chain kind fs missing = ground arith

delete_there :
    (chain : FileKeyChain) (kind : KeyChainEntryKind) (f : File) (fs : FileSystem)
    → fs.denied removing (path chain kind) ≡ false
    → fs.files (path chain kind) ≡ some f
    → delete_entry chain kind fs ≡ (ok tt, set_file (path chain kind) none fs)
unfolding delete_entry remove_file
delete_there chain kind f fs allowed there = ground arith

-- Where the system lets a file be removed, a deleted entry loads as none, whether it was there or
-- not, and the other entries load as before.
pub load_entry-delete_entry :
    (chain : FileKeyChain) (kind : KeyChainEntryKind) (fs : FileSystem)
    → fs.denied removing (path chain kind) ≡ false
    → let after = delete_entry chain kind fs in
      (after.0 ≡ ok tt)
      × (load_entry chain kind after.1 ≡ ok none)
      × ((other : KeyChainEntryKind)
          → kind ≢ other
          → load_entry chain other after.1 ≡ load_entry chain other fs)
load_entry-delete_entry chain kind fs allowed = elim (Option-cases (fs.files (path chain kind))) [
  | inl missing ↦
      rw (delete_missing chain kind fs missing)
        (refl, load_entry_file chain kind fs ∙ rw missing refl, (λ other differ. refl))
  | inr (f, there) ↦
      let gone = set_file (path chain kind) none fs in
      let (own, others) = set_file_lem chain kind none fs in
      rw (delete_there chain kind f fs allowed there) (
        refl,
        load_entry_file chain kind gone ∙ rw own refl,
        λ other differ. load_entry-others chain other fs gone (others other differ) refl,
      )
]
