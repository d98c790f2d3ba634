-- ===== src/Proton/KeyChain/Entries/Tests.antt =====
-- The keychain on an empty file system.
use aerogram.Prelude.{◌≡◌, refl, true, map_some, false, none, some, [], ◌∷◌, codes, ok}
use aerogram.Prelude.Utf8.{as_bytes, from_utf8_lossy}
use aerogram.Prelude.Utf8.{is_utf8}
use aerogram.Proton.KeyChain.{
  FileSystem, FileKeyChain, KeyChainEntryKind, store_entry, load_entry, fs_write, set_permissions,
  path, writing, reading, removing, changing_mode,
}
use aerogram.Proton.KeyChain.Entries.{load_entry-store_entry}

abbrev pub empty : FileSystem
empty = record { files = λ p. none; denied = λ what p. false; new_mode = 0x1a4 }

abbrev pub keys : FileKeyChain
keys = record { dir = codes "data" ∷ codes "keys" ∷ [] }

abbrev stored : FileSystem
stored = (store_entry keys KeyChainEntryKind.encryption_key (codes "secret") empty).1

load_entry-store_entry_example :
    load_entry keys KeyChainEntryKind.encryption_key stored ≡ ok (some (codes "secret"))
unfolding is_utf8 as_bytes from_utf8_lossy
load_entry-store_entry_example =
    (load_entry-store_entry keys KeyChainEntryKind.encryption_key (codes "secret") empty refl refl
      refl).1

-- The system refuses every change of a mode.
abbrev fixed : FileSystem
fixed = record empty {
  denied = λ what p. elim what [
    | writing ↦ false
    | reading ↦ false
    | removing ↦ false
    | changing_mode ↦ true
  ];
}

-- The refusal is swallowed, and the new file may be read by others.
refusal_swallowed :
    let after = store_entry keys KeyChainEntryKind.encryption_key (codes "secret") fixed in
    (after.0 ≡ ok tt)
    × (map_some (λ f. f.mode) (after.1.files (path keys KeyChainEntryKind.encryption_key))
        ≡ some 0x1a4)
unfolding store_entry fs_write set_permissions path
refusal_swallowed = (refl, refl)
