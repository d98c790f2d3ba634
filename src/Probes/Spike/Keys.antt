-- ===== src/Probes/Spike/Keys.antt =====
-- The spike's keychain beside the crate's, over one directory.
use aerogram.Prelude.{
  ◌≡◌, ◌≢◌, refl, ◌∙◌, false, true, some, ℕ, Option, unwrap_or, if◌then◌else◌, arith, map_some,
  Bytes, ok,
}
use aerogram.Prelude.Utf8.{is_utf8}
use aerogram.Proton.KeyChain.{
  File, KeyChainEntryKind, FileSystem, FileKeyChain, PathBuf, writing, reading, changing_mode, path,
  set_file, remove_file,
}
use aerogram.Proton.KeyChain
use aerogram.Proton.KeyChain.Entries.{
  left_mode, load_entry_file, load_entry-others, set_file_lem, fs_write_lem, load_entry-store_entry,
}
use aerogram.Probes.Spike.{store_entry, delete_entry, load_entry}

loads_alike :
    (chain : FileKeyChain) (kind : KeyChainEntryKind) (fs : FileSystem)
    → load_entry chain kind fs ≡ KeyChain.load_entry chain kind fs
unfolding load_entry KeyChain.load_entry
loads_alike chain kind fs = refl

deletes_alike :
    (chain : FileKeyChain) (kind : KeyChainEntryKind) (fs : FileSystem)
    → (delete_entry chain kind fs).1 ≡ (KeyChain.delete_entry chain kind fs).1
unfolding delete_entry KeyChain.delete_entry remove_file
deletes_alike chain kind fs = ground arith

-- The mode of an entry's file.
abbrev pub mode_at : PathBuf → FileSystem → Option ℕ
mode_at p fs = map_some (λ f. f.mode) (fs.files p)

-- Where the system lets the file of an entry be written and read, a text that the spike stores is
-- loaded by the crate and the other way round, the other entries load as before, and a deletion
-- leaves the files that the crate's would; but the file of a key that the spike stored keeps the
-- mode that it had, or has that of new files if it is new, where the crate sets 0600 if the system
-- lets it, and leaves the same mode as the spike if not.
pub spike_keys_shared :
    (chain : FileKeyChain) (kind : KeyChainEntryKind) (key : Bytes) (fs : FileSystem)
    → fs.denied writing (path chain kind) ≡ false
    → fs.denied reading (path chain kind) ≡ false
    → is_utf8 key ≡ true
    → let p = path chain kind in
      let after = store_entry chain kind key fs in
      let crate = KeyChain.store_entry chain kind key fs in
      let left = unwrap_or (mode_at p fs) fs.new_mode in
      (after.0 ≡ ok tt)
      × (KeyChain.load_entry chain kind after.1 ≡ ok (some key))
      × (load_entry chain kind crate.1 ≡ ok (some key))
      × ((other : KeyChainEntryKind)
          → kind ≢ other
          → KeyChain.load_entry chain other after.1 ≡ KeyChain.load_entry chain other fs)
      × ((delete_entry chain kind fs).1 ≡ (KeyChain.delete_entry chain kind fs).1)
      × (mode_at p after.1 ≡ some left)
      × (mode_at p crate.1 ≡ some (if fs.denied changing_mode p then left else 0x180))
unfolding store_entry
spike_keys_shared chain kind key fs allowed readable text =
    let file : File = record { bytes = key; mode = left_mode fs (path chain kind) } in
    let last = set_file (path chain kind) (some file) fs in
    let (own, others) = set_file_lem chain kind (some file) fs in
    let crate = load_entry-store_entry chain kind key fs allowed readable text in
    rw (fs_write_lem (path chain kind) key fs allowed) (
      refl,
      load_entry_file chain kind last ∙ rw (own, readable, text) refl,
      loads_alike chain kind _ ∙ crate.1,
      λ other differ. load_entry-others chain other fs last (others other differ) refl,
      deletes_alike chain kind fs,
      rw own refl,
      crate.2,
    )
