-- ===== src/Probes/Spike/Tests.antt =====
-- The keychain of the spike on an empty file system, and its main function in the small world.
use aerogram.Prelude.{ℕ, Option, ◌≡◌, refl, map_some, some, codes, ok}
use aerogram.Prelude.Utf8.{is_utf8, as_bytes, from_utf8_lossy}
use aerogram.Proton.KeyChain.{KeyChainEntryKind, FileSystem, path}
use aerogram.Proton.KeyChain
use aerogram.Proton.KeyChain.Entries.Tests.{keys, empty}
use aerogram.Proton.Core.{Action, ◌>>=◌}
use aerogram.Probes.Attach.{head_bytes}
use aerogram.Proton.Mock.{mock}
use aerogram.Proton.Core.Yields.{Yields}
use aerogram.Probes.Spike.Opened.{Opened, lean_spike-Opened}
use aerogram.Probes.Spike.{spike_msg, lean_spike, store_entry}
use aerogram.Probes.Spike.Keys.{spike_keys_shared}

abbrev stored : FileSystem
stored = (store_entry keys KeyChainEntryKind.device_key (codes "secret") empty).1

-- A new file may be read by others, with a umask of 022.
readable :
    map_some (λ f. f.mode) (stored.files (path keys KeyChainEntryKind.device_key)) ≡ some 0x1a4
unfolding store_entry path KeyChain.fs_write
readable = refl

spike_keys_shared_example :
    KeyChain.load_entry keys KeyChainEntryKind.device_key stored ≡ ok (some (codes "secret"))
unfolding is_utf8 as_bytes from_utf8_lossy
spike_keys_shared_example =
    (spike_keys_shared keys KeyChainEntryKind.device_key (codes "secret") empty refl refl refl).1

abbrev sender : ℕ → Action ℕ (Option ℕ)
sender user w = (ok (some user), w)

spike_run :
    (lean_spike mock sender 0).0
    ≡ ok (record { msg_id = codes "m"; subject = codes "hello"; start = some (codes "a<b") })
unfolding lean_spike ◌>>=◌ head_bytes spike_msg as_bytes
spike_run = refl

lean_spike-Opened_example : Yields (Opened mock sender) (lean_spike mock sender) 0
lean_spike-Opened_example = lean_spike-Opened mock sender 0
