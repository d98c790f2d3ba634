-- ===== src/Probes/Spike/Context.antt =====
-- proton-core/src/bin/lean_spike.rs, `main` from the command line on, with the context that it
-- makes.
use aerogram.Prelude.{Option, none, some, Text, codes, Result}
use aerogram.Proton.Core.{Action, ◌>>◌, ProtonApi}
use aerogram.Proton.Abi.{Texts, Outside, ContextConfig, ContextApi, api_config, join}
use aerogram.Probes.Spike.{Printout, lean_spike}

module _ (texts : Texts) (out : Outside) (px : ProtonApi) where
  -- The directories are those of the crate; its own names stand for the version and the log.
  unfoldable pub spike_config : Text → ContextConfig texts out px
  spike_config base = record {
    session_db = join texts out px base (codes "session");
    user_db = join texts out px base (codes "user");
    keychain = join texts out px base (codes "keychain");
    api_config = api_config texts out px (codes "0.1.0");
    core_cache = join texts out px base (codes "core_cache");
    log_name = codes "lean-spike";
    log_directory = join texts out px base (codes "logs");
  }

  -- No argument is a panic; any error ends the program with it.
  unfoldable pub spike_main :
      {Address : Type 0}
      → ContextApi texts out px
      → (px.UserCtx → Action px.World (Option Address))
      → Option Text
      → px.World
      → Option (Result Text Printout × px.World)
  spike_main cx find_valid_sender_address none w = none
  spike_main cx find_valid_sender_address (some dir) w =
      some ((cx.new_context (spike_config dir) >> lean_spike px find_valid_sender_address) w)
