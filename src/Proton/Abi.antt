-- ===== src/Proton/Abi.antt =====
-- proton-core/src/lib.rs, the C ABI: cores behind raw pointers, and calls by a method's name with
-- JSON in and out; and the context that a new core is made with.
pub mod Calls
pub mod Memory
pub mod Replies
pub mod Tests
use aerogram.Prelude.{
  ℕ, Bool, false, Option, none, some, List, [], ◌∷◌, ◌++◌, ◌==◌, if◌then◌else◌, Text, Bytes, codes,
  Result, ok, err, map_err, unwrap_or,
}
use aerogram.Prelude.Utf8.{as_bytes, from_utf8}
use aerogram.Prelude.CStrings.{CStr, c_string, Strings, free_string}
use aerogram.Prelude.Heap.{Heap, null, dangling, live, as_mut, into_raw, put}
use aerogram.Json.{Value, string, object, field, end}
use aerogram.Html.Stream.{RewriterApi}
use aerogram.Proton.Core.{ProtonApi, CoreState, Action, ◌>>=◌, ◌>>◌}
use aerogram.Proton.Auth.{LoginParams}
use aerogram.Proton.Dispatch.{dispatch}

-- serde's text of a value and its reading, and the message of a `Utf8Error`.
pub record Texts : Type 0 where
  pub to_string : Value → Text
  pub from_str : Text → Result Text Value
  pub utf8_message : Bytes → Text

-- Whether a path ends in its separator.
abbrev ends_in_slash : Text → Bool
ends_in_slash [] = false
ends_in_slash (c ∷ []) = c == b'/'
ends_in_slash (c ∷ d ∷ s) = ends_in_slash (d ∷ s)

-- What html-sanitize-core's crates and serde's derived reading do.
pub record Outside : Type 1 where
  pub rewriter : RewriterApi
  pub html2text : Bytes → ℕ → Result Text Text
  pub login_params : Value → Result Text LoginParams

module _ (texts : Texts) where
  unfoldable pub cstr_arg : CStr → Text → Result Text Text
  cstr_arg none what = err (what ++ codes " is null")
  cstr_arg (some bytes) what =
      map_err (λ e. what ++ codes " is not UTF-8: " ++ e) (from_utf8 texts.utf8_message bytes)

  unfoldable pub into_c : Value → Bytes
  into_c value =
      unwrap_or (c_string (texts.to_string value))
        (as_bytes (codes "{\"err\":\"nul byte in payload\"}"))

  -- `ok` and `err` of the file.
  abbrev pub ok_value : Value → Value
  ok_value v = object (field (codes "ok") v end)

  abbrev pub err_value : Text → Value
  err_value e = object (field (codes "err") (string e) end)

  abbrev pub envelope : Result Text Value → Value
  envelope (ok v) = ok_value v
  envelope (err e) = err_value e

  -- The three arguments of a call read, or the first complaint.
  unfoldable pub read_params : CStr → Result Text Value
  unfolding cstr_arg
  read_params params = elim (cstr_arg params (codes "params")) [
    | err e ↦ err e
    | ok raw ↦ map_err (λ e. codes "params JSON: " ++ e) (texts.from_str raw)
  ]

  module _ (out : Outside) (px : ProtonApi) where
    -- The cores that were handed out, and the world that they share.
    pub record Sys : Type 0 where
      pub cores : Heap (CoreState px)
      pub world : px.World

    -- A call replied; or its core is neither null nor alive, which is undefined; or the fuel ran
    -- out.
    pub data Ended : Type 0 where
      replied : Bytes → Sys → Ended
      undefined : Ended
      runs_on : Ended

    abbrev pub reply_err : Text → Sys → Ended
    reply_err e sys = replied (into_c (err_value e)) sys

    -- `block_on(dispatch(…))` and its envelope.
    unfoldable pub dispatched : ℕ → ℕ → CoreState px → Text → Value → Sys → Ended
    dispatched fuel core st method params sys =
        elim (dispatch out.rewriter out.html2text out.login_params px fuel method params
          (record { state = st; world = sys.world })) [
            | none ↦ runs_on
            | some (r, c) ↦
                replied (into_c (envelope r))
                  (record { cores = put core (some c.state) sys.cores; world = c.world })
          ]

    unfoldable pub proton_call : ℕ → ℕ → CStr → CStr → Sys → Ended
    unfolding dispatched
    proton_call fuel core method params sys = elim (as_mut core sys.cores) [
      | null ↦ reply_err (codes "core is null") sys
      | dangling ↦ undefined
      | live st ↦ elim (cstr_arg method (codes "method")) [
        | err e ↦ reply_err e sys
        | ok m ↦ elim (read_params params) [
          | err e ↦ reply_err e sys
          | ok v ↦ dispatched fuel core st m v sys
        ]
      ]
    ]

    -- `CoreState::default()`
    abbrev pub default : CoreState px
    default = record { login_flow = none; user_ctx = none; api = none; last_event_id = none }

    pub record AppDetails : Type 0 where
      pub platform : Text
      pub product : Text
      pub version : Text

    -- The fields of `ApiConfig` besides the environment, which is the production one.
    pub record ApiConfig : Type 0 where
      pub app_details : AppDetails
      pub user_agent : Option Text
      pub proxy : Option Text
      pub resolver : Option Text

    -- The arguments of `CoreContext::new` that say where things are and who asks; the others are
    -- the runtime's handle, an empty list, and the defaults and switches of Proton's crates.
    pub record ContextConfig : Type 0 where
      pub session_db : Text
      pub user_db : Text
      pub keychain : Text
      pub api_config : ApiConfig
      pub core_cache : Text
      pub log_name : Text
      pub log_directory : Text

    -- What `create_context` asks of the system, of the build and of Proton's crates.
    pub record ContextApi : Type 0 where
      pub cargo_pkg_version : Text
      pub create_dir_all : Text → Action (px.World) (Unit {0})
      -- `CoreContext::new`; the context is part of the world
      pub new_context : ContextConfig → Action (px.World) (Unit {0})

    abbrev pub api_config : Text → ApiConfig
    api_config version = record {
      app_details = record { platform = codes "linux"; product = codes "mail"; version = version };
      user_agent = none;
      proxy = none;
      resolver = none;
    }

    -- `Path::join` with a name.
    abbrev pub join : Text → Text → Text
    join [] name = name
    join (c ∷ dir) name =
        if ends_in_slash (c ∷ dir) then (c ∷ dir) ++ name else (c ∷ dir) ++ b'/' ∷ name

    -- The loop stops at the first directory that cannot be made.
    unfoldable pub make_dirs : ContextApi → List Text → Action (px.World) (Unit {0})
    make_dirs cx [] w = (ok tt, w)
    make_dirs cx (d ∷ ds) w =
        let (r, w') = cx.create_dir_all d w in
        elim r [
          | err e ↦ (err (codes "mkdir " ++ d ++ codes ": " ++ e), w')
          | ok _ ↦ make_dirs cx ds w'
        ]

    -- `FileKeyChain::new`: its directory is made, whatever comes of it.
    abbrev pub new_keychain : ContextApi → Text → px.World → Text × px.World
    new_keychain cx dir w = let (_, w') = cx.create_dir_all dir w in (dir, w')

    unfoldable pub create_context : ContextApi → Text → Action (px.World) (Unit {0})
    unfolding make_dirs
    create_context cx data_dir w =
        let session_db = join data_dir (codes "session") in
        let user_db = join data_dir (codes "user") in
        let core_cache = join data_dir (codes "core_cache") in
        let keychain = join data_dir (codes "keychain") in
        let (r, w') = make_dirs cx (session_db ∷ user_db ∷ core_cache ∷ []) w in
        elim r [
          | err e ↦ (err e, w')
          | ok _ ↦
              let (chain, w'') = new_keychain cx keychain w' in
              let (made, w₃) =
                cx.new_context
                  (record {
                    session_db = session_db;
                    user_db = user_db;
                    keychain = chain;
                    api_config = api_config cx.cargo_pkg_version;
                    core_cache = core_cache;
                    log_name = codes "aerogram-proton";
                    log_directory = join data_dir (codes "logs");
                  })
                  w'' in
              (map_err (λ e. codes "core Context::new: " ++ e) made, w₃)
        ]

    -- A null pointer for a bad directory or a context that could not be made.
    unfoldable pub proton_core_new : ContextApi → CStr → Sys → ℕ × Sys
    unfolding create_context
    proton_core_new cx data_dir sys = elim (cstr_arg data_dir (codes "data_dir")) [
      | err _ ↦ (0, sys)
      | ok dir ↦
          let (r, w) = create_context cx dir sys.world in
          elim r [
            | err _ ↦ (0, record sys { world = w })
            | ok _ ↦
                let (p, cores) = into_raw default sys.cores in
                (p, record { cores = cores; world = w })
          ]
    ]

    unfoldable pub proton_core_free : ℕ → Sys → Option Sys
    proton_core_free core sys = elim (as_mut core sys.cores) [
      | null ↦ some sys
      | dangling ↦ none
      | live _ ↦ some (record sys { cores = put core none sys.cores })
    ]

-- `if !s.is_null() { drop(CString::from_raw(s)) }`
unfoldable pub proton_free_string : ℕ → Strings → Option Strings
unfolding free_string
proton_free_string s strings = free_string s strings
