-- ===== src/Probes/Shell.antt =====
-- proton-core/src/bin, the probe programs `labels_probe`, `marker_watch`, `wait_event_probe`,
-- `list_probe` and `names_probe` as clients of the C ABI: the core that they make and free, and the
-- strings that go between, with what they print as values.
pub mod Strings
pub mod Goes
pub mod Cleared
pub mod Coreless
pub mod Chained
pub mod Programs
pub mod Tests
use aerogram.Prelude.{
  ℕ, zero, suc, ◌==◌, Bool, true, false, ◌&&◌, Option, none, some, List, [], ◌∷◌, ◌++◌, map, take,
  if◌then◌else◌, Text, codes, ok, err, unwrap_or,
}
use aerogram.Prelude.CStrings.{c_string}
use aerogram.Prelude.Utf8.{from_utf8_lossy}
use aerogram.Prelude.Heap.{as_mut, null, dangling, live}
use aerogram.Json.{Value}
use aerogram.Proton.Core.{ProtonApi}
use aerogram.Proton.Abi.{Texts, Outside, ContextApi}
use aerogram.Proton.Abi.Memory.{
  Request, makes, frees, calls, frees_string, Answer, made, said, nothing, Memory, step,
}
use aerogram.Probes.{get_array, messages_of}
use aerogram.Probes.Checks.{Run, no_outcome, aborts, ends, ◌>>=◌, pure, unwrap}
use aerogram.Probes.{index}
use aerogram.Probes.Listings.{MessageLine, message_line, LabelLine, label_line}

-- What a program does with its core: calls by a method and its parameters, which go on by the text
-- of the reply, until it is done or panics.
pub data Talk (A : Type 0) : Type 0 where
  finished : A → Talk A
  panicked : Talk A
  says : Text → Text → (Text → Talk A) → Talk A

-- The pointer in an answer.
abbrev pub raw_of : Answer → ℕ
raw_of (made p) = p
raw_of (said s bytes) = s
raw_of nothing = 0

module _ (texts : Texts) (out : Outside) (px : ProtonApi) (cx : ContextApi texts out px)
    (fuel : ℕ) where
  abbrev pub Mem : Type 0
  Mem = Memory texts out px cx

  abbrev pub Over : Type 0 → Type 0
  Over A = Mem → Run Mem A

  unfoldable pub request : Request → Over Answer
  request r m = elim (step texts out px cx fuel r m) [ none ↦ no_outcome | some (a, d) ↦ ends a d ]

  -- `CStr::from_ptr(raw).to_string_lossy().into_owned()`
  unfoldable pub text_at : ℕ → Over Text
  text_at s m = elim (as_mut s m.strings) [
    | null ↦ no_outcome
    | dangling ↦ no_outcome
    | live bytes ↦ ends (from_utf8_lossy bytes) m
  ]

  -- `call`: the text of a reply, whose string is freed.
  unfoldable pub call_text : ℕ → Text → Text → Over Text
  call_text core method params = do
    m ← unwrap (c_string method)
    p ← unwrap (c_string params)
    answer ← request (calls core (some m) (some p))
    s ← text_at (raw_of answer)
    _ ← request (frees_string (raw_of answer))
    pure s

  unfoldable pub talk : {A : Type 0} → ℕ → Talk A → Over A
  talk core (finished a) = pure a
  talk core panicked = λ m. aborts
  talk core (says method params next) = call_text core method params >>= λ s. talk core (next s)

  -- `main`: the directory from the command line, the core, which some programs check, and its end.
  unfoldable pub main : {A : Type 0} → Bool → Option Text → Talk A → Over A
  main checked arg program = do
    dir ← unwrap arg
    data_dir ← unwrap (c_string dir)
    answer ← request (makes (some data_dir))
    _ ← unwrap (if checked && (raw_of answer == 0) then none else some answer)
    a ← talk (raw_of answer) program
    _ ← request (frees (raw_of answer))
    pure a

-- `for i in 0..n` around one call.
unfoldable pub says_each : {A : Type 0} → ℕ → Text → Text → (List Text → Talk A) → Talk A
says_each zero method params next = next []
says_each (suc n) method params next =
    says method params λ s. says_each n method params λ ss. next (s ∷ ss)

unfoldable pub labels_talk : Talk (Text × Text)
labels_talk =
    says (codes "restore_session") (codes "{}")
      λ restored. says (codes "list_labels") (codes "{}") λ labels. finished (restored, labels)

unfoldable pub watch_talk : Talk (Text × List Text)
watch_talk = says (codes "restore_session") (codes "{}") λ restored.
    says_each 6 (codes "wait_event") (codes "{\"timeout_ms\": 15000}")
      λ outs. finished (restored, outs)

unfoldable pub wait_talk : Talk (Text × List Text)
wait_talk = says (codes "restore_session") (codes "{}") λ restored.
    says_each 3 (codes "wait_event") (codes "{\"timeout_ms\": 2000}")
      λ outs. finished (restored, map (take 300) outs)

module _ (texts : Texts) where
  -- `serde_json::from_str(&s).expect("json")`
  unfoldable pub says_json : {A : Type 0} → Text → Text → (Value → Talk A) → Talk A
  says_json method params next =
      says method params λ s. elim (texts.from_str s) [ ok v ↦ next v | err _ ↦ panicked ]

  abbrev pub top_text : Text → Text
  top_text label = codes "{\"label_id\":\"" ++ label ++ codes "\",\"limit\":8}"

  unfoldable pub top_talk : {A : Type 0} → Text → (Value × List MessageLine → Talk A) → Talk A
  top_talk label next = says_json (codes "list_messages") (top_text label) λ r. next (
    index (codes "total") (index (codes "ok") r),
    map message_line (unwrap_or (messages_of r) []),
  )

  unfoldable pub list_talk : Talk (Value × (Value × List MessageLine) × (Value × List MessageLine))
  list_talk = says_json (codes "restore_session") (codes "{}") λ restored.
      top_talk (codes "0") λ inbox. top_talk (codes "5") λ all. finished (restored, inbox, all)

  abbrev pub type_text : Text → Text
  type_text t = codes "{\"label_type\":\"" ++ t ++ codes "\"}"

  unfoldable pub names_talk_of : {A : Type 0} → Text → (List LabelLine → Talk A) → Talk A
  names_talk_of t next =
      says_json (codes "list_labels") (type_text t)
        λ r. next (map label_line (unwrap_or (get_array (codes "ok") r) []))

  unfoldable pub names_talk : Talk (Value × List LabelLine × List LabelLine)
  names_talk = says_json (codes "restore_session") (codes "{}") λ restored.
      names_talk_of (codes "folder")
        λ folders. names_talk_of (codes "label") λ labels. finished (restored, folders, labels)

module _ (texts : Texts) (out : Outside) (px : ProtonApi) (cx : ContextApi texts out px) (fuel : ℕ)
    (arg : Option Text) where
  unfoldable pub labels_probe_main : Over texts out px cx fuel (Text × Text)
  unfolding labels_talk
  labels_probe_main = main texts out px cx fuel false arg labels_talk

  unfoldable pub marker_watch_main : Over texts out px cx fuel (Text × List Text)
  marker_watch_main = main texts out px cx fuel false arg watch_talk

  unfoldable pub wait_event_main : Over texts out px cx fuel (Text × List Text)
  wait_event_main = main texts out px cx fuel true arg wait_talk

  unfoldable pub list_probe_main :
      Over texts out px cx fuel (Value × (Value × List MessageLine) × (Value × List MessageLine))
  list_probe_main = main texts out px cx fuel false arg (list_talk texts)

  unfoldable pub names_probe_main :
      Over texts out px cx fuel (Value × List LabelLine × List LabelLine)
  names_probe_main = main texts out px cx fuel false arg (names_talk texts)
