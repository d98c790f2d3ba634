-- ===== src/Probes/Listings/Printed.antt =====
-- What the two programs print of a server that keeps its answers.
use aerogram.Prelude.{
  ℕ, ◌^◌, inl, inr, Bool-cases, ltb, if◌then◌else◌, ◌≡◌, refl, ap, ◌∙◌, some, List, [], ◌∷◌, ◌++◌,
  map, take, Text, Bytes, codes, Result, ok, err, unwrap_or,
}
use aerogram.Json.{Value, null, bool, number, string, array, object, get_str, from_values}
use aerogram.Html.Link.{join}
use aerogram.Html.Stream.{RewriterApi}
use aerogram.Proton.Core.{
  ProtonApi, ProtonCore, CoreState, GetMessagesOptions, Label, LabelType, MessageMetadata,
  MessagesResponse,
}
use aerogram.Proton.Auth.{LoginParams, restore_session}
use aerogram.Proton.Labels.{
  to_values, message_row, label_type, listed_system, system_labels, list_labels,
}
use aerogram.Proton.Labels.Listing.{listed, list_labels_rows, list_messages_answer}
use aerogram.Proton.Abi.{Texts, envelope}
use aerogram.Probes.{get_array}
use aerogram.Probes.Checks.{Run, ends}
use aerogram.Probes.Checks.Asked.{
  after_ends, ask-restore_session, ask-list_labels, ask-list_messages,
}
use aerogram.Probes.Listings.{
  MessageLine, message_line, LabelLine, label_line, of_type, top_of, strs, names_of, names_probe,
  list_top, list_probe,
}

strs-strings : (ss : List Text) → strs (from_values (to_values (map string ss))) ≡ ss
strs-strings [] = refl
strs-strings (s ∷ ss) = ap (◌∷◌ s) (strs-strings ss)

-- A message as `list_probe` shows it.
abbrev pub shown_line : MessageMetadata → MessageLine
shown_line m = record {
  time = if ltb m.time (2 ^ 63) then m.time else 0;
  labels = join m.label_ids b',';
  subject = take 40 m.subject;
}

map_twice :
    {A B C : Type 0} (g : B → C) (f : A → B) (xs : List A)
    → map g (map f xs) ≡ map (λ x. g (f x)) xs
map_twice g f [] = refl
map_twice g f (x ∷ xs) = ap (◌∷◌ (g (f x))) (map_twice g f xs)

texts_of :
    (k q : Text) (g : Label → Text) (vs : List Value) (ls : List Label)
    → map (get_str k) vs ≡ map (λ l. some (g l)) ls
    → map (λ v. unwrap_or (get_str k v) q) vs ≡ map g ls
texts_of k q g [] [] e = refl
texts_of k q g [] (l ∷ ls) e = cc
texts_of k q g (v ∷ vs) [] e = cc
texts_of k q g (v ∷ vs) (l ∷ ls) e =
    let head : get_str k v ≡ some (g l) = cc in rw head (ap (◌∷◌ (g l)) (texts_of k q g vs ls (cc)))

-- Lines that name these labels.
abbrev pub Names : List Label → List LabelLine → Type 0
Names ls lines =
    (map (λ x. x.id) lines ≡ map (λ l. l.id) ls) × (map (λ x. x.name) lines ≡ map (λ l. l.name) ls)

lines-Names :
    (vs : List Value) (ls : List Label)
    → map (get_str (codes "id")) vs ≡ map (λ l. some l.id) ls
    → map (get_str (codes "name")) vs ≡ map (λ l. some l.name) ls
    → Names ls (map label_line vs)
unfolding label_line
lines-Names vs ls ids names = (
  map_twice (λ x. x.id) label_line vs ∙ texts_of (codes "id") (codes "?") (λ l. l.id) vs ls ids,
  map_twice (λ x. x.name) label_line vs
      ∙ texts_of (codes "name") (codes "?") (λ l. l.name) vs ls names,
)

module _ (texts : Texts) where
  rows_of :
      (r : Result Text Value) → unwrap_or (get_array (codes "ok") (envelope texts r)) [] ≡ listed r
  rows_of (err e) = refl
  rows_of (ok null) = refl
  rows_of (ok (bool b)) = refl
  rows_of (ok (number n)) = refl
  rows_of (ok (string s)) = refl
  rows_of (ok (array vs)) = refl
  rows_of (ok (object fs)) = refl

module _ (px : ProtonApi) where
  message_line-message_row : (m : MessageMetadata) → message_line (message_row px m) ≡ shown_line m
  unfolding message_line
  message_line-message_row m = elim (Bool-cases (ltb m.time (2 ^ 63))) [
    | inl small ↦ rw (small, strs-strings m.label_ids) refl
    | inr large ↦ rw (large, strs-strings m.label_ids) refl
  ]

  message_lines :
      (ms : List MessageMetadata)
      → map message_line (from_values (to_values (map (message_row px) ms))) ≡ map shown_line ms
  message_lines [] = refl
  message_lines (m ∷ ms) = rw (message_line-message_row m, message_lines ms) refl

module _ (texts : Texts) (html : RewriterApi) (from_read : Bytes → ℕ → Result Text Text)
    (from_value : Value → Result Text LoginParams) (px : ProtonApi) (fuel : ℕ) where
  abbrev pub Prints :
      {A : Type 0}
      → (ProtonCore px → Run (ProtonCore px) A)
      → px.ApiSession
      → (A → Type 0)
      → ProtonCore px
      → Type 0
  Prints {A} program session P c =
      (a : A) × (d : ProtonCore px) × (program c ≡ ends a d) × (d.state.api ≡ some session) × P a

  names_of-Names :
      (t : Text) (session : px.ApiSession) (labels : List Label)
      → ((w : px.World) → (px.get_labels (label_type (of_type t)) session w).0 ≡ ok labels)
      → (c : ProtonCore px) → c.state.api ≡ some session
      → Prints
          (names_of texts html from_read from_value px fuel t)
          session
          (Names (listed_system (of_type t) ++ labels))
          c
  unfolding names_of
  names_of-Names t session labels steady c here =
      let w = (px.get_labels (label_type (of_type t)) session c.world).1 in
      let (ids, names, kept) =
        list_labels_rows px (of_type t) c session labels w here
          (ap (λ r. (r, w)) (steady c.world)) in
      let out = list_labels px (of_type t) c in
      (
        _,
        out.1,
        after_ends _ _ _ c out.1
            (ask-list_labels texts html from_read from_value px fuel (of_type t) c),
        ap (λ (s : CoreState px). s.api) kept ∙ here,
        rw (rows_of texts out.0) (lines-Names (listed out.0) _ ids names),
      )

  abbrev pub top : Text → GetMessagesOptions
  top label = record { label_id = label ∷ []; page = 0; page_size = 8 }

  abbrev pub Shows : MessagesResponse → Value × List MessageLine → Type 0
  Shows resp (total, lines) = (total ≡ number resp.total) × (lines ≡ map shown_line resp.messages)

  list_top-Shows :
      (label : Text) (session : px.ApiSession) (resp : MessagesResponse)
      → ((w : px.World) → (px.get_messages (top label) session w).0 ≡ ok resp)
      → (c : ProtonCore px) → c.state.api ≡ some session
      → Prints (list_top texts html from_read from_value px fuel label) session (Shows resp) c
  unfolding list_top
  list_top-Shows label session resp steady c here =
      let w = (px.get_messages (top label) session c.world).1 in
      let d : ProtonCore px = record { state = c.state; world = w } in
      let answered =
        list_messages_answer px (top_of label) label c session resp w refl here
          (ap (λ r. (r, w)) (steady c.world)) in
      let asked =
        ask-list_messages texts html from_read from_value px fuel (top_of label) c
        ∙ ap (λ (o : Result Text Value × ProtonCore px). ends (envelope texts o.0) o.1) answered in
      (_, d, after_ends _ _ _ c d asked, here, (refl, message_lines px resp.messages))

  -- What the server keeps answering to a session.
  pub record Keeps (session : px.ApiSession) : Type 0 where
    pub folders : List Label
    pub labels : List Label
    pub inbox : MessagesResponse
    pub all_mail : MessagesResponse
    pub gives_folders : (w : px.World) → (px.get_labels LabelType.folder session w).0 ≡ ok folders
    pub gives_labels : (w : px.World) → (px.get_labels LabelType.label session w).0 ≡ ok labels
    pub gives_inbox : (w : px.World) → (px.get_messages (top (codes "0")) session w).0 ≡ ok inbox
    pub gives_all : (w : px.World) → (px.get_messages (top (codes "5")) session w).0 ≡ ok all_mail

  names_probe-Names :
      (session : px.ApiSession) (k : Keeps session) (c : ProtonCore px)
      → (restore_session px c).1.state.api ≡ some session
      → Prints
          (names_probe texts html from_read from_value px fuel)
          session
          (λ (restored, folders, labels).
            Names (system_labels ++ k.folders) folders × Names k.labels labels)
          c
  unfolding names_probe label_type listed_system
  names_probe-Names session k c here =
      let d = (restore_session px c).1 in
      let (fs, e, named, there, folders) =
        names_of-Names (codes "folder") session k.folders k.gives_folders d here in
      let (ls, g, named', after, labels) =
        names_of-Names (codes "label") session k.labels k.gives_labels e there in
      (
        _,
        g,
        after_ends _ _ _ c d (ask-restore_session texts html from_read from_value px fuel c)
            ∙ after_ends _ _ fs d e named
            ∙ after_ends _ _ ls e g named',
        after,
        (folders, labels),
      )

  list_probe-Shows :
      (session : px.ApiSession) (k : Keeps session) (c : ProtonCore px)
      → (restore_session px c).1.state.api ≡ some session
      → Prints
          (list_probe texts html from_read from_value px fuel)
          session
          (λ (restored, inbox, all). Shows k.inbox inbox × Shows k.all_mail all)
          c
  unfolding list_probe
  list_probe-Shows session k c here =
      let d = (restore_session px c).1 in
      let (i, e, first, there, inbox) =
        list_top-Shows (codes "0") session k.inbox k.gives_inbox d here in
      let (a, g, second, after, all) =
        list_top-Shows (codes "5") session k.all_mail k.gives_all e there in
      (
        _,
        g,
        after_ends _ _ _ c d (ask-restore_session texts html from_read from_value px fuel c)
            ∙ after_ends _ _ i d e first
            ∙ after_ends _ _ a e g second,
        after,
        (inbox, all),
      )

  -- If the session that is restored gets the same answers throughout, then names_probe prints, by
  -- id and name and in order, the fixed labels and the server's folders, and then the server's
  -- labels; and list_probe prints, for the inbox and for all mail, the total that the server gives
  -- and each message's time, labels and the first 40 characters of its subject, 0 for a time beyond
  -- i64.
  pub listings_shown :
      (session : px.ApiSession) (k : Keeps session) (c : ProtonCore px)
      → (restore_session px c).1.state.api ≡ some session
      → Prints
          (names_probe texts html from_read from_value px fuel)
          session
          (λ (restored, folders, labels).
            Names (system_labels ++ k.folders) folders × Names k.labels labels)
          c
        × Prints
            (list_probe texts html from_read from_value px fuel)
            session
            (λ (restored, inbox, all). Shows k.inbox inbox × Shows k.all_mail all)
            c
  listings_shown session k c here =
      (names_probe-Names session k c here, list_probe-Shows session k c here)
