-- ===== src/Probes/Answers.antt =====
-- What the probes' loops make of the answers that the core gives.
use aerogram.Prelude.{
  map_some, ℕ, zero, suc, ◌+◌, ◌≡◌, refl, sym, ap, ◌∙◌, ◌⊎◌, inl, inr, Bool-cases, Option, none,
  some, List, [], ◌∷◌, ◌++◌, map, All, ltb, if◌then◌else◌, Text, Bytes, codes, Result, ok,
}
use mathlib.Core.Path.{subst}
use aerogram.Json.{Value, object, end, from_values, get_str, get_u64}
use aerogram.Html.Stream.{RewriterApi}
use aerogram.Proton.Core.{ProtonApi, ProtonCore, MessageMetadata, MessagesResponse, Label}
use aerogram.Proton.Auth.{LoginParams}
use aerogram.Proton.Labels.{
  to_values, message_row, list_messages, list_labels, label_type, listed_system, with_counts, rows,
}
use aerogram.Proton.Labels.Listing.{
  list_messages_answer, from_values-to_values, listed, list_labels_ids, list_labels_rows,
  list_labels_answer,
}
use aerogram.Proton.Dispatch.{dispatch, run_method}
use aerogram.Proton.Abi.{Texts, envelope}
use aerogram.Probes.{
  Search, panics, missing, target, with_attachments, ended, inbox_page, call, scan, find_attached,
  count_each, count_labels,
}

-- The first message of a page that has attachments.
abbrev pub first_attached : List MessageMetadata → Search
first_attached [] = missing
first_attached (m ∷ ms) =
    let rest = first_attached ms in if ltb 0 m.num_attachments then target m.id else rest

stops_or_goes_on :
    (s : Search)
    → let e : Option Search = elim s [
      | panics ↦ some panics
      | target id ↦ some (target id)
      | missing ↦ none
    ] in
      (e ≡ some s) ⊎ ((e ≡ none) × (s ≡ missing))
stops_or_goes_on panics = inl refl
stops_or_goes_on (target id) = inl refl
stops_or_goes_on missing = inr (refl, refl)

module _ (px : ProtonApi) where
  with_attachments-rows :
      (ms : List MessageMetadata) → with_attachments (map (message_row px) ms) ≡ first_attached ms
  unfolding with_attachments
  with_attachments-rows [] = refl
  with_attachments-rows (m ∷ ms) = elim (Bool-cases (ltb 0 m.num_attachments)) [
    | inl some_there ↦ rw some_there refl
    | inr none_there ↦ rw none_there (with_attachments-rows ms)
  ]

  -- Where the search goes on, the page holds no attachments.
  ended_lem :
      (ms : List MessageMetadata)
      → (ended (some (map (message_row px) ms)) ≡ some (first_attached ms))
        ⊎ ((ended (some (map (message_row px) ms)) ≡ none) × (first_attached ms ≡ missing))
  unfolding ended
  ended_lem [] = inl refl
  ended_lem (m ∷ ms) =
      let same = with_attachments-rows (m ∷ ms) in
      rw (ended, same) (stops_or_goes_on (first_attached (m ∷ ms)))

module _ (texts : Texts) (html : RewriterApi) (from_read : Bytes → ℕ → Result Text Text)
    (from_value : Value → Result Text LoginParams) (px : ProtonApi) (fuel : ℕ) where
  -- A page of the inbox, by the answer of `list_messages`.
  call-list_messages :
      (page : ℕ) (c d : ProtonCore px) (r : Result Text Value)
      → list_messages px (inbox_page page) c ≡ (r, d)
      → call texts html from_read from_value px fuel (codes "list_messages") (inbox_page page) c
        ≡ some (envelope texts r, d)
  unfolding call dispatch run_method
  call-list_messages page c d r e = rw e refl

  module _ (session : px.ApiSession) (resp : MessagesResponse)
      (steady : (w : px.World)
        → (px.get_messages
            (record { label_id = codes "0" ∷ []; page = 0; page_size = 50 })
            session
            w).0
          ≡ ok resp) where
    -- One page: the search ends there, or goes on.
    scan_page :
        (left page : ℕ) (c : ProtonCore px)
        → c.state.api ≡ some session
        → (d : ProtonCore px) × (d.state.api ≡ some session)
          × (scan texts html from_read from_value px fuel (suc left) page c
              ≡ elim (ended (some (map (message_row px) resp.messages))) [
                | some found ↦ some (found, d)
                | none ↦ scan texts html from_read from_value px fuel left (page + 1) d
              ])
    unfolding scan
    scan_page left page c here =
        let w =
          (px.get_messages (record { label_id = codes "0" ∷ []; page = 0; page_size = 50 }) session
            c.world).1 in
        let d : ProtonCore px = record { state = c.state; world = w } in
        let answered =
          list_messages_answer px (inbox_page page) (codes "0") c session resp w refl here
            (ap (λ r. (r, w)) (steady c.world)) in
        (
          d,
          here,
          rw (scan, call-list_messages page c d _ answered)
              (rw (from_values-to_values (map (message_row px) resp.messages)) refl),
        )

    scan_nothing :
        (left page : ℕ) (c : ProtonCore px)
        → c.state.api ≡ some session
        → first_attached resp.messages ≡ missing
        → map_some (λ x. x.0) (scan texts html from_read from_value px fuel left page c)
          ≡ some missing
    unfolding scan
    scan_nothing zero page c here nothing = refl
    scan_nothing (suc left) page c here nothing =
        let (d, signed, step) = scan_page left page c here in
        rw step (elim (ended_lem px resp.messages) [
          | inl stops ↦ rw stops (ap some nothing)
          | inr (on, same) ↦ rw on (scan_nothing left (page + 1) d signed nothing)
        ])

    scan_lem :
        (left page : ℕ) (c : ProtonCore px)
        → c.state.api ≡ some session
        → map_some (λ x. x.0) (scan texts html from_read from_value px fuel (suc left) page c)
          ≡ some (first_attached resp.messages)
    scan_lem left page c here =
        let (d, signed, step) = scan_page left page c here in
        rw step (elim (ended_lem px resp.messages) [
          | inl stops ↦ rw stops refl
          | inr (on, nothing) ↦
              rw on (scan_nothing left (page + 1) d signed nothing ∙ sym (ap some nothing))
        ])

    -- If the server keeps answering the first page of the inbox with the same messages, then the
    -- search over five pages ends with the first message of that page that has attachments, or
    -- without any if that page has none, whatever the server's other pages hold.
    pub find_attached-first_attached :
        (c : ProtonCore px)
        → c.state.api ≡ some session
        → map_some (λ x. x.0) (find_attached texts html from_read from_value px fuel c)
          ≡ some (first_attached resp.messages)
    unfolding find_attached
    find_attached-first_attached c here = scan_lem 4 0 c here

  count_each-panics :
      (ls : List Value) (x : Option Text) (xs : List (Option Text)) (c : ProtonCore px)
      → All (λ v. get_u64 (codes "id") v ≡ none) ls
      → map (get_str (codes "id")) ls ≡ x ∷ xs
      → count_each texts html from_read from_value px fuel ls c ≡ some (none, c)
  unfolding count_each
  count_each-panics [] x xs c all there = cc
  count_each-panics (l ∷ ls) x xs c all there = rw (count_each, all.0) refl

  call-list_labels :
      (c d : ProtonCore px) (r : Result Text Value)
      → list_labels px (object end) c ≡ (r, d)
      → call texts html from_read from_value px fuel (codes "list_labels") (object end) c
        ≡ some (envelope texts r, d)
  unfolding call dispatch run_method
  call-list_labels c d r e = rw e refl

  -- When somebody is signed in and the server gives its labels, the probe panics at the first label
  -- and counts nothing.
  pub count_labels-panics :
      (c : ProtonCore px) (session : px.ApiSession) (labels : List Label) (w : px.World)
      → c.state.api ≡ some session
      → px.get_labels (label_type (object end)) session c.world ≡ (ok labels, w)
      → map_some (λ x. x.0) (count_labels texts html from_read from_value px fuel c) ≡ some none
  unfolding count_labels listed_system
  count_labels-panics c session labels w here there =
      let all = list_labels_ids px (object end) c session labels w here there in
      let ids = (list_labels_rows px (object end) c session labels w here there).0 in
      let answered = list_labels_answer px (object end) c session labels w here there in
      let start : ProtonCore px = record { state = c.state; world = w } in
      let out = with_counts px session (rows (listed_system (object end) ++ labels)) start in
      let ls = from_values (to_values out.0) in
      let panicked =
        count_each-panics ls _ _ out.1
          (subst
            (λ (o : Result Text Value × ProtonCore px).
              All (λ v. get_u64 (codes "id") v ≡ none) (listed o.0))
            answered all)
          (subst
            (λ (o : Result Text Value × ProtonCore px).
              map (get_str (codes "id")) (listed o.0)
              ≡ map (λ l. some l.id) (listed_system (object end) ++ labels))
            answered ids) in
      rw (map_some, count_labels, call-list_labels c out.1 _ answered) (rw panicked refl)
