-- ===== src/Proton/Threads/Account.antt =====
-- What no interleaving breaks.
use aerogram.Proton.Core.{◌>>=◌, ◌>>◌}
use aerogram.Prelude.{
  is_some, ℕ, ◌≡◌, refl, sym, ap, ◌∙◌, ◌⊎◌, inl, inr, true, none, some, arith, ◌==◌, Bool-cases,
  Text, ok, Result-cases,
}
use mathlib.Core.Path.{subst}
use mathlib.Core.Bool.{false≢true}
use aerogram.Json.{Value}
use aerogram.Proton.Core.{ProtonApi, CoreState, ProtonCore, Action, call, api, account_email}
use aerogram.Proton.Auth.{set_account, promote, store_flow, take_flow, with_flow}
use aerogram.Proton.Events.{compare_marker}
use aerogram.Proton.Threads.{
  among, Promotes, Pc, idle, stored, finishing, ready, polling, Section, stores, drives, takes,
  finishes, restores, sets, asks, compares, ends, awaits, System, set_pc, moves, Reached, starts,
  later,
}

pub promote_sets :
    (px : ProtonApi) (session : px.Session) (c : ProtonCore px) (user : px.UserCtx)
    (a : px.ApiSession) (w : px.World)
    → px.user_context_from_session session c.world ≡ (ok user, w)
    → (px.new_api_session (some session) w).0 ≡ ok a
    → ((promote px session c).1.state.user_ctx ≡ some user)
      × ((promote px session c).1.state.api ≡ some a)
unfolding ◌>>=◌ ◌>>◌ promote call account_email set_account
promote_sets px session c user a w made opened = ground arith

-- What a run of `promote` sets was made from its session.
promote_made :
    (px : ProtonApi) (session : px.Session) (c d : ProtonCore px) (v : Value) (user : px.UserCtx)
    (a : px.ApiSession)
    → promote px session c ≡ (ok v, d)
    → d.state.user_ctx ≡ some user
    → d.state.api ≡ some a
    → ((px.user_context_from_session session c.world).0 ≡ ok user)
      × (w : px.World) × ((px.new_api_session (some session) w).0 ≡ ok a)
unfolding ◌>>=◌ ◌>>◌ promote call account_email set_account
promote_made px session c d v user a run u b =
    let first = px.user_context_from_session session c.world in
    let second = px.new_api_session (some session) first.1 in
    elim (Result-cases first.0) [
      | inl (e, failed) ↦ ground (arith, failed)
      | inr (user', made) ↦ elim (Result-cases second.0) [
        | inl (e, failed) ↦ ground (arith, failed)
        | inr (a', opened) ↦
            let (sets_user, sets_api) =
              promote_sets px session c user' a' first.1 (λ i. (made i, first.1)) opened in
            let same_user = sym sets_user ∙ ap (λ x. x.1.state.user_ctx) run ∙ u in
            let same_api = sym sets_api ∙ ap (λ x. x.1.state.api) run ∙ b in (cc, first.1, cc)
      ]
    ]

module _ (px : ProtonApi) where
  -- A user context and an api session that were made from one session.
  pub record FromOne (user : px.UserCtx) (a : px.ApiSession) : Type 0 where
    pub session : px.Session
    pub making_user : px.World
    pub user_made : (px.user_context_from_session session making_user).0 ≡ ok user
    pub making_api : px.World
    pub api_made : (px.new_api_session (some session) making_api).0 ≡ ok a

  Promotes-FromOne : (user : px.UserCtx) (a : px.ApiSession) → Promotes px user a → FromOne user a
  Promotes-FromOne user a p =
      let (user_made, w, api_made) =
        promote_made (among px p.before_api p.before_name) p.session p.seen p.left p.said user a
          p.runs p.sets_user p.sets_api in
      record {
        session = p.session;
        making_user = p.seen.world;
        user_made = user_made;
        making_api = p.before_api w;
        api_made = api_made;
      }

  -- Nobody is signed in and there is no marker; or user and session are there, from one session.
  abbrev pub IsAccounted : CoreState px → Type 0
  IsAccounted s =
      ((s.user_ctx ≡ none) × (s.api ≡ none) × (s.last_event_id ≡ none))
      ⊎ ((user : px.UserCtx) × (a : px.ApiSession) × (s.user_ctx ≡ some user)
          × (s.api ≡ some a)
          × FromOne user a)

  -- What a thread's place says of the state.
  abbrev pub IsPlaced : CoreState px → Pc px → Type 0
  IsPlaced s idle = Unit
  IsPlaced s stored = Unit
  IsPlaced s finishing = Unit
  IsPlaced s (ready user a) = FromOne user a
  IsPlaced s (polling a) = is_some s.api ≡ true

  record Fared (s s' : CoreState px) (p : Pc px) : Type 0 where
    accounted : IsAccounted s'
    placed : IsPlaced s' p
    stays : is_some s.api ≡ true → is_some s'.api ≡ true

  -- The account and the marker are as before.
  record Same (s s' : CoreState px) : Type 0 where
    user : s'.user_ctx ≡ s.user_ctx
    api : s'.api ≡ s.api
    marker : s'.last_event_id ≡ s.last_event_id

  IsAccounted-Same : (s s' : CoreState px) → Same s s' → IsAccounted s → IsAccounted s'
  IsAccounted-Same s s' e (inl (u, a, m)) = inl (e.user ∙ u, e.api ∙ a, e.marker ∙ m)
  IsAccounted-Same s s' e (inr (user, a, u, here, one)) =
      inr (user, a, e.user ∙ u, e.api ∙ here, one)

  api_stays : (s s' : CoreState px) → Same s s' → is_some s.api ≡ true → is_some s'.api ≡ true
  api_stays s s' e here = ap is_some e.api ∙ here

  Same-store_flow :
      (flow : px.LoginFlow) (c : ProtonCore px) → Same c.state (store_flow px flow c).state
  unfolding store_flow
  Same-store_flow flow c = record { user = refl; api = refl; marker = refl }

  Same-take_flow : (c : ProtonCore px) → Same c.state (take_flow px c).1.state
  unfolding take_flow
  Same-take_flow c = record { user = refl; api = refl; marker = refl }

  Same-with_flow :
      (what : Text) (m : Action (px.LoginFlow × px.World) (Unit {0})) (c : ProtonCore px)
      → Same c.state (with_flow px what m c).1.state
  unfolding with_flow
  Same-with_flow what m c = ground arith

  -- A section that leaves the account alone, and a place that says nothing of it.
  Fared-Same :
      (s s' : CoreState px) (p : Pc px) → Same s s' → IsAccounted s → IsPlaced s' p → Fared s s' p
  Fared-Same s s' p e acc placed = record {
    accounted = IsAccounted-Same s s' e acc;
    placed = placed;
    stays = api_stays s s' e;
  }

  Same-refl : (s : CoreState px) → Same s s
  Same-refl s = record { user = refl; api = refl; marker = refl }

  Same-eq : (s s' : CoreState px) → s' ≡ s → Same s s'
  Same-eq s s' e = subst (Same s) (sym e) (Same-refl s)

  IsPlaced-eq : (s s' : CoreState px) (p : Pc px) → s' ≡ s → IsPlaced s p → IsPlaced s' p
  IsPlaced-eq s s' p e = subst (λ x. IsPlaced x p) (sym e)

  -- The state after a section, put in place of its description.
  into :
      (s : CoreState px) (p : Pc px) {c d : ProtonCore px}
      → d ≡ c
      → Fared s c.state p
      → Fared s d.state p
  into s p {c} {d} e = subst (λ x. Fared s x.state p) (sym e)

  IsAccounted-set_account :
      (user : px.UserCtx) (a : px.ApiSession) (c : ProtonCore px)
      → FromOne user a
      → IsAccounted (set_account px user a c).state
  unfolding set_account
  IsAccounted-set_account user a c one = inr (user, a, refl, refl, one)

  api-set_account :
      (user : px.UserCtx) (a : px.ApiSession) (c : ProtonCore px)
      → is_some (set_account px user a c).state.api ≡ true
  unfolding set_account
  api-set_account user a c = refl

  -- Comparing markers leaves user and session alone.
  api-compare_marker :
      (latest : Text) (c : ProtonCore px)
      → ((compare_marker px latest c).1.state.user_ctx ≡ c.state.user_ctx)
        × ((compare_marker px latest c).1.state.api ≡ c.state.api)
  unfolding compare_marker
  api-compare_marker latest c = ground arith

  compared :
      (latest : Text) (c : ProtonCore px) (a : px.ApiSession)
      → IsAccounted c.state
      → is_some c.state.api ≡ true
      → Fared c.state (compare_marker px latest c).1.state (polling a)
  compared latest c a (inl (u, gone, m)) here = absurd (false≢true (sym (ap is_some gone) ∙ here))
  compared latest c a (inr (user, b, u, there, one)) here =
      let (same_user, same_api) = api-compare_marker latest c in
      record {
        accounted = inr (user, b, same_user ∙ u, same_api ∙ there, one);
        placed = ap is_some same_api ∙ here;
        stays = λ now. ap is_some same_api ∙ now;
      }

  api_there :
      (a : px.ApiSession) (c : ProtonCore px) → (api c).0 ≡ ok a → is_some c.state.api ≡ true
  unfolding api
  api_there a c there = ground arith

  Section-Fared :
      (p p' : Pc px) (c d : ProtonCore px)
      → Section px p c p' d
      → IsAccounted c.state
      → IsPlaced c.state p
      → Fared c.state d.state p'
  Section-Fared p p' c d (stores flow e) acc at =
      into c.state stored e (Fared-Same _ _ stored (Same-store_flow flow c) acc tt)
  Section-Fared p p' c d (drives what m e) acc at =
      into c.state stored e (Fared-Same _ _ stored (Same-with_flow what m c) acc tt)
  Section-Fared p p' c d (takes e) acc at =
      into c.state finishing e (Fared-Same _ _ finishing (Same-take_flow c) acc tt)
  Section-Fared p p' c d (finishes user a run) acc at = record {
    accounted = acc;
    placed = Promotes-FromOne user a run;
    stays = λ here. here;
  }
  Section-Fared p p' c d (restores user a run) acc at = record {
    accounted = acc;
    placed = Promotes-FromOne user a run;
    stays = λ here. here;
  }
  Section-Fared p p' c d (sets user a e) acc at = into c.state idle e (record {
    accounted = IsAccounted-set_account user a c at;
    placed = tt;
    stays = λ now. api-set_account user a c;
  })
  Section-Fared p p' c d (asks a there) acc at = record {
    accounted = acc;
    placed = api_there a c there;
    stays = λ here. here;
  }
  Section-Fared p p' c d (compares a latest e) acc at =
      into c.state (polling a) e (compared latest c a acc at)
  Section-Fared p p' c d ends acc at = record { accounted = acc; placed = tt; stays = λ here. here }
  Section-Fared p p' c d (awaits same) acc at =
      Fared-Same c.state d.state p (Same-eq _ _ same) acc (IsPlaced-eq c.state d.state p same at)

  -- Another thread's place stays what it says.
  IsPlaced-stays :
      (s s' : CoreState px) (p : Pc px)
      → (is_some s.api ≡ true → is_some s'.api ≡ true)
      → IsPlaced s p
      → IsPlaced s' p
  IsPlaced-stays s s' idle stays at = tt
  IsPlaced-stays s s' stored stays at = tt
  IsPlaced-stays s s' finishing stays at = tt
  IsPlaced-stays s s' (ready user a) stays at = at
  IsPlaced-stays s s' (polling a) stays at = stays at

  set_pc-IsPlaced :
      (s : CoreState px) (pc : ℕ → Pc px) (i : ℕ) (p : Pc px)
      → IsPlaced s p
      → ((j : ℕ) → IsPlaced s (pc j))
      → (j : ℕ) → IsPlaced s (set_pc px pc i p j)
  set_pc-IsPlaced s pc i p at others j = elim (Bool-cases (j == i)) [
    | inl same ↦ rw same at
    | inr differs ↦ rw differs (others j)
  ]

  Reached-IsPlaced :
      (s : System px)
      → Reached px s
      → IsAccounted s.core.state × ((i : ℕ) → IsPlaced s.core.state (s.pc i))
  Reached-IsPlaced s (starts new idling) = (
    subst IsAccounted (sym new) (inl (refl, refl, refl)),
    λ i. subst (IsPlaced s.core.state) (sym (idling i)) tt,
  )
  Reached-IsPlaced t (later {s} r (moves i p d section)) =
      let (acc, placed) = Reached-IsPlaced s r in
      let fared = Section-Fared (s.pc i) p s.core d section acc (placed i) in
      (
        fared.accounted,
        set_pc-IsPlaced d.state s.pc i p fared.placed
            (λ j. IsPlaced-stays s.core.state d.state (s.pc j) fared.stays (placed j)),
      )

  -- However the calls of several threads interleave, either nobody is signed in and no marker is
  -- kept, or the user context and the session that the core holds were made from one
  -- session: by `promote`, whatever the other threads did between its calls.
  pub Reached-IsAccounted : (s : System px) → Reached px s → IsAccounted s.core.state
  Reached-IsAccounted s r = (Reached-IsPlaced s r).0
