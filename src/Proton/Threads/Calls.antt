-- ===== src/Proton/Threads/Calls.antt =====
-- A call that no other thread disturbs, as the sections that it runs one after another.
pub mod SignIn
pub mod Waiting
use aerogram.Proton.Core.{◌>>=◌, ◌>>◌}
use aerogram.Prelude.{
  ◌≡◌, refl, sym, ap, inl, inr, some, arith, Text, codes, Result, ok, err, Result-cases,
}
use mathlib.Core.Path.{subst}
use aerogram.Json.{Value}
use aerogram.Proton.Core.{ProtonApi, ProtonCore, Action, lift, pure, call, account_email}
use aerogram.Proton.Auth.{state_addr, set_account, promote}
use aerogram.Proton.Threads.{
  Promotes, restores, Pc, idle, finishing, ready, Section, finishes, sets, ends, awaits,
}
use aerogram.Proton.Threads.Account.{promote_sets}

module _ (px : ProtonApi) where
  -- Sections of one thread, with nothing of the others in between.
  pub data Run : Pc px → ProtonCore px → Pc px → ProtonCore px → Type 0 where
    over : {p : Pc px} {c : ProtonCore px} → Run p c p c
    goes : {p q r : Pc px} {c d e : ProtonCore px} → Section px p c q d → Run q d r e → Run p c r e

  -- The rest of a call that has only calls into the world left.
  pub leaves : (p : Pc px) (c d : ProtonCore px) → d.state ≡ c.state → Run p c idle d
  leaves p c d same = goes (awaits same) (goes ends over)

  promote_goes :
      (session : px.Session) (c : ProtonCore px) (user : px.UserCtx) (a : px.ApiSession)
      (w : px.World)
      → px.user_context_from_session session c.world ≡ (ok user, w)
      → (px.new_api_session (some session) w).0 ≡ ok a
      → (named : ProtonCore px) × (v : Value) × (promote px session c
          ≡ (ok v, set_account px user a named))
        × (named.state ≡ c.state)
  unfolding ◌>>=◌ ◌>>◌ promote call account_email
  promote_goes session c user a w made opened =
      let opening = px.new_api_session (some session) w in
      let c₂ : ProtonCore px = record { state = c.state; world = opening.1 } in
      let (addr, named) = account_email user c₂ in
      (named, state_addr (codes "ok") addr, ground arith, refl)

  promote_unmade :
      (session : px.Session) (c : ProtonCore px) (e : Text)
      → (px.user_context_from_session session c.world).0 ≡ err e
      → (promote px session c).1.state ≡ c.state
  unfolding ◌>>=◌ ◌>>◌ promote call
  promote_unmade session c e failed = ground arith

  promote_unopened :
      (session : px.Session) (c : ProtonCore px) (user : px.UserCtx) (w : px.World) (e : Text)
      → px.user_context_from_session session c.world ≡ (ok user, w)
      → (px.new_api_session (some session) w).0 ≡ err e
      → (promote px session c).1.state ≡ c.state
  unfolding ◌>>=◌ ◌>>◌ promote call
  promote_unopened session c user w e made failed = ground arith

  pub promote_run :
      (p : Pc px) (session : px.Session) (c : ProtonCore px)
      → ((user : px.UserCtx) (a : px.ApiSession)
          → Promotes px user a
          → Section px p c (ready user a) c)
      → Run p c idle (promote px session c).1
  promote_run p session c enter =
      let making = px.user_context_from_session session c.world in
      let opening = px.new_api_session (some session) making.1 in
      elim (Result-cases making.0) [
        | inl (e, failed) ↦ leaves p c (promote px session c).1 (promote_unmade session c e failed)
        | inr (user, made) ↦ elim (Result-cases opening.0) [
          | inl (e, failed) ↦
              leaves p c (promote px session c).1
                (promote_unopened session c user making.1 e (λ i. (made i, making.1)) failed)
          | inr (a, opened) ↦
              let (named, v, run, same) =
                promote_goes session c user a making.1 (λ i. (made i, making.1)) opened in
              let (sets_user, sets_api) =
                promote_sets px session c user a making.1 (λ i. (made i, making.1)) opened in
              let own : Promotes px user a = record {
                before_api = λ w. w;
                before_name = λ w. w;
                session = session;
                seen = c;
                left = (promote px session c).1;
                said = v;
                runs = λ i. ((run i).0, (promote px session c).1);
                sets_user = sets_user;
                sets_api = sets_api;
              } in
              goes (enter user a own)
                (goes (awaits same) (goes (sets user a (ap (λ x. x.1) run)) over))
        ]
      ]

  -- An action that is a run of a thread at a place.
  pub record Runs (p : Pc px) (c : ProtonCore px) (m : Action (ProtonCore px) Value) : Type 0 where
    pub run : Run p c idle (m c).1

  pub Runs-pure : {p : Pc px} {c : ProtonCore px} {v : Value} → Runs p c (pure v)
  Runs-pure {p} {c} = record { run = leaves p c c refl }

  pub Runs-lift :
      {A : Type 0} {p : Pc px} {c : ProtonCore px} {k : A → Action (ProtonCore px) Value}
      (r : Result Text A)
      → ((a : A) → Runs p c (k a))
      → Runs p c (lift r >>= k)
  unfolding ◌>>=◌
  Runs-lift (ok a) rest = record { run = (rest a).run }
  Runs-lift {p = p} {c = c} (err e) rest = record { run = leaves p c c refl }

  pub Runs-bind :
      {A : Type 0} {p q : Pc px} {c : ProtonCore px} {k : A → Action (ProtonCore px) Value}
      (m : Action (ProtonCore px) A)
      → Section px p c q (m c).1
      → ((a : A) → Runs q (m c).1 (k a))
      → Runs p c (m >>= k)
  unfolding ◌>>=◌
  Runs-bind {q = q} {c = c} {k = k} m first rest = elim (Result-cases (m c).0) [
    | inl (e, failed) ↦ record {
      run = goes first (leaves q (m c).1 _ (ap (λ d. d.state) (stops e failed)));
    }
    | inr (a, went) ↦ record {
      run = goes first (subst (Run q (m c).1 idle) (sym (goes_on a went)) (rest a).run);
    }
  ]
    where
      stops : (e : Text) → (m c).0 ≡ err e → ((m >>= k) c).1 ≡ (m c).1
      stops e failed = ground arith

      goes_on : (a : _) → (m c).0 ≡ ok a → ((m >>= k) c).1 ≡ (k a (m c).1).1
      goes_on a went = ground arith

  pub Runs-call :
      {A : Type 0} {p : Pc px} {c : ProtonCore px} {k : A → Action (ProtonCore px) Value}
      (what : Text) (m : Action px.World A)
      → ((a : A) → Runs p (record { state = c.state; world = (m c.world).1 }) (k a))
      → Runs p c (call what m >>= k)
  unfolding call
  Runs-call {p = p} what m rest = Runs-bind {q = p} (call what m) (awaits refl) rest

  pub Runs-promote_finishing :
      {c : ProtonCore px} (session : px.Session) → Runs finishing c (promote px session)
  Runs-promote_finishing {c} session = record {
    run = promote_run finishing session c (λ user a. finishes user a);
  }

  pub Runs-promote_idle :
      {c : ProtonCore px} (session : px.Session) → Runs idle c (promote px session)
  Runs-promote_idle {c} session = record {
    run = promote_run idle session c (λ user a. restores user a);
  }
