-- ===== src/Proton/Abi/Memory/Clients.antt =====
-- Any history of a client that keeps to what it owns.
use aerogram.Prelude.{ℕ, suc, ◌≡◌, refl, sym, ap, is_some, ◌∙◌, none, some, Option, []}
use mathlib.Core.Path.{subst}
use aerogram.Proton.Core.{ProtonApi}
use aerogram.Proton.Events.Polling.{HasClock}
use aerogram.Proton.Abi.{Texts, Outside, ContextApi}
use aerogram.Proton.Abi.Memory.{
  Request, makes, frees, calls, frees_string, Answer, Owned, after, Memory, step, IsPermitted,
}
use aerogram.Proton.Abi.Memory.Safe.{
  Agrees, IsFresh, Goes, makes-Goes, frees-Goes, calls-Goes, frees_string-Goes,
}

module _ (texts : Texts) (out : Outside) (px : ProtonApi) (cx : ContextApi texts out px) where
  -- The requests that a client has made, from none on.
  pub data Reached : Owned → Memory texts out px cx → Type 0 where
    starts :
        {o : Owned} {m : Memory texts out px cx}
        → o ≡ record { cores = []; strings = [] }
        → ((p : ℕ) → m.sys.cores.cells p ≡ none)
        → ((s : ℕ) → m.strings.cells s ≡ none)
        → Reached o m
    later :
        {o o' : Owned} {m m' : Memory texts out px cx} (n : ℕ) (r : Request) (a : Answer)
        → Reached o m
        → IsPermitted texts out px cx n o r
        → step texts out px cx (suc n) r m ≡ some (a, m')
        → o' ≡ after r a o
        → Reached o' m'

  permitted-Goes :
      (law : HasClock px) (n : ℕ) (r : Request) (o : Owned) (m : Memory texts out px cx)
      → Agrees texts out px cx o m
      → IsPermitted texts out px cx n o r
      → Goes texts out px cx (suc n) r o m
  permitted-Goes law n (makes dir) o m g allowed = makes-Goes texts out px cx (suc n) dir o m g
  permitted-Goes law n (frees p) o m g allowed = frees-Goes texts out px cx (suc n) p o m g allowed
  permitted-Goes law n (calls core method params) o m g (allowed, enough) =
      calls-Goes texts out px cx law n core method params o m g allowed enough
  permitted-Goes law n (frees_string s) o m g allowed =
      frees_string-Goes texts out px cx (suc n) s o m g allowed

  abbrev back : Answer → Memory texts out px cx → Option (Answer × Memory texts out px cx)
  back a m = some (a, m)

  abbrev AgreesIf : Request → Owned → Option (Answer × Memory texts out px cx) → Type 0
  AgreesIf r o none = Unit
  AgreesIf r o (some (a, m)) = Agrees texts out px cx (after r a o) m

  -- If the clock runs and a sleep lasts, then whatever a client has done that keeps to what it
  -- owns, with fuel for its timeouts, its books are right: every core that it owns is alive, every
  -- string that it owns still holds the bytes that the call replied with, and nothing else is
  -- alive.
  pub Reached-Agrees :
      (law : HasClock px) (o : Owned) (m : Memory texts out px cx)
      → Reached o m
      → Agrees texts out px cx o m
  Reached-Agrees law o m (starts new cores strings) = rw new (record {
    cores = λ p. ap is_some (cores p);
    strings = strings;
    cores_bounded = λ p above. cores p;
    strings_bounded = λ s above. strings s;
  })
  Reached-Agrees law o' m' (later {o} {m} n r a before allowed went same) =
      let (a₁, m₁, went₁, g, fresh) =
        permitted-Goes law n r o m (Reached-Agrees law o m before) allowed in
      subst (λ x. Agrees texts out px cx x m') (sym same)
        (subst (AgreesIf r o) (sym went₁ ∙ went) g)

  -- If the clock runs and a sleep lasts, the next request of such a client, if it too keeps to what
  -- is owned and the fuel covers its timeout, is neither undefined nor without an answer: it frees
  -- nothing twice and uses nothing freed, and what it is handed is not null and not owned already,
  -- but for a core that could not be made, which is null.
  pub permitted_goes :
      (law : HasClock px) (n : ℕ) (r : Request) (o : Owned) (m : Memory texts out px cx)
      → Reached o m
      → IsPermitted texts out px cx n o r
      → (a : Answer) × (m' : Memory texts out px cx) × (step texts out px cx (suc n) r m
          ≡ some (a, m'))
        × Reached (after r a o) m'
        × IsFresh texts out px cx a o
  permitted_goes law n r o m before allowed =
      let (a, m', went, g, fresh) =
        permitted-Goes law n r o m (Reached-Agrees law o m before) allowed in
      (a, m', went, later n r a before allowed went refl, fresh)
