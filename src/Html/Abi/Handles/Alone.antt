-- ===== src/Html/Abi/Handles/Alone.antt =====
-- Many calls of the client, as one of its handles sees them.
use aerogram.Prelude.{
  ℕ, ◌≡◌, refl, sym, inl, inr, false, Option, none, some, List, [], ◌∷◌, ◌==◌, Bool-cases,
  Option-cases, All, Text, Bytes,
}
use mathlib.Core.Path.{subst, ap₂}
use aerogram.Json.{Value}
use aerogram.Html.Stream.{RewriterApi, SanitizerStream}
use aerogram.Html.Abi.{written}
use aerogram.Html.Abi.Handles.{
  Call, opens, writes, finishes, frees, Reply, step, run, alone, Streams, own, own_replies, ends,
  Holds,
}
use aerogram.Html.Abi.Handles.Steps.{Went, after_call, step_goes, kept_on, back}

module _ (message : Bytes → Text) (to_string : Value → Text) (api : RewriterApi) where
  open api use {Rewriter}

  module _ (p : ℕ) where
    -- What a run leaves, and how the handle's own calls were answered.
    Ran : List Call → SanitizerStream Rewriter → List Reply → Streams message to_string api → Type 0
    Ran cs s rs h' =
        Holds message to_string api p
          (alone message to_string api s (own message to_string api p cs)).1 h'
        × (own_replies message to_string api p cs rs
            ≡ (alone message to_string api s (own message to_string api p cs)).0)

    Ran-cons :
        (c : Call) (cs : List Call) (s : SanitizerStream Rewriter) (r : Reply) (rs : List Reply)
        (h₁ h' : Streams message to_string api)
        → ends message to_string api p c ≡ false
        → Went message to_string api p c s r h₁
        → Ran cs (after_call message to_string api p c s) rs h'
        → Ran (c ∷ cs) s (r ∷ rs) h'
    unfolding Went Ran own own_replies alone
    Ran-cons opens cs s r rs h₁ h' still w ran = ran
    Ran-cons (finishes q) cs s r rs h₁ h' still w ran = ran
    Ran-cons (frees q) cs s r rs h₁ h' still w ran = ran
    Ran-cons (writes q chunk) cs s r rs h₁ h' still w ran = elim (Bool-cases (q == p)) [
      | inl same ↦
          let ran' : Ran cs (written message to_string api chunk s).1 rs h' = (rw same at ran) in
          rw same (ran'.0, ap₂ ◌∷◌ (w.1 same) ran'.1)
      | inr differs ↦ let ran' : Ran cs s rs h' = (rw differs at ran) in rw differs ran'
    ]

    abbrev done :
        List Reply
        → Streams message to_string api
        → Option (List Reply × Streams message to_string api)
    done rs h = some (rs, h)

    abbrev IfDone :
        List Call
        → SanitizerStream Rewriter
        → Option (List Reply × Streams message to_string api)
        → Type 0
    IfDone cs s none = Unit
    IfDone cs s (some (rs, h')) = Ran cs s rs h'

    run-done :
        (c : Call) (cs : List Call) (h h₁ h' : Streams message to_string api) (r : Reply)
        (rs : List Reply)
        → step message to_string api h c ≡ back message to_string api p r h₁
        → run message to_string api h₁ cs ≡ done rs h'
        → run message to_string api h (c ∷ cs) ≡ done (r ∷ rs) h'
    unfolding run
    run-done c cs h h₁ h' r rs went ran = rw (went, run) (rw ran refl)

    run_stops :
        (c : Call) (cs : List Call) (h : Streams message to_string api)
        → step message to_string api h c ≡ none
        → run message to_string api h (c ∷ cs) ≡ none
    unfolding run
    run_stops c cs h stuck = rw (stuck, run) refl

    run_breaks :
        (c : Call) (cs : List Call) (h h₁ : Streams message to_string api) (r : Reply)
        → step message to_string api h c ≡ back message to_string api p r h₁
        → run message to_string api h₁ cs ≡ none
        → run message to_string api h (c ∷ cs) ≡ none
    unfolding run
    run_breaks c cs h h₁ r went stuck = rw (went, run) (rw stuck refl)

    run_goes :
        (cs : List Call) (s : SanitizerStream Rewriter) (h : Streams message to_string api)
        → All (λ c. ends message to_string api p c ≡ false) cs
        → Holds message to_string api p s h
        → IfDone cs s (run message to_string api h cs)
    run_goes [] s h still k =
        unfold run in
        (unfold Ran in (unfold own in (unfold own_replies in (unfold alone in (k, refl)))))
    run_goes (c ∷ cs) s h (open_now, still) k =
        elim (Option-cases (step message to_string api h c)) [
          | inl stuck ↦ subst (IfDone (c ∷ cs) s) (sym (run_stops c cs h stuck)) tt
          | inr ((r, h₁), went) ↦
              let w = step_goes message to_string api p c s h h₁ r k open_now went in
              let later =
                run_goes cs (after_call message to_string api p c s) h₁ still
                  (kept_on message to_string api p c s r h₁ w) in
              elim (Option-cases (run message to_string api h₁ cs)) [
                | inl stuck ↦ subst (IfDone (c ∷ cs) s) (sym (run_breaks c cs h h₁ r went stuck)) tt
                | inr ((rs, h'), ran) ↦
                    subst (IfDone (c ∷ cs) s) (sym (run-done c cs h h₁ h' r rs went ran)) (
                      Ran-cons c cs s r rs h₁ h' open_now w
                        (subst (IfDone cs (after_call message to_string api p c s)) ran later))
              ]
        ]

    -- Whatever else a client does with other handles, opening, writing, finishing and freeing them,
    -- a handle that it does not end behaves as a stream of its own: it gets the chunks written to
    -- it, in order, and every write is answered as that stream would.
    pub run-alone :
        (cs : List Call) (s : SanitizerStream Rewriter) (h h' : Streams message to_string api)
        (rs : List Reply)
        → All (λ c. ends message to_string api p c ≡ false) cs
        → Holds message to_string api p s h
        → run message to_string api h cs ≡ some (rs, h')
        → Holds message to_string api p
            (alone message to_string api s (own message to_string api p cs)).1
            h'
          × (own_replies message to_string api p cs rs
              ≡ (alone message to_string api s (own message to_string api p cs)).0)
    unfolding Ran
    run-alone cs s h h' rs still k e = subst (IfDone cs s) e (run_goes cs s h still k)
