-- ===== src/Html/Abi/Handles/Steps.antt =====
-- One call of the client, as one of its handles sees it.
use aerogram.Prelude.{
  ℕ, ◌≡◌, refl, sym, ◌∙◌, inl, inr, true, false, Option, none, some, arith, ◌==◌, if◌then◌else◌,
  ==_iff, Bool-cases, Text, Bytes, codes,
}
use mathlib.Core.Path.{subst}
use aerogram.Prelude.CStrings.{CStr}
use aerogram.Prelude.Heap.{
  Ref, null, dangling, live, as_mut, into_raw, put, into_raw-IsBounded, put-IsBounded, as_mut-live,
  live_low,
}
use aerogram.Json.{Value}
use aerogram.Html.Stream.{RewriterApi, SanitizerStream, new}
use aerogram.Html.Abi.{written, finished, into_c, err_value}
use aerogram.Html.Abi.Handles.{
  Call, opens, writes, finishes, frees, Reply, handle, content, nothing, step, step_opens,
  step_writes, step_finishes, step_frees, Streams, ends, Holds,
}

module _ (message : Bytes → Text) (to_string : Value → Text) (api : RewriterApi) where
  open api use {Rewriter}

  module _ (p : ℕ) where
    Holds-opens :
        (s : SanitizerStream Rewriter) (h : Streams message to_string api)
        → Holds message to_string api p s h
        → Holds message to_string api p s (into_raw (new api) h).1
    unfolding into_raw
    Holds-opens s h k = record {
      not_null = k.not_null;
      here = ground (arith, live_low p h s k.bounded k.here, k.here);
      bounded = unfold into_raw in into_raw-IsBounded (new api) h k.bounded;
    }

    Holds-put_other :
        (q : ℕ) (a : Option (SanitizerStream Rewriter)) (s s' : SanitizerStream Rewriter)
        (h : Streams message to_string api)
        → Holds message to_string api p s h
        → as_mut q h ≡ live s'
        → (q == p) ≡ false
        → Holds message to_string api p s (put q a h)
    Holds-put_other q a s s' h k alive differs = record {
      not_null = k.not_null;
      here = ground (arith, k.here);
      bounded =
          put-IsBounded q a h (live_low q h s' k.bounded (as_mut-live q h s' alive).1) k.bounded;
    }

    Holds-put_self :
        (s s' : SanitizerStream Rewriter) (h : Streams message to_string api)
        → Holds message to_string api p s h
        → Holds message to_string api p s' (put p (some s') h)
    Holds-put_self s s' h k = record {
      not_null = k.not_null;
      here = ground arith;
      bounded = put-IsBounded p (some s') h (live_low p h s k.bounded k.here) k.bounded;
    }

    -- The stream after a call, and what the call replies if it is the handle's own.
    abbrev pub after_call : Call → SanitizerStream Rewriter → SanitizerStream Rewriter
    after_call (writes q chunk) s = if q == p then (written message to_string api chunk s).1 else s
    after_call c s = s

    abbrev OwnReply : Call → SanitizerStream Rewriter → Reply → Type 0
    OwnReply (writes q chunk) s r =
        (q == p) ≡ true → r ≡ content (written message to_string api chunk s).0
    OwnReply c s r = Unit

    abbrev pub back :
        Reply → Streams message to_string api → Option (Reply × Streams message to_string api)
    back r h = some (r, h)

    abbrev heap_of :
        Streams message to_string api
        → Option (Reply × Streams message to_string api)
        → Streams message to_string api
    heap_of h none = h
    heap_of h (some out) = out.1

    abbrev reply_of : Option (Reply × Streams message to_string api) → Reply
    reply_of none = nothing
    reply_of (some out) = out.0

    same_stream :
        (q : ℕ) (s s' : SanitizerStream Rewriter) (h : Streams message to_string api)
        → Holds message to_string api p s h
        → as_mut q h ≡ live s'
        → (q == p) ≡ true
        → s' ≡ s
    same_stream q s s' h k alive own_handle = ground (arith, as_mut-live q h s' alive, k.here)

    unfoldable pub Went :
        Call → SanitizerStream Rewriter → Reply → Streams message to_string api → Type 0
    Went c s r h' = Holds message to_string api p (after_call c s) h' × OwnReply c s r

    Went-of_eq :
        (c : Call) (s : SanitizerStream Rewriter) (r₀ r : Reply)
        (h₀ h' : Streams message to_string api)
        → back r₀ h₀ ≡ some (r, h')
        → Went c s r₀ h₀
        → Went c s r h'
    Went-of_eq c s r₀ r h₀ h' e = subst (λ o. Went c s (reply_of o) (heap_of h₀ o)) e

    null_differs :
        (q : ℕ) (s : SanitizerStream Rewriter) (h : Streams message to_string api)
        → Holds message to_string api p s h
        → as_mut q h ≡ null
        → (q == p) ≡ false
    unfolding as_mut
    null_differs q s h k at = ground (arith, k.not_null)

    write_goes :
        (q : ℕ) (chunk : CStr) (s : SanitizerStream Rewriter) (h h' : Streams message to_string api)
        (r : Reply) (ref : Ref (SanitizerStream Rewriter))
        → Holds message to_string api p s h
        → as_mut q h ≡ ref
        → elim ref as (λ x. Option (Reply × Streams message to_string api)) [
          | null ↦ some (
            content
                (into_c message to_string (err_value message to_string (codes "stream is null"))),
            h,
          )
          | dangling ↦ none
          | live stream ↦ some (
            content (written message to_string api chunk stream).0,
            put q (some (written message to_string api chunk stream).1) h,
          )
        ]
          ≡ some (r, h')
        → Went (writes q chunk) s r h'
    write_goes q chunk s h h' r null k at e =
        Went-of_eq (writes q chunk) s _ r h h' e (
          unfold Went in
          (let differs = null_differs q s h k at in rw differs (k, λ own_handle. cc)))
    write_goes q chunk s h h' r dangling k at e = cc
    write_goes q chunk s h h' r (live stream) k at e = Went-of_eq (writes q chunk) s _ r _ h' e (
        unfold Went in
        (elim (Bool-cases (q == p)) [
          | inr differs ↦ rw differs (Holds-put_other q _ s stream h k at differs, λ own_handle. cc)
          | inl same ↦
              let own_stream = same_stream q s stream h k at same in
              rw (own_stream, same, (==_iff q p).0 same)
                (Holds-put_self s _ h k, λ own_handle. refl)
        ]))

    -- A handle that is ended is another one, and so is null.
    other_goes :
        (c : Call) (s : SanitizerStream Rewriter) (q : ℕ) (h h' : Streams message to_string api)
        (r r₁ : Reply) (ref : Ref (SanitizerStream Rewriter))
        (reply : SanitizerStream Rewriter → Reply)
        → ((r' : Reply) (h₁ : Streams message to_string api)
            → Holds message to_string api p s h₁
            → Went c s r' h₁)
        → (q == p) ≡ false
        → Holds message to_string api p s h
        → as_mut q h ≡ ref
        → elim ref as (λ x. Option (Reply × Streams message to_string api)) [
          | null ↦ some (r₁, h)
          | dangling ↦ none
          | live stream ↦ some (reply stream, put q none h)
        ]
          ≡ some (r, h')
        → Went c s r h'
    other_goes c s q h h' r r₁ null reply plain differs k at e =
        Went-of_eq c s r₁ r h h' e (plain r₁ h k)
    other_goes c s q h h' r r₁ dangling reply plain differs k at e = cc
    other_goes c s q h h' r r₁ (live stream) reply plain differs k at e =
        Went-of_eq c s (reply stream) r (put q none h) h' e
          (plain (reply stream) (put q none h) (Holds-put_other q none s stream h k at differs))

    -- A call that does not end the handle leaves it with what the call wrote to it, and replies to
    -- the write what a stream alone would reply.
    pub step_goes :
        (c : Call) (s : SanitizerStream Rewriter) (h h' : Streams message to_string api) (r : Reply)
        → Holds message to_string api p s h
        → ends message to_string api p c ≡ false
        → step message to_string api h c ≡ some (r, h')
        → Went c s r h'
    step_goes opens s h h' r k open_still e =
        Went-of_eq opens s (handle (into_raw (new api) h).0) r (into_raw (new api) h).1 h'
          (sym (step_opens message to_string api h) ∙ e) (unfold Went in (Holds-opens s h k, tt))
    step_goes (writes q chunk) s h h' r k open_still e =
        write_goes q chunk s h h' r (as_mut q h) k refl
          (sym (step_writes message to_string api q chunk h) ∙ e)
    step_goes (finishes q) s h h' r k open_still e =
        other_goes (finishes q) s q h h' r _ (as_mut q h)
          (λ stream. content (finished message to_string api stream))
          (λ r' h₁ kept. unfold Went in (kept, tt)) open_still k refl
          (sym (step_finishes message to_string api q h) ∙ e)
    step_goes (frees q) s h h' r k open_still e =
        other_goes (frees q) s q h h' r nothing (as_mut q h) (λ stream. nothing)
          (λ r' h₁ kept. unfold Went in (kept, tt)) open_still k refl
          (sym (step_frees message to_string api q h) ∙ e)

    pub kept_on :
        (c : Call) (s : SanitizerStream Rewriter) (r : Reply) (h : Streams message to_string api)
        → Went c s r h
        → Holds message to_string api p (after_call c s) h
    unfolding Went
    kept_on c s r h w = w.0
