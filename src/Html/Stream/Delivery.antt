-- ===== src/Html/Stream/Delivery.antt =====
-- Every byte that the rewriter lets out reaches the caller once and in order.
use aerogram.Prelude.{
  Text, Result, ℕ, ◌≤◌, ◌≡◌, refl, sym, ap, ◌∙◌, inl, inr, Bool, List, [], ◌∷◌, ◌++◌, append_assoc,
  append-nil, arith, Option-cases, length, take, drop, length-append, take-drop, take_within,
  take-length, Bytes, codes, ok, err,
}
use aerogram.Html.Stream.{RewriterApi, SanitizerStream, new, write, finish}
use aerogram.Html.Stream.{Bytes}
use aerogram.Html.Stream.{◌++◌}

pub data Call : Type 0 where
  writes : Bytes → Call
  finishes : Call

module _ (api : RewriterApi) where
  open api use {Rewriter}

  -- A call, and the bytes that the caller gets.
  unfoldable pub step : SanitizerStream Rewriter → Call → SanitizerStream Rewriter × Bytes
  step s (writes chunk) =
      let (s', r) = write api s chunk in (s', elim r [ ok fresh ↦ fresh | err _ ↦ [] ])
  step s finishes = let (s', r) = finish api s in (s', elim r [ ok (rest, _) ↦ rest | err _ ↦ [] ])

  unfoldable pub run : SanitizerStream Rewriter → List Call → SanitizerStream Rewriter × Bytes
  run s [] = (s, [])
  run s (c ∷ cs) = let (s', got) = step s c in let (s'', more) = run s' cs in (s'', got ++ more)

  -- What the caller has of the output so far.
  abbrev pub Delivered : SanitizerStream Rewriter → Bytes → Type 0
  Delivered s got = (got ≡ take s.out_read s.out) × (s.out_read ≤ length s.out)

  -- What was handed out and what is new make up the output.
  caught_up :
      (n : ℕ) (out sunk : Bytes)
      → n ≤ length out
      → take n out ++ drop n (out ++ sunk) ≡ take (length (out ++ sunk)) (out ++ sunk)
  caught_up n out sunk h =
      ap (λ (xs : Bytes). xs ++ drop n (out ++ sunk)) (sym (take_within n out sunk h))
      ∙ take-drop n (out ++ sunk)
      ∙ sym (take-length (out ++ sunk))

  step-Delivered :
      (s : SanitizerStream Rewriter) (c : Call) (got : Bytes)
      → Delivered s got
      → Delivered (step s c).0 (got ++ (step s c).1)
  unfolding step write finish
  step-Delivered s (writes chunk) got (e, h) = elim (Option-cases s.rewriter) [
    | inl gone ↦ ground (arith, append-nil got)
    | inr (r, here) ↦
        let new = (api.feed r chunk).sunk in
        ground (
          arith,
          append-nil got,
          caught_up s.out_read s.out new h,
          take_within s.out_read s.out new h,
          length-append {0} s.out new,
        )
  ]
  step-Delivered s finishes got (e, h) = elim (Option-cases s.rewriter) [
    | inl gone ↦ ground (arith, append-nil got)
    | inr (r, here) ↦
        let new = (api.close r).sunk in
        ground (
          arith,
          append-nil got,
          caught_up s.out_read s.out new h,
          take_within s.out_read s.out new h,
          length-append {0} s.out new,
        )
  ]

  run-Delivered :
      (s : SanitizerStream Rewriter) (cs : List Call) (got : Bytes)
      → Delivered s got
      → Delivered (run s cs).0 (got ++ (run s cs).1)
  unfolding run
  run-Delivered s [] got d = rw (append-nil got) d
  run-Delivered s (c ∷ cs) got d =
      rw (← append_assoc got (step s c).1 (run (step s c).0 cs).1)
        (run-Delivered (step s c).0 cs _ (step-Delivered s c got d))

  -- After any calls, failed ones among them, the bytes handed out are the part of the output that
  -- `out_read` counts as read, in order: none is lost behind an error, and none comes twice.
  pub run_delivers :
      (cs : List Call)
      → ((run (new api) cs).1 ≡ take (run (new api) cs).0.out_read (run (new api) cs).0.out)
        × ((run (new api) cs).0.out_read ≤ length (run (new api) cs).0.out)
  run_delivers cs = run-Delivered (new api) cs [] (unfold new in (refl, omega arith))

  -- `finish` ends a stream for good, whether the rewriter ends with an error or not: every later
  -- call fails and changes nothing.
  finish_final :
      (s : SanitizerStream Rewriter) (chunk : Bytes)
      → (write api (finish api s).0 chunk ≡ ((finish api s).0, err (codes "write after finish")))
        × (finish api (finish api s).0 ≡ ((finish api s).0, err (codes "finish called twice")))
  unfolding write finish
  finish_final s chunk = elim (Option-cases s.rewriter) [
    | inl gone ↦ ground arith
    | inr (r, here) ↦ ground arith
  ]

  -- A successful `finish` completes what the caller has to the whole output.
  finish_completes :
      (s : SanitizerStream Rewriter) (got rest : Bytes) (blocked : Bool)
      → Delivered s got
      → (finish api s).1 ≡ ok (rest, blocked)
      → (got ++ rest ≡ (finish api s).0.out) × (blocked ≡ (finish api s).0.blocked)
  unfolding finish
  finish_completes s got rest blocked (e, h) done = elim (Option-cases s.rewriter) [
    | inl gone ↦ ground arith
    | inr (r, here) ↦ ground (
      arith,
      caught_up s.out_read s.out (api.close r).sunk h,
      take-length (s.out ++ (api.close r).sunk),
    )
  ]

  -- What the caller has after `finish`.
  abbrev pub Completed : Bytes → SanitizerStream Rewriter × Result Text (Bytes × Bool) → Type 0
  Completed got (s, ok (rest, blocked)) = (got ++ rest ≡ s.out) × (blocked ≡ s.blocked)
  Completed got (s, err e) = Unit

  completed :
      (s : SanitizerStream Rewriter) (got : Bytes) (r : Result Text (Bytes × Bool))
      → Delivered s got
      → (finish api s).1 ≡ r
      → Completed got ((finish api s).0, r)
  completed s got (err e) held ended = tt
  completed s got (ok (rest, blocked)) held ended = finish_completes s got rest blocked held ended

  -- If the caller has what was delivered so far, then a successful `finish` completes it to the
  -- whole output and answers with the blocked flag; and whether it succeeds or not, it ends the
  -- stream for good: every later write or finish fails with its message and changes nothing.
  pub finish_once :
      (s : SanitizerStream Rewriter) (got chunk : Bytes)
      → Delivered s got
      → Completed got (finish api s)
        × (write api (finish api s).0 chunk ≡ ((finish api s).0, err (codes "write after finish")))
        × (finish api (finish api s).0 ≡ ((finish api s).0, err (codes "finish called twice")))
  finish_once s got chunk held =
      let (written, again) = finish_final s chunk in
      (completed s got (finish api s).1 held refl, written, again)
