-- ===== src/Proton/Runtime.antt =====
-- proton-core/src/lib.rs, `runtime`: the Tokio runtime, built when it is first asked for.
use aerogram.Prelude.{
  ℕ, zero, suc, ◌≡◌, refl, ap, ◌∙◌, Option, none, some, List, [], ◌∷◌, Text, Result, ok, err,
}

-- What Tokio's builder makes in a world.
pub record Tokio : Type 1 where
  pub Runtime : Type 0
  pub World : Type 0
  pub build : World → Result Text Runtime × World

abbrev times : {A : Type 0} → ℕ → A → List A
times zero a = []
times (suc n) a = let rest = times n a in a ∷ rest

module _ (tokio : Tokio) where
  open tokio use {Runtime, World, build}

  -- The cell `RT` and the world.
  pub record Process : Type 0 where
    pub rt : Option Runtime
    pub world : World

  -- `get_or_init`: none is the panic of `expect`, which leaves the cell empty.
  unfoldable pub runtime : Process → Option Runtime × Process
  runtime p = elim p.rt [
    | some rt ↦ (some rt, p)
    | none ↦
        let (made, w) = build p.world in
        elim made [
          | ok rt ↦ (some rt, record { rt = some rt; world = w })
          | err _ ↦ (none, record { rt = none; world = w })
        ]
  ]

  -- Calls one after another.
  abbrev asks : ℕ → Process → List (Option Runtime) × Process
  asks zero p = ([], p)
  asks (suc n) p = let (got, q) = runtime p in let (more, r) = asks n q in (got ∷ more, r)

  same_runtime :
      (n : ℕ) (rt : Runtime) (w : World)
      → asks n (record { rt = some rt; world = w })
        ≡ (times n (some rt), record { rt = some rt; world = w })
  unfolding runtime
  same_runtime zero rt w = refl
  same_runtime (suc n) rt w =
      ap (λ (o : List (Option Runtime) × Process). (some rt ∷ o.0, o.1)) (same_runtime n rt w)

  first_runtime :
      (rt : Runtime) (w w' : World)
      → build w ≡ (ok rt, w')
      → runtime (record { rt = none; world = w }) ≡ (some rt, record { rt = some rt; world = w' })
  unfolding runtime
  first_runtime rt w w' made =
      rw (ap (λ o. o.0) made, runtime)
        (ap (λ (o : Result Text Runtime × World). (some rt, record { rt = some rt; world = o.1 }))
          made)

  -- A runtime that could be built is built once: every call has it, and the world is the one after
  -- the first.
  built_once :
      (n : ℕ) (rt : Runtime) (w w' : World)
      → build w ≡ (ok rt, w')
      → asks (suc n) (record { rt = none; world = w })
        ≡ (times (suc n) (some rt), record { rt = some rt; world = w' })
  built_once n rt w w' made =
      ap (λ (o : Option Runtime × Process). (o.0 ∷ (asks n o.1).0, (asks n o.1).1))
        (first_runtime rt w w' made)
      ∙ ap (λ (o : List (Option Runtime) × Process). (some rt ∷ o.0, o.1)) (same_runtime n rt w')
