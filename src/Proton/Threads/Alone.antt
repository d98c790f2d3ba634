-- ===== src/Proton/Threads/Alone.antt =====
-- A call of `dispatch` that no other thread disturbs, as sections.
use aerogram.Prelude.{ℕ, ◌≡◌, ◌==◌, false}
use aerogram.Proton.Core.{ProtonApi, ProtonCore}
use aerogram.Proton.Threads.{System, Reached, Pc}

module _ (px : ProtonApi) where
  -- Where a run of one thread leads the system to.
  pub record Led (s : System px) (i : ℕ) (p : Pc px) (d : ProtonCore px) : Type 0 where
    pub to : System px
    pub reached : Reached px to
    pub core : to.core ≡ d
    pub place : to.pc i ≡ p
    pub others : (j : ℕ) → (j == i) ≡ false → to.pc j ≡ s.pc j
