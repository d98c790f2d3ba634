-- ===== src/Prelude/Heap.antt =====
-- Boxes that are handed out as raw pointers: `Box::into_raw`, `as_mut`, `Box::from_raw`.
use Prim.Native.Nat.{ℕ, suc, ◌≤◌, ◌<◌}
use mathlib.Core.Path.{◌≡◌, refl}
use mathlib.Core.Bool.{false}
use mathlib.Core.Option.{Option, none, some}
use native.Mathlib.Omega.{arith}
use aerogram.Prelude.Tests.{◌==◌, if◌then◌else◌}

-- Addresses above `next` were never given out; 0 is the null pointer.
pub record Heap (A : Type 0) : Type 0 where
  pub next : ℕ
  pub cells : ℕ → Option A

-- A raw pointer, as the code that gets it finds it.
pub data Ref (A : Type 0) : Type 0 where
  null : Ref A
  dangling : Ref A
  live : A → Ref A

module _ {A : Type 0} where
  abbrev pub box : Option A → Ref A
  box none = dangling
  box (some a) = live a

  unfoldable pub as_mut : ℕ → Heap A → Ref A
  as_mut p h = if p == 0 then null else box (h.cells p)

  abbrev pub put : ℕ → Option A → Heap A → Heap A
  put p a h = record h { cells = λ q. if q == p then a else h.cells q }

  unfoldable pub into_raw : A → Heap A → ℕ × Heap A
  into_raw a h =
      let p = suc h.next in
      (p, record { next = p; cells = λ q. if q == p then some a else h.cells q })

  -- Nothing lives above `next`.
  abbrev pub IsBounded : Heap A → Type 0
  IsBounded h = (p : ℕ) → h.next < p → h.cells p ≡ none

  pub into_raw-IsBounded : (a : A) (h : Heap A) → IsBounded h → IsBounded (into_raw a h).1
  unfolding into_raw
  into_raw-IsBounded a h b p above = ground (arith, b p)

  pub put-IsBounded :
      (p : ℕ) (a : Option A) (h : Heap A) → p ≤ h.next → IsBounded h → IsBounded (put p a h)
  put-IsBounded p a h low b q above = ground (arith, b q)

  -- A live pointer is not null, and was given out.
  pub as_mut-live :
      (p : ℕ) (h : Heap A) (a : A) → as_mut p h ≡ live a → ((p == 0) ≡ false) × (h.cells p ≡ some a)
  unfolding as_mut
  as_mut-live p h a e = ground arith

  pub live-as_mut :
      (p : ℕ) (h : Heap A) (a : A) → (p == 0) ≡ false → h.cells p ≡ some a → as_mut p h ≡ live a
  unfolding as_mut
  live-as_mut p h a there e = ground arith

  pub live_low : (p : ℕ) (h : Heap A) (a : A) → IsBounded h → h.cells p ≡ some a → p ≤ h.next
  live_low p h a b e = ground (arith, b p)

  pub cells-put :
      (p q : ℕ) (a : Option A) (h : Heap A)
      → (put p a h).cells q ≡ (if q == p then a else h.cells q)
  cells-put p q a h = refl
