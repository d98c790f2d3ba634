-- ===== src/Proton/Abi/Memory/Books.antt =====
-- The live pointers of a heap in a list, as calls change both.
use aerogram.Prelude.{
  is_some, ℕ, suc, ◌≡◌, ◌≢◌, refl, true, false, ◌||◌, not, none, some, List, [], ◌∷◌, keep_if,
  arith, ◌==◌, if◌then◌else◌, Bytes,
}
use aerogram.Prelude.Heap.{Heap, dangling, live, as_mut, into_raw, put, IsBounded, as_mut-live}
use aerogram.Proton.Abi.Memory.{owns, find_string}

pub owns-keep_if :
    (p q : ℕ) (ps : List ℕ)
    → owns p (keep_if (λ x. not (x == q)) ps) ≡ (if p == q then false else owns p ps)
owns-keep_if p q [] = ground arith
owns-keep_if p q (x ∷ ps) = ground (arith, owns-keep_if p q ps)

pub find_string-keep_if :
    (s t : ℕ) (ss : List (ℕ × Bytes))
    → find_string s (keep_if (λ x. not (x.0 == t)) ss) ≡ (if s == t then none else find_string s ss)
find_string-keep_if s t [] = ground arith
find_string-keep_if s t ((u, bytes) ∷ ss) = ground (arith, find_string-keep_if s t ss)

module _ {A : Type 0} where
  -- The same cells are alive.
  pub record SameAlive (h h' : Heap A) : Type 0 where
    pub next : h'.next ≡ h.next
    pub alive : (p : ℕ) → is_some (h'.cells p) ≡ is_some (h.cells p)

  pub SameAlive-refl : (h : Heap A) → SameAlive h h
  SameAlive-refl h = record { next = refl; alive = λ p. refl }

  pub SameAlive-put :
      (p : ℕ) (a b : A) (h : Heap A) → as_mut p h ≡ live a → SameAlive h (put p (some b) h)
  SameAlive-put p a b h there = record {
    next = refl;
    alive = λ q. ground (arith, as_mut-live p h a there);
  }

  pub IsBounded-SameAlive : (h h' : Heap A) → SameAlive h h' → IsBounded h → IsBounded h'
  IsBounded-SameAlive h h' same b p above = ground (arith, same.next, same.alive p, b p)

  -- A pointer that is null or alive does not dangle.
  pub not_dangling :
      (p : ℕ) (h : Heap A) → (p == 0 || is_some (h.cells p)) ≡ true → as_mut p h ≢ dangling
  unfolding as_mut
  not_dangling p h ok_there stuck = ground arith

-- The books of a heap: its live pointers in a list.
abbrev pub Books : {A : Type 0} → Heap A → List ℕ → Type 0
Books h ps = (p : ℕ) → is_some (h.cells p) ≡ owns p ps

module _ {A : Type 0} where
  pub not_null-into_raw : (a : A) (h : Heap A) → ((into_raw a h).0 == 0) ≡ false
  unfolding into_raw
  not_null-into_raw a h = ground arith

  pub cells-into_raw :
      (a : A) (h : Heap A) (q : ℕ)
      → (into_raw a h).1.cells q ≡ (if q == (into_raw a h).0 then some a else h.cells q)
  unfolding into_raw
  cells-into_raw a h q = refl

  pub Books-into_raw :
      (a : A) (h : Heap A) (ps : List ℕ)
      → Books h ps
      → Books (into_raw a h).1 ((into_raw a h).0 ∷ ps)
  unfolding into_raw
  Books-into_raw a h ps books q = ground (arith, books q)

  pub into_raw_fresh : (a : A) (h : Heap A) → IsBounded h → h.cells (into_raw a h).0 ≡ none
  unfolding into_raw
  into_raw_fresh a h bounded = bounded (suc h.next) (omega arith)

  pub Books-put-none :
      (p : ℕ) (h : Heap A) (ps : List ℕ)
      → Books h ps
      → Books (put p none h) (keep_if (λ x. not (x == p)) ps)
  Books-put-none p h ps books q = ground (arith, owns-keep_if q p ps, books q)
