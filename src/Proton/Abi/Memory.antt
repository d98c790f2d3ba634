-- ===== src/Proton/Abi/Memory.antt =====
-- proton-core/src/lib.rs, the C ABI as a client uses it: what it owns are cores, and the strings
-- that calls reply with.
pub mod Books
pub mod Alive
pub mod Safe
pub mod Clients
pub mod Tests
use aerogram.Prelude.{
  is_some, ℕ, ◌*◌, ◌≤◌, ◌≡◌, Bool, true, ◌||◌, not, Option, none, some, List, [], ◌∷◌, keep_if, any,
  ◌==◌, if◌then◌else◌, Bytes, ok,
}
use aerogram.Prelude.CStrings.{CStr, Strings}
use aerogram.Prelude.Heap.{into_raw}
use aerogram.Json.{Value}
use aerogram.Proton.Core.{ProtonApi}
use aerogram.Proton.Events.{timeout}
use aerogram.Proton.Abi.{
  Texts, Outside, Sys, replied, undefined, runs_on, ContextApi, read_params, proton_call,
  proton_core_new, proton_core_free, proton_free_string,
}

pub data Request : Type 0 where
  makes : CStr → Request
  frees : ℕ → Request
  calls : ℕ → CStr → CStr → Request
  frees_string : ℕ → Request

-- The core that was made, or null; and a reply's pointer and its bytes.
pub data Answer : Type 0 where
  made : ℕ → Answer
  said : ℕ → Bytes → Answer
  nothing : Answer

-- What the client's calls so far leave it with: the cores, and the strings with what they hold.
pub record Owned : Type 0 where
  pub cores : List ℕ
  pub strings : List (ℕ × Bytes)

abbrev pub owns : ℕ → List ℕ → Bool
owns p ps = any (λ q. p == q) ps

abbrev pub find_string : ℕ → List (ℕ × Bytes) → Option Bytes
find_string s [] = none
find_string s ((t, bytes) ∷ ss) = if s == t then some bytes else find_string s ss

abbrev pub has_string : ℕ → List (ℕ × Bytes) → Bool
has_string s ss = is_some (find_string s ss)

abbrev pub after : Request → Answer → Owned → Owned
after (makes dir) (made p) o = if p == 0 then o else record o { cores = p ∷ o.cores }
after (frees p) nothing o =
    if p == 0 then o else record o { cores = keep_if (λ q. not (q == p)) o.cores }
after (calls core method params) (said s bytes) o = record o { strings = (s, bytes) ∷ o.strings }
after (frees_string s) nothing o =
    if s == 0 then o else record o { strings = keep_if (λ t. not (t.0 == s)) o.strings }
after _ _ o = o

module _ (texts : Texts) (out : Outside) (px : ProtonApi) (cx : ContextApi texts out px) where
  pub record Memory : Type 0 where
    pub sys : Sys texts out px
    pub strings : Strings

  -- One call of the client; `none` is undefined behaviour, or the fuel ran out.
  unfoldable pub step : ℕ → Request → Memory → Option (Answer × Memory)
  step n (makes dir) m =
      let (p, sys) = proton_core_new texts out px cx dir m.sys in
      some (made p, record m { sys = sys })
  step n (frees p) m = elim (proton_core_free texts out px p m.sys) [
    | none ↦ none
    | some sys ↦ some (nothing, record m { sys = sys })
  ]
  step n (calls core method params) m = elim (proton_call texts out px n core method params m.sys) [
    | undefined ↦ none
    | runs_on ↦ none
    | replied bytes sys ↦
        let (s, strings) = into_raw bytes m.strings in
        some (said s bytes, record { sys = sys; strings = strings })
  ]
  step n (frees_string s) m = elim (proton_free_string s m.strings) [
    | none ↦ none
    | some strings ↦ some (nothing, record m { strings = strings })
  ]

  -- A request that keeps to what is owned, with null allowed everywhere, and whose timeout the fuel
  -- covers.
  abbrev pub IsPermitted : ℕ → Owned → Request → Type 0
  IsPermitted n o (makes dir) = Unit
  IsPermitted n o (frees p) = (p == 0 || owns p o.cores) ≡ true
  IsPermitted n o (calls core method params) =
      ((core == 0 || owns core o.cores) ≡ true)
      × ((v : Value) → read_params texts params ≡ ok v → timeout v ≤ n * 250)
  IsPermitted n o (frees_string s) = (s == 0 || has_string s o.strings) ≡ true
