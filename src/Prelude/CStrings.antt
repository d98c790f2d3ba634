-- ===== src/Prelude/CStrings.antt =====
-- C strings: `CStr` and `CString` of Rust's standard library. A C string is the bytes before its
-- terminator; a pointer may be null.
use mathlib.Core.Bool.{Bool, false, ◌||◌}
use mathlib.Core.Option.{Option, none, some}
use mathlib.Core.List.{[], ◌∷◌}
use aerogram.Prelude.Tests.{◌==◌, if◌then◌else◌}
use aerogram.Prelude.Texts.{Text, Bytes}
use Prim.Native.Nat.{ℕ}
use aerogram.Prelude.Utf8.{as_bytes}
use aerogram.Prelude.Heap.{Heap, null, dangling, live, as_mut, put}

abbrev pub CStr : Type 0
CStr = Option Bytes

abbrev pub has_nul : Text → Bool
has_nul [] = false
has_nul (c ∷ s) = (c == 0) || has_nul s

-- `CString::new`: an error if the text holds the terminator.
unfoldable pub c_string : Text → Option Bytes
c_string s = if has_nul s then none else some (as_bytes s)

-- Strings that were handed out by `CString::into_raw`, and `CString::from_raw` of one to drop it;
-- `none` is undefined behaviour: a pointer that is neither null nor alive.
abbrev pub Strings : Type 0
Strings = Heap Bytes

unfoldable pub free_string : ℕ → Strings → Option Strings
free_string s h = elim (as_mut s h) [
  | null ↦ some h
  | dangling ↦ none
  | live _ ↦ some (put s none h)
]
