-- ===== src/Proton/Abi/Memory/Tests.antt =====
-- A client in the small world: it makes a core, calls it, and frees what it got.
use aerogram.Prelude.{◌≡◌, refl, none, some, [], ◌∷◌, codes, ok}
use aerogram.Prelude.Utf8.{from_utf8, as_bytes, from_utf8_lossy}
use aerogram.Prelude.Heap.{into_raw}
use aerogram.Proton.Mock.{mock, mock-HasClock}
use aerogram.Proton.Abi.{
  ContextApi, cstr_arg, make_dirs, create_context, proton_core_new, read_params,
}
use aerogram.Proton.Abi.Tests.{texts, outside}
use aerogram.Proton.Abi.Memory.{Request, makes, calls, Answer, made, Owned, after, Memory, step}
use aerogram.Proton.Abi.Memory.Safe.{Agrees, IsFresh}
use aerogram.Proton.Abi.Memory.Clients.{Reached, starts, later, Reached-Agrees, permitted_goes}

abbrev context : ContextApi texts outside mock
context = record {
  create_dir_all = λ dir w. (ok tt, w);
  cargo_pkg_version = codes "0.1.0";
  new_context = λ config w. (ok tt, w);
}

abbrev Mem : Type 0
Mem = Memory texts outside mock context

abbrev empty : Mem
empty = record {
  sys = record { cores = record { next = 0; cells = λ p. none }; world = 0 };
  strings = record { next = 0; cells = λ s. none };
}

abbrev no_things : Owned
no_things = record { cores = []; strings = [] }

abbrev one_core : Owned
one_core = record { cores = 1 ∷ []; strings = [] }

abbrev made_core : Mem
made_core = record empty {
  sys = (proton_core_new texts outside mock context (some (codes "/tmp/a")) empty.sys).1;
}

made_core-Reached : Reached texts outside mock context one_core made_core
unfolding step proton_core_new create_context make_dirs cstr_arg from_utf8 into_raw as_bytes
    from_utf8_lossy
made_core-Reached =
    later {o = no_things} {m = empty} 0 (makes (some (codes "/tmp/a"))) (made 1)
      (starts refl (λ p. refl) (λ s. refl)) tt refl refl

Reached-Agrees_example : Agrees texts outside mock context one_core made_core
Reached-Agrees_example =
    Reached-Agrees texts outside mock context mock-HasClock one_core made_core made_core-Reached

abbrev ping : Request
ping = calls 1 (some (codes "ping")) none

permitted_goes_example :
    (a : Answer) × (m' : Mem) × (step texts outside mock context 1 ping made_core ≡ some (a, m'))
    × Reached texts outside mock context (after ping a one_core) m'
    × IsFresh texts outside mock context a one_core
unfolding read_params
permitted_goes_example =
    permitted_goes texts outside mock context mock-HasClock 0 ping one_core made_core
      made_core-Reached (refl, λ v given. cc)
