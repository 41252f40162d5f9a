-- ===== src/Tests/Scopes.antt =====
-- Nested scopes in a shared memory of 64 bytes.
use async_gpu.Prelude.{◌≡◌, refl, List, [], ◌∷◌, some, arith}
use async_gpu.Scope.{uninit, init}
use async_gpu.Scope.Live.{Op, allocs, enters, leaves, Scopes, perform_all, Apart}
use async_gpu.Scope.Fits.{live, live_blocks-Apart}

abbrev program : List Op
program = enters ∷ allocs 5 1 ∷ enters ∷ allocs 8 8 ∷ leaves ∷ allocs 4 4 ∷ []

live_blocks-Apart_example :
    (s : Scopes) × (perform_all program (init 64 uninit, [] ∷ []) ≡ some s) × Apart 0 64 (live s.1)
live_blocks-Apart_example =
    live_blocks-Apart 64 uninit program (omega arith)
      (
        tt,
        (
          ((0, omega arith, refl), omega arith),
          (
            tt,
            (
              ((3, omega arith, refl), omega arith),
              (tt, (((2, omega arith, refl), omega arith), tt)),
            ),
          ),
        ),
      )
      (omega arith) (omega arith)
