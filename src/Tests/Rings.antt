-- ===== src/Tests/Rings.antt =====
-- A command ring of two slots.
use async_gpu.Prelude.{[], ◌∷◌, List, arith}
use async_gpu.Commands.{print, exit, compute, nop, new}
use async_gpu.Commands.Calls.{Call, submits, serves, Goes, ring_refines}

abbrev calls : List Call
calls =
    serves
    ∷ submits (print (104 ∷ 105 ∷ []))
    ∷ submits (compute 4096 8192 16 2)
    ∷ submits exit
    ∷ serves
    ∷ submits nop
    ∷ serves
    ∷ serves
    ∷ serves
    ∷ []

ring_refines_example : Goes 2 calls [] (new 2)
ring_refines_example =
    ring_refines 2 calls (omega arith)
      (
        tt,
        (
          tt,
          (
            (omega arith, omega arith, omega arith, omega arith),
            (tt, (tt, (tt, (tt, (tt, (tt, tt)))))),
          ),
        ),
      )
      (omega arith)
