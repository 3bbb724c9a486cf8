-- ===== src/Benchmark/Lab.antt =====
-- What the benchmarks are run with: LLVM's modules, and the processes that compile and time a function.
use topo_llvm.Prelude.{ℕ, Bool, Option, Bytes}
use topo_llvm.Prelude.Doubles.{Doubles}
use topo_llvm.Prelude.Int.{ℤ}

-- `clone` writes a module's bitcode and parses it in a new context. `measure` is `compileAndMeasure` with
-- the function, the warm-up and other rounds, the level and the elements of the buffer; it compiles and
-- runs programs, which is a step of the world.
pub record Lab (D : Doubles) : Type 1 where
  pub Ir : Type 0
  pub World : Type 0
  pub is_native_target : Ir → Bool
  pub clone : Ir → Option Ir
  pub measure : Ir → Bytes → ℤ → ℤ → ℕ → Option ℕ → World → Option D.Double × World
