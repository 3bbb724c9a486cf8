-- ===== src/Parallel/Spawning.antt =====
-- A spawn finds the pool that it was promised, as long as no pool is shut down.
use topo_llvm.Prelude.{ℕ, ◌≡◌, Option, some, List, get_elem?, length}
use topo_llvm.Parallel.Pool.{Queue}
use topo_llvm.Parallel.Threads.{World}

-- The pool is there, with so many queues.
abbrev pub Alive : ℕ → ℕ → List (Option (List Queue)) → Type 0
Alive i n os = (qs : List Queue) × (get_elem? os i ≡ some (some qs)) × (length qs ≡ n)

-- It is published, too.
abbrev pub Serves : ℕ → ℕ → World → Type 0
Serves i n w = (w.current ≡ some i) × Alive i n w.pools
