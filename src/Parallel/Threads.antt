-- ===== src/Parallel/Threads.antt =====
-- The steps of the threads of the pool, one lock or one atomic access each. A spawn loads `g_pool` in one
-- step and puts its task into a queue in a later one; `worker_loop` and `try_steal_any` lock one queue at a
-- time; a shutdown unpublishes the pool in one step and deletes it in a later one, and until then the
-- workers go on taking its tasks. Which queue a thread comes to next is left open, so every value of
-- `submit_counter` and of the random generators is included.
use topo_llvm.Prelude.{
  ℕ, ◌+◌, ◌<◌, ◌≡◌, Option, none, some, List, [], ◌∷◌, ◌++◌, get_elem?, set, length,
}
use topo_llvm.Prelude.Int.{ℤ}
use topo_llvm.Parallel.Pool.{Queue, start, queue_at, enqueue, pop_front, pop_back}
use topo_llvm.Parallel.Lifecycle.{worker_count}

-- A spawn between its load of `g_pool` and its submission.
pub record Spawn : Type 0 where
  pub handle : ℕ
  pub pool : ℕ
  pub priority : ℤ

-- The pools in the order of their creation, `none` where one is deleted; `current` is `g_pool`.
pub record World : Type 0 where
  pub pools : List (Option (List Queue))
  pub current : Option ℕ
  pub pending : List Spawn
  -- The handles that threads have taken to run, the newest first.
  pub ran : List ℕ
  -- The handles allocated so far.
  pub spawned : ℕ

abbrev pub nothing_yet : World
nothing_yet = record { pools = []; current = none; pending = []; ran = []; spawned = 0 }

-- `do_init` starts the pool before it is published.
unfoldable pub publish : ℕ → ℤ → World → World
publish hardware z w = record w {
  pools = w.pools ++ some (start (worker_count hardware z)).queues ∷ [];
  current = some (length w.pools);
}

unfoldable pub load_pool : ℕ → ℤ → World → World
load_pool i z w = record w {
  pending = record { handle = w.spawned; pool = i; priority = z } ∷ w.pending;
  spawned = w.spawned + 1;
}

unfoldable pub push_task : List Spawn → Spawn → List Queue → ℕ → World → World
push_task others s qs v w = record w {
  pools = set w.pools s.pool (some (set qs v (enqueue s.handle s.priority (queue_at qs v))));
  pending = others;
}

unfoldable pub take_task : ℕ → List Queue → ℕ → ℕ → Queue → World → World
take_task i qs v task rest w = record w {
  pools = set w.pools i (some (set qs v rest));
  ran = task ∷ w.ran;
}

pub data Call : World → World → Type 0 where
  published : (w : World) (hardware : ℕ) (z : ℤ) → w.current ≡ none → Call w (publish hardware z w)
  loaded : (w : World) (i : ℕ) (z : ℤ) → w.current ≡ some i → Call w (load_pool i z w)
  pushed :
      (w : World) (before after : List Spawn) (s : Spawn) (qs : List Queue) (v : ℕ)
      → w.pending ≡ before ++ s ∷ after
      → get_elem? w.pools s.pool ≡ some (some qs)
      → v < length qs
      → Call w (push_task (before ++ after) s qs v w)
  took_own :
      (w : World) (i : ℕ) (qs : List Queue) (v task : ℕ) (rest : Queue)
      → get_elem? w.pools i ≡ some (some qs)
      → v < length qs
      → pop_front (queue_at qs v) ≡ some (task, rest)
      → Call w (take_task i qs v task rest w)
  stole :
      (w : World) (i : ℕ) (qs : List Queue) (v task : ℕ) (rest : Queue)
      → get_elem? w.pools i ≡ some (some qs)
      → v < length qs
      → pop_back (queue_at qs v) ≡ some (task, rest)
      → Call w (take_task i qs v task rest w)

-- What `shutdown` and `init` do to a pool that runs: after `stop`, the queues go with the pool. The steps
-- are allowed at any time, which is more than the lifecycle lock and the joins allow.
pub data Stop : World → World → Type 0 where
  retired : (w : World) → Stop w (record w { current = none })
  deleted : (w : World) (i : ℕ) → Stop w (record w { pools = set w.pools i none })

pub data Happens : World → World → Type 0 where
  begin : (w : World) → Happens w w
  then_call : (s t u : World) → Happens s t → Call t u → Happens s u
  then_stop : (s t u : World) → Happens s t → Stop t u → Happens s u

-- A run in which no pool is shut down.
pub data Calls : World → World → Type 0 where
  quiet : (w : World) → Calls w w
  and_then : (s t u : World) → Calls s t → Call t u → Calls s u
