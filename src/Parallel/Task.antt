-- ===== src/Parallel/Task.antt =====
-- `topo_task`: one allocation that the worker who runs the body and the caller who awaits or
-- detaches the handle share. Each function is one critical section under the task's lock.
use topo_llvm.Prelude.{ℕ, Bool, true, false, Option, none, some, List, [], ◌∷◌, if◌then◌else◌}
use topo_llvm.Prelude.Int.{ℤ}

-- `work` is what the body does: returns, or throws the exception with this number.
pub record TopoTask : Type 0 where
  pub work : Option ℕ
  pub done : Bool
  pub priority : ℤ
  pub detached : Bool
  pub exception : Option ℕ

-- The allocation. Any use of it after the `delete`, a second one included, is `corrupt`.
pub data Memory : Type 0 where
  live : TopoTask → Memory
  freed : Memory
  corrupt : Memory

-- `new topo_task()` with its body.
unfoldable pub new_task : Option ℕ → ℤ → TopoTask
new_task w z = record { work = w; done = false; priority = z; detached = false; exception = none }

-- `run_task_safely` up to its end: what the body throws is kept, and the task is done.
unfoldable pub complete : TopoTask → TopoTask
complete t = elim t.work [
  | none ↦ record t { done = true }
  | some e ↦ record t { exception = some e; done = true }
]

unfoldable pub run_task_safely : Memory → Memory
unfolding complete
run_task_safely (live t) = if t.detached then freed else live (complete t)
run_task_safely freed = corrupt
run_task_safely corrupt = corrupt

unfoldable pub detach : Memory → Memory
detach (live t) = if t.done then freed else live (record t { detached = true })
detach freed = corrupt
detach corrupt = corrupt

-- One turn of the loop of `topo_task_await`. The result is `none` while the task is not done;
-- then the exception to throw, if any, and the task is deleted.
unfoldable pub await_turn : Memory → Memory × Option (Option ℕ)
await_turn (live t) = if t.done then (freed, some t.exception) else (live t, none)
await_turn freed = (corrupt, none)
await_turn corrupt = (corrupt, none)

-- `topo_task_await` on a task that is done, or on a null handle.
unfoldable pub await : Option Memory → Option Memory × Option ℕ
unfolding await_turn
await none = (none, none)
await (some m) = elim (await_turn m).1 [
  | none ↦ (some (await_turn m).0, none)
  | some e ↦ (some (await_turn m).0, e)
]

-- The first exception is kept.
unfoldable pub keep_first : Option ℕ → Option ℕ → Option ℕ
keep_first none e = e
keep_first (some f) e = some f

-- `topo_task_await_all`, with the exception kept so far.
unfoldable pub await_all : Option ℕ → List (Option Memory) → List (Option Memory) × Option ℕ
unfolding await keep_first
await_all first [] = ([], first)
await_all first (m ∷ ms) =
    let rest = await_all (keep_first first (await m).1) ms in ((await m).0 ∷ rest.0, rest.1)
