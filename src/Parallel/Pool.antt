-- ===== src/Parallel/Pool.antt =====
-- `WorkerQueue` and `ThreadPool`: queues of task handles, front first. A pop and a push hold one queue's
-- lock. `try_steal_any` and `worker_take` are the loops over the queues as a thread runs them while no
-- other thread has a turn; Threads has their locked sections as steps. The condition variable only wakes
-- sleeping workers and has no state.
use topo_llvm.Prelude.{
  ℕ, zero, suc, ◌+◌, ◌%◌, ◌^◌, Bool, false, Option, none, some, List, [], ◌∷◌, ◌++◌, ltb, ◌==◌,
  if◌then◌else◌, get_elem?, set, replicate,
}
use topo_llvm.Prelude.Int.{ℤ, below}

abbrev pub Queue : Type 0
Queue = List ℕ

pub record Pool : Type 0 where
  pub queues : List Queue
  pub submit_counter : ℕ
  pub num_workers : ℕ

-- `start`: one queue for each worker.
unfoldable pub start : ℕ → Pool
start n = record { queues = replicate n []; submit_counter = 0; num_workers = n }

unfoldable pub queue_at : List Queue → ℕ → Queue
queue_at qs i = elim (get_elem? qs i) [ none ↦ [] | some q ↦ q ]

-- Critical and high priorities go to the front.
unfoldable pub enqueue : ℕ → ℤ → Queue → Queue
enqueue task priority q = if below priority 2 then task ∷ q else q ++ task ∷ []

unfoldable pub submit : ℕ → ℤ → Pool → Pool
unfolding enqueue queue_at
submit task priority p =
    let target = p.submit_counter % p.num_workers in
    record p {
      queues = set p.queues target (enqueue task priority (queue_at p.queues target));
      submit_counter = (p.submit_counter + 1) % 2 ^ 64;
    }

unfoldable pub pop_back : Queue → Option (ℕ × Queue)
pop_back [] = none
pop_back (x ∷ xs) = elim (pop_back xs) [ none ↦ some (x, []) | some (t, r) ↦ some (t, x ∷ r) ]

unfoldable pub pop_front : Queue → Option (ℕ × Queue)
pop_front [] = none
pop_front (x ∷ xs) = some (x, xs)

-- The stealing loops, with `left` rounds to go from round `i`: the first victim that is not
-- skipped and has a task loses its last one.
unfoldable pub steal_loop : (ℕ → Bool) → ℕ → ℕ → ℕ → ℕ → List Queue → Option (ℕ × List Queue)
steal_loop skip n from zero i qs = none
steal_loop skip n from (suc left) i qs =
    let victim = (from + i) % n in
    let rest = steal_loop skip n from left (i + 1) qs in
    if skip victim then rest else elim (pop_back (queue_at qs victim)) [
      | none ↦ rest
      | some (t, r) ↦ some (t, set qs victim r)
    ]

unfoldable pub with_queues : Pool → Option (ℕ × List Queue) → Option ℕ × Pool
with_queues p none = (none, p)
with_queues p (some (t, qs)) = (some t, record p { queues = qs })

-- `try_steal_any`, for a thread that waits.
unfoldable pub try_steal_any : Pool → Option ℕ × Pool
unfolding with_queues
try_steal_any p =
    let n = p.num_workers in
    let p' = record p { submit_counter = (p.submit_counter + 1) % 2 ^ 64 } in
    if n == 0
    then (none, p)
    else with_queues p' (steal_loop (λ v. false) n (p.submit_counter % n) n 0 p.queues)

-- What worker `id` takes in one round of `worker_loop`: from its own queue, or from another.
-- `draw` is the value of its random generator.
unfoldable pub worker_take : ℕ → ℕ → Pool → Option ℕ × Pool
unfolding with_queues
worker_take id draw p =
    let n = p.num_workers in
    elim (pop_front (queue_at p.queues id)) [
      | some (t, r) ↦ (some t, record p { queues = set p.queues id r })
      | none ↦
          if ltb 1 n
          then with_queues p (steal_loop (λ v. v == id) n (draw % n) n 0 p.queues)
          else (none, p)
    ]
