-- ===== src/Parallel/Tests.antt =====
-- Runs of the pool, a task and the cost samples on concrete inputs.
use topo_llvm.Prelude.{
  ◌+◌, ◌%◌, ◌^◌, ◌≤◌, ◌≡◌, ◌≢◌, ◌↔◌, refl, true, false, Option, none, some, List, [], ◌∷◌,
  if◌then◌else◌, ltb, codes, map, same, arith, strip_prefix, ◌⊎◌,
}
use topo_llvm.Prelude.Int.{pos}
use topo_llvm.Parallel.Pool.{
  Pool, start, submit, enqueue, queue_at, pop_back, pop_front, steal_loop, with_queues,
  try_steal_any, worker_take,
}
use topo_llvm.Parallel.Conserve.{count}
use topo_llvm.Parallel.Task.{
  TopoTask, live, freed, corrupt, new_task, complete, run_task_safely, detach, await_all,
}
use topo_llvm.Parallel.Ownership.{
  Life, spawned, run, release, Reach, next, awaited, deleted_once, await_returns, await_all_drains,
  finished, deleted, first_exception, IsDone,
}
use topo_llvm.Parallel.Lifecycle.{
  Config, Runtime, do_init, worker_count, positive, spawn_pri, ensure_init, submit_published,
}
use topo_llvm.Parallel.Threads.{
  Spawn, World, nothing_yet, publish, load_pool, push_task, take_task, published, loaded, pushed,
  took_own, retired, Happens, begin, then_call, then_stop,
}
use topo_llvm.Parallel.Once.{waiting, queued, runs_at_most_once}
use topo_llvm.Parallel.Cost.{
  Costs, cost_begin, cost_end, find_begin, record_sample, register_tls_samples,
}
use topo_llvm.Parallel.Samples.{
  get_cost_samples, accumulate_all, accumulate, add_to, averages, reset_pipeline, erase_pipeline,
  of_pipeline, change_registered, change_one,
}
use topo_llvm.Parallel.Average.{measured_all, lookup, average, get_cost_samples-average}
use topo_llvm.Parallel.Erase.{KeyOf, reset_pipeline-measured}

-- Two workers; the task 7 is normal, 8 is critical, 9 is normal.
abbrev three_tasks : Pool
three_tasks = submit 9 (pos 2) (submit 8 (pos 0) (submit 7 (pos 2) (start 2)))

-- Worker 0 has 7 and 9 and takes the older; worker 1 has 8; a helper then steals 8 first.
own_first : (worker_take 0 5 three_tasks).0 ≡ some 7
unfolding submit enqueue queue_at start worker_take pop_front with_queues
own_first = refl

helper_steals : (try_steal_any three_tasks).0 ≡ some 8
unfolding submit enqueue queue_at start try_steal_any pop_back steal_loop with_queues
helper_steals = refl

-- A spawn into an empty runtime on one processor, and the worker that runs the task.
abbrev config : Config
config = record { num_threads = pos 1; instrument = true }

abbrev no_pool : Runtime
no_pool = record { g_pool = none; g_config = config; g_instrument = true; spawned = 0 }

abbrev one_queued : Runtime
one_queued = record {
  g_pool = some (submit 0 (pos 2) (start 1));
  g_config = config;
  g_instrument = true;
  spawned = 1;
}

spawned_first : spawn_pri 1 (pos 2) no_pool ≡ some (0, one_queued)
unfolding spawn_pri ensure_init submit_published do_init worker_count positive
spawned_first = refl

-- One thread publishes a pool of one worker, one loads it and puts the task 0 into its queue, and the
-- worker takes it.
abbrev with_pool : World
with_pool = publish 4 (pos 1) nothing_yet

abbrev on_its_way : World
on_its_way = load_pool 0 (pos 2) with_pool

abbrev waiting_task : Spawn
waiting_task = record { handle = 0; pool = 0; priority = pos 2 }

abbrev in_queue : World
in_queue = push_task [] waiting_task ([] ∷ []) 0 on_its_way

abbrev was_taken : World
was_taken = take_task 0 ((0 ∷ []) ∷ []) 0 0 [] in_queue

-- The shutdown comes between the submission and the worker.
abbrev was_retired : World
was_retired = record in_queue { current = none }

abbrev taken_late : World
taken_late = take_task 0 ((0 ∷ []) ∷ []) 0 0 [] was_retired

in_queue-Happens : Happens nothing_yet in_queue
unfolding publish load_pool push_task start worker_count positive
in_queue-Happens =
    then_call nothing_yet on_its_way in_queue
      (then_call nothing_yet with_pool on_its_way
        (then_call nothing_yet nothing_yet with_pool (begin nothing_yet)
          (published nothing_yet 4 (pos 1) refl))
        (loaded with_pool 0 (pos 2) refl))
      (pushed on_its_way [] [] waiting_task ([] ∷ []) 0 refl refl (omega arith))

taken_late-Happens : Happens nothing_yet taken_late
unfolding publish load_pool push_task take_task start worker_count positive enqueue queue_at
    pop_front
taken_late-Happens =
    then_call nothing_yet was_retired taken_late
      (then_stop nothing_yet in_queue was_retired in_queue-Happens (retired in_queue))
      (took_own was_retired 0 ((0 ∷ []) ∷ []) 0 0 [] refl (omega arith) refl)

taken_once : (count 0 taken_late.ran ≡ 1) × (queued 0 taken_late.pools ≡ 0)
unfolding publish load_pool push_task take_task start worker_count positive enqueue queue_at
taken_once = (refl, refl)

runs_at_most_once_example :
    count 0 taken_late.ran + waiting 0 taken_late.pending + queued 0 taken_late.pools
    ≤ (if ltb 0 taken_late.spawned then 1 else 0)
runs_at_most_once_example = runs_at_most_once taken_late 0 taken_late-Happens

-- The body throws exception 3; the caller detaches before it runs.
abbrev detached_life : Life
detached_life = record (spawned (some 3) (pos 2)) {
  memory = detach (live (new_task (some 3) (pos 2)));
  held = false;
}

abbrev detached_run : Life
detached_run = record detached_life {
  memory = run_task_safely detached_life.memory;
  queued = false;
}

detached_reach : Reach (spawned (some 3) (pos 2)) detached_run
unfolding run_task_safely detach
detached_reach =
    next (spawned (some 3) (pos 2)) detached_life detached_run
      (next (spawned (some 3) (pos 2)) (spawned (some 3) (pos 2)) detached_life
        (Reach.start (spawned (some 3) (pos 2))) (release (spawned (some 3) (pos 2)) refl))
      (run detached_life refl)

deleted_once_example :
    (detached_run.memory ≢ corrupt)
    × ((detached_run.memory ≡ freed)
        ↔ ((detached_run.queued ≡ false) × (detached_run.held ≡ false)))
deleted_once_example = deleted_once (some 3) (pos 2) detached_run detached_reach

-- The body runs before the caller awaits it.
abbrev ran_life : Life
ran_life = record (spawned (some 3) (pos 2)) {
  memory = run_task_safely (live (new_task (some 3) (pos 2)));
  queued = false;
}

ran_reach : Reach (spawned (some 3) (pos 2)) ran_life
ran_reach =
    next (spawned (some 3) (pos 2)) (spawned (some 3) (pos 2)) ran_life
      (Reach.start (spawned (some 3) (pos 2))) (run (spawned (some 3) (pos 2)) refl)

await_returns_example :
    ((awaited ran_life).answer ≡ some (some 3)) × ((awaited ran_life).memory ≡ freed)
await_returns_example = await_returns (some 3) (pos 2) ran_life ran_reach refl refl

-- Two finished tasks around a null handle: the second one threw 4.
abbrev finished_tasks : List (Option TopoTask)
finished_tasks =
    some (complete (new_task none (pos 2)))
    ∷ none
    ∷ some (complete (new_task (some 4) (pos 1)))
    ∷ []

await_all_drains_example :
    await_all none (map finished finished_tasks)
    ≡ (map deleted finished_tasks, first_exception finished_tasks)
unfolding complete new_task IsDone
await_all_drains_example = await_all_drains finished_tasks (refl, (tt, (refl, tt)))

-- Threads 0 and 1 measure the same pipeline, 10 and 20 ns.
abbrev idle : Costs
idle = record {
  g_instrument = true;
  threads = λ k. record { pending = []; samples = []; registered = false };
  g_tls_registrations = [];
}

abbrev two_threads : Costs
two_threads =
    cost_end 1 (codes "p") 50
      (cost_begin 1 (codes "p") 30 (cost_end 0 (codes "p") 20 (cost_begin 0 (codes "p") 10 idle)))

two_threads_average : get_cost_samples two_threads ≡ (codes "p", 15) ∷ []
unfolding get_cost_samples accumulate_all accumulate add_to averages cost_begin cost_end find_begin
    record_sample register_tls_samples same
two_threads_average = refl

get_cost_samples-average_example :
    lookup (codes "p") (get_cost_samples two_threads)
    ≡ average
        (measured_all true (codes "p") two_threads.threads two_threads.g_tls_registrations % 2 ^ 64)
        (measured_all false (codes "p") two_threads.threads two_threads.g_tls_registrations
          % 2 ^ 64)
get_cost_samples-average_example = get_cost_samples-average two_threads (codes "p")

-- A sample of a stage of `p` on one thread, and one of `parse` on another.
abbrev staged : Costs
staged = cost_end 1 (codes "parse") 90 (
    cost_begin 1 (codes "parse") 60
      (cost_end 0 (codes "p::s") 20 (cost_begin 0 (codes "p::s") 10 idle)))

staged_times :
    (measured_all true (codes "p::s") staged.threads staged.g_tls_registrations ≡ 10)
    × (measured_all true (codes "parse") staged.threads staged.g_tls_registrations ≡ 30)
unfolding cost_begin cost_end find_begin record_sample register_tls_samples same
staged_times = (refl, refl)

-- The stage's sample is forgotten, and the other pipeline's is kept.
staged_reset :
    let threads = (reset_pipeline (codes "p") staged).threads in
    (measured_all true (codes "p::s") threads staged.g_tls_registrations ≡ 0)
    × (measured_all true (codes "parse") threads staged.g_tls_registrations ≡ 30)
unfolding reset_pipeline erase_pipeline of_pipeline change_registered change_one cost_begin cost_end
    find_begin record_sample register_tls_samples same strip_prefix
staged_reset = (refl, refl)

reset_pipeline-measured_example :
    let after =
      measured_all true
        (codes "parse")
        (reset_pipeline (codes "p") staged).threads
        staged.g_tls_registrations in
    (KeyOf (codes "p") (codes "parse") × (after ≡ 0))
    ⊎ (¬ (KeyOf (codes "p") (codes "parse"))
        × (after ≡ measured_all true (codes "parse") staged.threads staged.g_tls_registrations))
reset_pipeline-measured_example = reset_pipeline-measured true (codes "p") (codes "parse") staged
