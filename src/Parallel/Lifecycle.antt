-- ===== src/Parallel/Lifecycle.antt =====
-- The pool's life: `init`, `shutdown`, `topo_parallel_ensure_init` and the three spawns, each as one thread
-- alone runs it from its call to its return. `init` and `shutdown` hold the lifecycle lock; the fast path
-- of `topo_parallel_ensure_init` and the spawns hold none, and Threads has the steps that interleave.
-- topo/parallel.h is not in this repository: the default `instrument` of its `Config` is the parameter
-- `config` of `parallel_init`.
use topo_llvm.Prelude.{
  ℕ, ◌+◌, ◌<◌, ◌≡◌, refl, inl, inr, Bool, Option, none, some, ltb, if◌then◌else◌, Option-cases, ◌∙◌,
  ap, subst, zero, suc, length-set, arith,
}
use topo_llvm.Prelude.Int.{ℤ, pos, negsuc}
use topo_llvm.Parallel.Pool.{Pool, start, submit}
use topo_llvm.Parallel.Conserve.{once, held, Started, start-Started, submit-held}

pub record Config : Type 0 where
  pub num_threads : ℤ
  pub instrument : Bool

pub record Runtime : Type 0 where
  pub g_pool : Option Pool
  pub g_config : Config
  pub g_instrument : Bool
  -- The handles allocated so far.
  pub spawned : ℕ

-- A positive `int` as a count, 0 for the others.
unfoldable pub positive : ℤ → ℕ
positive (pos n) = n
positive (negsuc n) = 0

-- The worker count. `hardware` is what `std::thread::hardware_concurrency` returns.
unfoldable pub worker_count : ℕ → ℤ → ℕ
unfolding positive
worker_count hardware z =
    if ltb 0 (positive z) then positive z else if ltb 0 hardware then hardware else 2

unfoldable pub do_init : ℕ → Runtime → Runtime
unfolding start worker_count
do_init hardware r = record r {
  g_instrument = r.g_config.instrument;
  g_pool = some (start (worker_count hardware r.g_config.num_threads));
}

-- The state once the pool is stopped and deleted: its workers have ended, and what they left queued goes
-- with it.
unfoldable pub shutdown : Runtime → Runtime
shutdown r = elim r.g_pool [ none ↦ r | some old ↦ record r { g_pool = none } ]

unfoldable pub init : ℕ → Config → Runtime → Runtime
unfolding do_init shutdown
init hardware config r = do_init hardware (record (shutdown r) { g_config = config })

unfoldable pub parallel_init : ℕ → Config → ℤ → Runtime → Runtime
unfolding init
parallel_init hardware config z r = init hardware (record config { num_threads = z }) r

unfoldable pub ensure_init : ℕ → Runtime → Runtime
unfolding do_init
ensure_init hardware r = elim r.g_pool [ none ↦ do_init hardware r | some p ↦ r ]

-- `pool->submit(task)` through the pointer, which must not be null.
unfoldable pub submit_published : ℕ → ℤ → Runtime → Option Runtime
submit_published task z r = elim r.g_pool [
  | none ↦ none
  | some p ↦ some (record r { g_pool = some (submit task z p) })
]

-- `topo_task_spawn_ret_pri`; the handle is the number of the allocation.
unfoldable pub spawn_pri : ℕ → ℤ → Runtime → Option (ℕ × Runtime)
unfolding ensure_init submit_published
spawn_pri hardware z r =
    let task = r.spawned in
    let r' = ensure_init hardware (record r { spawned = task + 1 }) in
    elim (submit_published task z r') [ none ↦ none | some r'' ↦ some (task, r'') ]

-- `topo_task_spawn` and `topo_task_spawn_ret` leave the task's priority at 2.
unfoldable pub spawn : ℕ → Runtime → Option (ℕ × Runtime)
unfolding spawn_pri
spawn hardware r = spawn_pri hardware (pos 2) r

-- A pool that is published has been started.
unfoldable pub Published : Runtime → Type 0
Published r = elim r.g_pool [ none ↦ Unit | some p ↦ Started p ]

pub worker_count_positive : (hardware : ℕ) (z : ℤ) → 0 < worker_count hardware z
unfolding worker_count
worker_count_positive hardware z = ground arith

pub do_init-Published : (hardware : ℕ) (r : Runtime) → Published (do_init hardware r)
unfolding Published do_init
do_init-Published hardware r =
    start-Started (worker_count hardware r.g_config.num_threads)
      (worker_count_positive hardware r.g_config.num_threads)

submit-Started : (task : ℕ) (z : ℤ) (p : Pool) → Started p → Started (submit task z p)
unfolding submit
submit-Started task z p (hl, hn) = (length-set p.queues _ _ ∙ hl, hn)

-- Every handle of the pool counted, 0 without a pool.
unfoldable pub queued : ℕ → Runtime → ℕ
queued t r = elim r.g_pool [ none ↦ 0 | some p ↦ held t p.queues ]

pub held-start : (t n : ℕ) → held t (start n).queues ≡ 0
unfolding start
held-start t zero = refl
held-start t (suc n) = omega (arith, held-start t n)

pub ensure_init-Published :
    (hardware : ℕ) (r : Runtime)
    → Published r
    → (p : Pool) × ((ensure_init hardware r).g_pool ≡ some p)
      × Started p
      × ((t : ℕ) → held t p.queues ≡ queued t r)
      × ((ensure_init hardware r).spawned ≡ r.spawned)
unfolding ensure_init Published queued do_init
ensure_init-Published hardware r h = elim (Option-cases r.g_pool) [
  | inl e ↦
      let n = worker_count hardware r.g_config.num_threads in
      (
        start n,
        ground arith,
        start-Started n (worker_count_positive hardware r.g_config.num_threads),
        (λ t. rw e (held-start t n)),
        ground arith,
      )
  | inr (p, e) ↦ (
    p,
    ground arith,
    subst (λ o. elim o as (λ x. Type 0) [ none ↦ Unit | some q ↦ Started q ]) e h,
    (λ t. rw e refl),
    ground arith,
  )
]

-- In a runtime whose published pool, if any, was started, a spawn that runs alone gives a fresh handle,
-- puts it into exactly one queue, moves no other handle, and leaves a started pool published.
spawn_pri-submits :
    (hardware : ℕ) (z : ℤ) (r : Runtime)
    → Published r
    → (r' : Runtime) × (spawn_pri hardware z r ≡ some (r.spawned, r'))
      × Published r'
      × ((t : ℕ) → queued t r' ≡ once t r.spawned + queued t r)
      × (r'.spawned ≡ r.spawned + 1)
unfolding spawn_pri submit_published Published queued
spawn_pri-submits hardware z r h =
    let s = record r { spawned = r.spawned + 1 } in
    let (p, e, hp, hq, hs) = ensure_init-Published hardware s h in
    (
      record (ensure_init hardware s) { g_pool = some (submit r.spawned z p) },
      rw (e, spawn_pri) refl,
      submit-Started r.spawned z p hp,
      (λ t. submit-held p r.spawned z t hp ∙ ap (λ k. once t r.spawned + k) (hq t)),
      hs,
    )
