-- ===== src/Parallel/Ownership.antt =====
-- Who frees a task: the interleavings of the worker that runs the body with the caller that
-- holds the handle.
use topo_llvm.Prelude.{
  ℕ, Bool, true, false, ◌≡◌, ◌≢◌, ◌↔◌, ◌⊎◌, ap, subst, All, refl, inl, Option, none, some, List, [],
  ◌∷◌, if◌then◌else◌, arith, map,
}
use topo_llvm.Prelude.Int.{ℤ}
use topo_llvm.Parallel.Task.{
  TopoTask, Memory, live, freed, corrupt, new_task, complete, run_task_safely, detach, await_turn,
  await, keep_first, await_all,
}

-- The task's memory, whether the pool still has the task to run, whether the caller still holds
-- the handle, and what an await has returned.
pub record Life : Type 0 where
  pub memory : Memory
  pub queued : Bool
  pub held : Bool
  pub answer : Option (Option ℕ)

abbrev pub spawned : Option ℕ → ℤ → Life
spawned w priority = record {
  memory = live (new_task w priority);
  queued = true;
  held = true;
  answer = none;
}

-- The caller has its handle until an await has returned.
unfoldable pub awaited : Life → Life
unfolding await_turn
awaited s = elim (await_turn s.memory).1 [
  | none ↦ record s { memory = (await_turn s.memory).0 }
  | some e ↦ record s { memory = (await_turn s.memory).0; held = false; answer = some e }
]

-- The pool runs a task that it has, once. The caller uses a handle that it holds.
pub data Step : Life → Life → Type 0 where
  run :
      (s : Life)
      → s.queued ≡ true
      → Step s (record s { memory = run_task_safely s.memory; queued = false })
  await_once : (s : Life) → s.held ≡ true → Step s (awaited s)
  release :
      (s : Life) → s.held ≡ true → Step s (record s { memory = detach s.memory; held = false })

pub data Reach : Life → Life → Type 0 where
  start : (s : Life) → Reach s s
  next : (s t u : Life) → Reach s t → Step t u → Reach s u

-- What is true of a task whose body does `w`.
unfoldable pub SharedMemory : Option ℕ → Memory → Bool → Bool → Type 0
SharedMemory w (live t) queued held =
    (t.work ≡ w)
    × (t.done ≡ (if queued then false else true))
    × (t.detached ≡ (if held then false else true))
    × ((queued ≡ true) ⊎ (held ≡ true))
    × (t.exception ≡ (if queued then none else w))
SharedMemory w freed queued held = (queued ≡ false) × (held ≡ false)
SharedMemory w corrupt queued held = ⊥

unfoldable pub Owned : Option ℕ → Life → Type 0
unfolding SharedMemory
Owned w s =
    SharedMemory w s.memory s.queued s.held
    × ((s.answer ≡ none) ⊎ ((s.answer ≡ some w) × (s.queued ≡ false)))

run-SharedMemory :
    (w : Option ℕ) (m : Memory) (held : Bool)
    → SharedMemory w m true held
    → SharedMemory w (run_task_safely m) false held
unfolding SharedMemory run_task_safely complete
run-SharedMemory w (live t) held (hw, hd, ht, hq, he) = ground arith
run-SharedMemory w freed held h = absurd (ground arith)
run-SharedMemory w corrupt held h = h

detach-SharedMemory :
    (w : Option ℕ) (m : Memory) (queued : Bool)
    → SharedMemory w m queued true
    → SharedMemory w (detach m) queued false
unfolding SharedMemory detach
detach-SharedMemory w (live t) queued (hw, hd, ht, hq, he) = ground arith
detach-SharedMemory w freed queued h = absurd (ground arith)
detach-SharedMemory w corrupt queued h = h

awaited-Owned : (w : Option ℕ) (s : Life) → Owned w s → s.held ≡ true → Owned w (awaited s)
unfolding Owned SharedMemory await_turn awaited
awaited-Owned w s h hh = ground arith

step-Owned : (w : Option ℕ) (s t : Life) → Owned w s → Step s t → Owned w t
unfolding Owned SharedMemory
step-Owned w _ _ h (run s e) =
    let m =
      run-SharedMemory w s.memory s.held (subst (λ q. SharedMemory w s.memory q s.held) e h.0) in
    (m, ground arith)
step-Owned w _ _ h (await_once s e) = awaited-Owned w s h e
step-Owned w _ _ h (release s e) =
    let m =
      detach-SharedMemory w s.memory s.queued
        (subst (λ b. SharedMemory w s.memory s.queued b) e h.0) in
    (m, h.1)

spawned-Owned : (w : Option ℕ) (z : ℤ) → Owned w (spawned w z)
unfolding Owned SharedMemory new_task
spawned-Owned w z = ((refl, refl, refl, inl refl, refl), inl refl)

reached-Owned : (w : Option ℕ) (s t : Life) → Owned w s → Reach s t → Owned w t
reached-Owned w s _ h (start _) = h
reached-Owned w s _ h (next _ t u r st) = step-Owned w t u (reached-Owned w s t h r) st

-- However the pool and the holder of the handle interleave, awaiting as often as they like or
-- detaching, the task's memory is never used after its deletion, and it is deleted exactly when
-- the body has run and the handle is given up.
pub deleted_once :
    (w : Option ℕ) (z : ℤ) (s : Life)
    → Reach (spawned w z) s
    → (s.memory ≢ corrupt) × ((s.memory ≡ freed) ↔ ((s.queued ≡ false) × (s.held ≡ false)))
unfolding Owned SharedMemory
deleted_once w z s r = let h = reached-Owned w _ s (spawned-Owned w z) r in ground arith

-- An await that has returned did so after the body ran, and it threw exactly what the body threw,
-- or nothing where the body returned.
await_answers :
    (w : Option ℕ) (z : ℤ) (s : Life) (e : Option ℕ)
    → Reach (spawned w z) s
    → s.answer ≡ some e
    → (e ≡ w) × (s.queued ≡ false)
unfolding Owned
await_answers w z s e r a = let h = reached-Owned w _ s (spawned-Owned w z) r in ground arith

-- Once the body has run, a turn of an await by the holder of the handle returns.
pub await_returns :
    (w : Option ℕ) (z : ℤ) (s : Life)
    → Reach (spawned w z) s
    → s.queued ≡ false
    → s.held ≡ true
    → ((awaited s).answer ≡ some w) × ((awaited s).memory ≡ freed)
unfolding Owned SharedMemory awaited await_turn
await_returns w z s r q hh = let h = reached-Owned w _ s (spawned-Owned w z) r in ground arith

-- A finished task behind a handle that may be null.
abbrev pub finished : Option TopoTask → Option Memory
finished none = none
finished (some t) = some (live t)

abbrev pub exception_of : Option TopoTask → Option ℕ
exception_of none = none
exception_of (some t) = t.exception

abbrev pub first_exception : List (Option TopoTask) → Option ℕ
first_exception [] = none
first_exception (t ∷ ts) = elim (exception_of t) [ none ↦ first_exception ts | some e ↦ some e ]

unfoldable pub IsDone : Option TopoTask → Type 0
IsDone none = Unit
IsDone (some t) = t.done ≡ true

abbrev pub deleted : Option TopoTask → Option Memory
deleted none = none
deleted (some t) = some freed

await-finished : (t : Option TopoTask) → IsDone t → await (finished t) ≡ (deleted t, exception_of t)
unfolding IsDone await await_turn
await-finished none h = refl
await-finished (some t) h = rw h refl

keep_first_twice :
    (f : Option ℕ) (t : Option TopoTask) (ts : List (Option TopoTask))
    → keep_first (keep_first f (exception_of t)) (first_exception ts)
      ≡ keep_first f (first_exception (t ∷ ts))
unfolding keep_first
keep_first_twice none t ts = ground arith
keep_first_twice (some f) t ts = refl

await_all_keeping :
    (f : Option ℕ) (ts : List (Option TopoTask))
    → All IsDone ts
    → await_all f (map finished ts) ≡ (map deleted ts, keep_first f (first_exception ts))
unfolding await_all
await_all_keeping none [] h = refl
await_all_keeping (some f) [] h = refl
await_all_keeping f (t ∷ ts) (ht, h) = rw (await-finished t ht) (
    rw (await_all_keeping (keep_first f (exception_of t)) ts h)
      (ap (λ e. (deleted t ∷ map deleted ts, e)) (keep_first_twice f t ts)))

-- Awaiting an array of finished tasks deletes every one and throws the first of their
-- exceptions, in the array's order, if there is any.
pub await_all_drains :
    (ts : List (Option TopoTask))
    → All IsDone ts
    → await_all none (map finished ts) ≡ (map deleted ts, first_exception ts)
unfolding keep_first
await_all_drains ts h = await_all_keeping none ts h
