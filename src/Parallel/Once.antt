-- ===== src/Parallel/Once.antt =====
-- A task is run at most once, in every interleaving of the threads' steps.
use mathlib.Core.Option.{some-injective}
use topo_llvm.Prelude.{
  ℕ, zero, suc, ◌+◌, ◌<◌, ◌≤◌, ◌≡◌, Option, none, some, List, [], ◌∷◌, ◌++◌, ltb, if◌then◌else◌,
  get_elem?, set, length, arith, ap, subst,
}
use topo_llvm.Prelude.Int.{ℤ}
use topo_llvm.Parallel.Pool.{Queue, start, queue_at, enqueue}
use topo_llvm.Parallel.Conserve.{
  once, count, held, popped, held-set, count-enqueue, pop_front-count, pop_back-count,
}
use topo_llvm.Parallel.Lifecycle.{worker_count, held-start}
use topo_llvm.Parallel.Threads.{
  Spawn, World, nothing_yet, publish, load_pool, push_task, take_task, Call, published, loaded,
  pushed, took_own, stole, Stop, retired, deleted, Happens, begin, then_call, then_stop,
}

-- How often a handle stands in the queues of a pool, and of all pools that are not deleted.
abbrev pub held_in : ℕ → Option (List Queue) → ℕ
held_in t none = 0
held_in t (some qs) = held t qs

abbrev pub queued : ℕ → List (Option (List Queue)) → ℕ
queued t [] = 0
queued t (o ∷ os) = held_in t o + queued t os

abbrev pub waiting : ℕ → List Spawn → ℕ
waiting t [] = 0
waiting t (s ∷ ss) = once t s.handle + waiting t ss

waiting-append : (t : ℕ) (xs ys : List Spawn) → waiting t (xs ++ ys) ≡ waiting t xs + waiting t ys
waiting-append t [] ys = omega arith
waiting-append t (x ∷ xs) ys = omega (arith, waiting-append t xs ys)

queued-append :
    (t : ℕ) (xs ys : List (Option (List Queue))) → queued t (xs ++ ys) ≡ queued t xs + queued t ys
queued-append t [] ys = omega arith
queued-append t (x ∷ xs) ys = omega (arith, queued-append t xs ys)

queued-set :
    (t : ℕ) (os : List (Option (List Queue))) (i : ℕ) (o o' : Option (List Queue))
    → get_elem? os i ≡ some o
    → queued t (set os i o') + held_in t o ≡ queued t os + held_in t o'
queued-set t [] i o o' e = absurd cc
queued-set t (x ∷ os) zero o o' e =
    let same = ap (held_in t) (some-injective x o e) in omega (arith, same)
queued-set t (x ∷ os) (suc i) o o' e = omega (arith, queued-set t os i o o' e)

queued-delete :
    (t : ℕ) (os : List (Option (List Queue))) (i : ℕ) → queued t (set os i none) ≤ queued t os
queued-delete t [] i = omega arith
queued-delete t (x ∷ os) zero = omega arith
queued-delete t (x ∷ os) (suc i) = omega (arith, queued-delete t os i)

-- A handle was taken to run, or is in a queue, or waits to be put into one: once at most, and only if it
-- was allocated.
unfoldable pub AtMostOnce : World → Type 0
AtMostOnce w =
    (t : ℕ)
    → count t w.ran + waiting t w.pending + queued t w.pools ≤ (if ltb t w.spawned then 1 else 0)

-- What is added to the bound when a fresh handle is allocated.
fresh_bound : (t n : ℕ) → once t n + (if ltb t n then 1 else 0) ≡ (if ltb t (n + 1) then 1 else 0)
fresh_bound t n = ground arith

pub push_task-queued :
    (t : ℕ) (others : List Spawn) (s : Spawn) (qs : List Queue) (v : ℕ) (w : World)
    → get_elem? w.pools s.pool ≡ some (some qs)
    → v < length qs
    → queued t (push_task others s qs v w).pools ≡ once t s.handle + queued t w.pools
unfolding push_task
push_task-queued t others s qs v w e h =
    let q = queue_at qs v in
    let added = count-enqueue t s.handle s.priority q in
    let one = held-set t qs v (enqueue s.handle s.priority q) h in
    let all =
      queued-set t w.pools s.pool (some qs) (some (set qs v (enqueue s.handle s.priority q))) e in
    omega (arith, added, one, all)

take_task-queued :
    (t i : ℕ) (qs : List Queue) (v task : ℕ) (rest : Queue) (w : World)
    → get_elem? w.pools i ≡ some (some qs)
    → v < length qs
    → once t task + count t rest ≡ count t (queue_at qs v)
    → once t task + queued t (take_task i qs v task rest w).pools ≡ queued t w.pools
unfolding take_task
take_task-queued t i qs v task rest w e h same =
    let one = held-set t qs v rest h in
    let all = queued-set t w.pools i (some qs) (some (set qs v rest)) e in
    omega (arith, same, one, all)

take_task-AtMostOnce :
    (i : ℕ) (qs : List Queue) (v task : ℕ) (rest : Queue) (w : World)
    → AtMostOnce w
    → get_elem? w.pools i ≡ some (some qs)
    → v < length qs
    → ((t : ℕ) → once t task + count t rest ≡ count t (queue_at qs v))
    → AtMostOnce (take_task i qs v task rest w)
unfolding AtMostOnce take_task
take_task-AtMostOnce i qs v task rest w h e l same t =
    omega (arith, h t, take_task-queued t i qs v task rest w e l (same t))

push_task-AtMostOnce :
    (before after : List Spawn) (s : Spawn) (qs : List Queue) (v : ℕ) (w : World)
    → AtMostOnce w
    → w.pending ≡ before ++ s ∷ after
    → get_elem? w.pools s.pool ≡ some (some qs)
    → v < length qs
    → AtMostOnce (push_task (before ++ after) s qs v w)
unfolding AtMostOnce push_task
push_task-AtMostOnce before after s qs v w h ep e l t =
    let more = push_task-queued t (before ++ after) s qs v w e l in
    let here = ap (waiting t) ep in
    let split = waiting-append t before (s ∷ after) in
    let rest = waiting-append t before after in omega (arith, h t, more, here, split, rest)

load_pool-AtMostOnce : (i : ℕ) (z : ℤ) (w : World) → AtMostOnce w → AtMostOnce (load_pool i z w)
unfolding AtMostOnce load_pool
load_pool-AtMostOnce i z w h t = omega (arith, h t, fresh_bound t w.spawned)

publish-AtMostOnce :
    (hardware : ℕ) (z : ℤ) (w : World) → AtMostOnce w → AtMostOnce (publish hardware z w)
unfolding AtMostOnce publish
publish-AtMostOnce hardware z w h t =
    let n = worker_count hardware z in
    let all = queued-append t w.pools (some (start n).queues ∷ []) in
    omega (arith, h t, all, held-start t n)

Call-AtMostOnce : (s t : World) → AtMostOnce s → Call s t → AtMostOnce t
Call-AtMostOnce _ _ h (published w hardware z e) = publish-AtMostOnce hardware z w h
Call-AtMostOnce _ _ h (loaded w i z e) = load_pool-AtMostOnce i z w h
Call-AtMostOnce _ _ h (pushed w before after s qs v ep e l) =
    push_task-AtMostOnce before after s qs v w h ep e l
Call-AtMostOnce _ _ h (took_own w i qs v task rest e l p) =
    take_task-AtMostOnce i qs v task rest w h e l
      (λ t. subst (λ o. popped t o ≡ count t (queue_at qs v)) p (pop_front-count t (queue_at qs v)))
Call-AtMostOnce _ _ h (stole w i qs v task rest e l p) =
    take_task-AtMostOnce i qs v task rest w h e l
      (λ t. subst (λ o. popped t o ≡ count t (queue_at qs v)) p (pop_back-count t (queue_at qs v)))

Stop-AtMostOnce : (s t : World) → AtMostOnce s → Stop s t → AtMostOnce t
unfolding AtMostOnce
Stop-AtMostOnce _ _ h (retired w) = h
Stop-AtMostOnce _ _ h (deleted w i) = λ t. omega (arith, h t, queued-delete t w.pools i)

kept-AtMostOnce : (s t : World) → AtMostOnce s → Happens s t → AtMostOnce t
kept-AtMostOnce s _ h (begin _) = h
kept-AtMostOnce s _ h (then_call _ t u r e) = Call-AtMostOnce t u (kept-AtMostOnce s t h r) e
kept-AtMostOnce s _ h (then_stop _ t u r e) = Stop-AtMostOnce t u (kept-AtMostOnce s t h r) e

nothing_yet-AtMostOnce : AtMostOnce nothing_yet
unfolding AtMostOnce
nothing_yet-AtMostOnce t = omega arith

-- In every interleaving of the steps of spawning threads, workers, helpers, and threads that start, shut
-- down and delete pools, a task is taken to run at most once, never while it is in a queue or on its way
-- into one, and only after its handle was allocated.
pub runs_at_most_once :
    (w : World) (t : ℕ)
    → Happens nothing_yet w
    → count t w.ran + waiting t w.pending + queued t w.pools ≤ (if ltb t w.spawned then 1 else 0)
unfolding AtMostOnce
runs_at_most_once w t h = kept-AtMostOnce nothing_yet w nothing_yet-AtMostOnce h t
