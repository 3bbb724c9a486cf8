-- ===== src/Parallel/Scan.antt =====
-- The stealing loops miss no task: they come back with nothing only if nothing is queued.
use native.Mathlib.Nat.{mod-lt, mod-eq_of_lt}
use native.Mathlib.Decide.{ℕ_discrete, dec_le}
use topo_llvm.Prelude.{
  ℕ, zero, suc, ◌+◌, ◌-◌, ◌%◌, ◌^◌, ◌≤◌, ◌<◌, ◌≡◌, refl, Bool, false, Option, none, some, List, [],
  ◌∷◌, ◌==◌, arith, sym, subst,
}
use topo_llvm.Parallel.Pool.{
  Queue, Pool, queue_at, pop_back, pop_front, steal_loop, with_queues, try_steal_any, worker_take,
}

pop_back-none : (q : Queue) → pop_back q ≡ none → q ≡ []
unfolding pop_back
pop_back-none [] h = refl
pop_back-none (x ∷ xs) h = absurd (ground arith)

-- The first round of a loop that finds nothing, and the rounds after it.
first_victim :
    (skip : ℕ → Bool) (n from left i j : ℕ) (qs : List Queue)
    → steal_loop skip n from (suc left) i qs ≡ none
    → i ≡ j
    → skip ((from + j) % n) ≡ false
    → pop_back (queue_at qs ((from + j) % n)) ≡ none
unfolding steal_loop
first_victim skip n from left i j qs h e open_ = ground arith

later_rounds :
    (skip : ℕ → Bool) (n from left i : ℕ) (qs : List Queue)
    → steal_loop skip n from (suc left) i qs ≡ none
    → steal_loop skip n from left (i + 1) qs ≡ none
unfolding steal_loop
later_rounds skip n from left i qs h = ground arith

-- A loop that finds nothing has seen every victim empty that it did not skip.
steal_loop-none :
    (skip : ℕ → Bool) (n from left i : ℕ) (qs : List Queue)
    → steal_loop skip n from left i qs ≡ none
    → (j : ℕ) → i ≤ j
    → j < i + left
    → skip ((from + j) % n) ≡ false
    → queue_at qs ((from + j) % n) ≡ []
steal_loop-none skip n from zero i qs h j lo hi open_ = absurd (omega arith)
steal_loop-none skip n from (suc left) i qs h j lo hi open_ = elim (ℕ_discrete i j) [
  | yes now ↦
      pop_back-none (queue_at qs ((from + j) % n))
        (first_victim skip n from left i j qs h now open_)
  | no later ↦
      steal_loop-none skip n from left (i + 1) qs (later_rounds skip n from left i qs h) j
        (omega arith) (omega arith) open_
]

-- Every queue is a victim of some round.
victim_round : (n from v : ℕ) → from < n → v < n → (j : ℕ) × (j < n) × ((from + j) % n ≡ v)
victim_round n from v hf hv = elim (dec_le from v) [
  | yes le ↦ (
    v - from,
    omega arith,
    (let e : from + (v - from) ≡ v = omega arith in rw e (mod-eq_of_lt hv)),
  )
  | no gt ↦ (
    v + n - from,
    omega arith,
    (let e : from + (v + n - from) ≡ v + n = omega arith in rw e (grind arith)),
  )
]

-- A full round that finds nothing: every queue that is not skipped is empty.
pub full_round_none :
    (skip : ℕ → Bool) (n from : ℕ) (qs : List Queue)
    → from < n
    → steal_loop skip n from n 0 qs ≡ none
    → (v : ℕ) → v < n
    → skip v ≡ false
    → queue_at qs v ≡ []
full_round_none skip n from qs hf h v hv open_ =
    let (j, hj, e) = victim_round n from v hf hv in
    subst (λ k. queue_at qs k ≡ []) e
      (steal_loop-none skip n from n 0 qs h j (omega arith) (omega arith) (rw e open_))

pub with_queues-none :
    (p : Pool) (r : Option (ℕ × List Queue)) → (with_queues p r).0 ≡ none → r ≡ none
unfolding with_queues
with_queues-none p none h = refl
with_queues-none p (some (t, qs)) h = absurd (ground arith)

abbrev AllEmpty : Pool → Type 0
AllEmpty p = (v : ℕ) → v < p.num_workers → queue_at p.queues v ≡ []

-- Work-helping gives up only if every queue of the pool is empty.
try_steal_any-none : (p : Pool) → (try_steal_any p).0 ≡ none → AllEmpty p
unfolding try_steal_any
try_steal_any-none p h v hv =
    full_round_none (λ v. false) p.num_workers (p.submit_counter % p.num_workers) p.queues
      (mod-lt _ (omega arith))
      (with_queues-none (record p { submit_counter = (p.submit_counter + 1) % 2 ^ 64 }) _
        (ground arith))
      v hv refl

pop_front-none : (q : Queue) → pop_front q ≡ none → q ≡ []
unfolding pop_front
pop_front-none [] h = refl
pop_front-none (x ∷ xs) h = absurd (ground arith)

own_empty : (id draw : ℕ) (p : Pool) → (worker_take id draw p).0 ≡ none → queue_at p.queues id ≡ []
unfolding worker_take
own_empty id draw p h = pop_front-none (queue_at p.queues id) (ground arith)

others_empty :
    (id draw : ℕ) (p : Pool)
    → queue_at p.queues id ≡ []
    → 1 < p.num_workers
    → (worker_take id draw p).0 ≡ none
    → (with_queues p
        (steal_loop (λ v. v == id) p.num_workers (draw % p.num_workers) p.num_workers 0 p.queues)).0
      ≡ none
unfolding worker_take pop_front
others_empty id draw p own many h = ground arith

-- A worker goes to sleep only if every queue of the pool is empty, its own included.
worker_take-none :
    (id draw : ℕ) (p : Pool) → id < p.num_workers → (worker_take id draw p).0 ≡ none → AllEmpty p
unfolding worker_take
worker_take-none id draw p hid h v hv =
    let own = own_empty id draw p h in
    elim (dec_le p.num_workers 1) [
      | yes one ↦ subst (λ k. queue_at p.queues k ≡ []) (let e : id ≡ v = omega arith in e) own
      | no many ↦ elim (ℕ_discrete v id) [
        | yes e ↦ subst (λ k. queue_at p.queues k ≡ []) (sym e) own
        | no ne ↦
            full_round_none (λ v. v == id) p.num_workers (draw % p.num_workers) p.queues
              (mod-lt _ (omega arith))
              (with_queues-none p _ (others_empty id draw p own (omega arith) h)) v hv
              (ground arith)
      ]
    ]
