-- ===== src/Parallel/Conserve.antt =====
-- No task is lost or doubled by the queues: each handle is counted over all of them.
use native.Mathlib.Nat.{mod-lt}
use topo_llvm.Prelude.{
  ℕ, zero, suc, ◌+◌, ◌%◌, ◌^◌, ◌<◌, ◌≡◌, refl, inl, inr, Bool, false, Bool-cases, Option-cases,
  Option, none, some, List, [], ◌∷◌, ◌++◌, ◌==◌, if◌then◌else◌, set, length, length-set,
  length-replicate, arith, ◌∙◌, subst,
}
use topo_llvm.Prelude.Int.{ℤ, below}
use topo_llvm.Parallel.Pool.{
  Queue, Pool, start, queue_at, enqueue, submit, pop_back, pop_front, steal_loop, with_queues,
  try_steal_any, worker_take,
}

-- 1 where the two handles are the same.
abbrev pub once : ℕ → ℕ → ℕ
once t x = if t == x then 1 else 0

abbrev pub count : ℕ → Queue → ℕ
count t [] = 0
count t (x ∷ q) = once t x + count t q

abbrev pub held : ℕ → List Queue → ℕ
held t [] = 0
held t (q ∷ qs) = count t q + held t qs

count-append : (t : ℕ) (q r : Queue) → count t (q ++ r) ≡ count t q + count t r
count-append t [] r = omega arith
count-append t (x ∷ q) r = omega (arith, count-append t q r)

pub count-enqueue :
    (t task : ℕ) (z : ℤ) (q : Queue) → count t (enqueue task z q) ≡ once t task + count t q
unfolding enqueue
count-enqueue t task z q = elim (Bool-cases (below z 2)) [
  | inl h ↦ rw h refl
  | inr h ↦ rw h (omega (arith, count-append t q (task ∷ [])))
]

-- Writing one queue changes the total by the difference.
pub held-set :
    (t : ℕ) (qs : List Queue) (i : ℕ) (r : Queue)
    → i < length qs
    → held t (set qs i r) + count t (queue_at qs i) ≡ held t qs + count t r
unfolding queue_at
held-set t [] i r h = absurd (omega arith)
held-set t (q ∷ qs) zero r h = omega arith
held-set t (q ∷ qs) (suc i) r h = omega (arith, held-set t qs i r (omega arith))

-- A pop's result holds the handles that the queue held.
abbrev pub popped : ℕ → Option (ℕ × Queue) → ℕ
popped t none = 0
popped t (some (x, r)) = once t x + count t r

pub pop_back-count : (t : ℕ) (q : Queue) → popped t (pop_back q) ≡ count t q
unfolding pop_back
pop_back-count t [] = refl
pop_back-count t (y ∷ q) = elim (Option-cases (pop_back q)) [
  | inl e ↦
      let ih : popped t none ≡ count t q =
        subst (λ o. popped t o ≡ count t q) e (pop_back-count t q) in
      rw e (omega arith)
  | inr ((z, s), e) ↦
      let ih : popped t (some (z, s)) ≡ count t q =
        subst (λ o. popped t o ≡ count t q) e (pop_back-count t q) in
      rw e (omega arith)
]

pub pop_front-count : (t : ℕ) (q : Queue) → popped t (pop_front q) ≡ count t q
unfolding pop_front
pop_front-count t [] = refl
pop_front-count t (y ∷ q) = refl

-- The handle that an operation returned, counted.
abbrev pub taken : ℕ → Option ℕ → ℕ
taken t none = 0
taken t (some x) = once t x

abbrev stolen : ℕ → List Queue → Option (ℕ × List Queue) → ℕ
stolen t qs none = held t qs
stolen t qs (some (x, rs)) = once t x + held t rs

steal_loop-held :
    (t : ℕ) (skip : ℕ → Bool) (n from left i : ℕ) (qs : List Queue)
    → length qs ≡ n
    → 0 < n
    → stolen t qs (steal_loop skip n from left i qs) ≡ held t qs
unfolding steal_loop
steal_loop-held t skip n from zero i qs hl hn = refl
steal_loop-held t skip n from (suc left) i qs hl hn =
    let ih = steal_loop-held t skip n from left (i + 1) qs hl hn in
    let v = (from + i) % n in
    elim (Bool-cases (skip v)) [
      | inl e ↦ rw e ih
      | inr e ↦ elim (Option-cases (pop_back (queue_at qs v))) [
        | inl g ↦ rw (e, g) ih
        | inr ((x, r), g) ↦
            let c : once t x + count t r ≡ count t (queue_at qs v) =
              subst (λ o. popped t o ≡ count t (queue_at qs v)) g
                (pop_back-count t (queue_at qs v)) in
            let w = held-set t qs v r (rw hl (mod-lt _ hn)) in rw (e, g) (omega (arith, c, w))
      ]
    ]

with_queues-held :
    (t : ℕ) (p : Pool) (o : Option (ℕ × List Queue))
    → taken t (with_queues p o).0 + held t (with_queues p o).1.queues ≡ stolen t p.queues o
unfolding with_queues
with_queues-held t p none = omega arith
with_queues-held t p (some (x, rs)) = refl

-- The pool has as many queues as workers.
abbrev pub Started : Pool → Type 0
Started p = (length p.queues ≡ p.num_workers) × (0 < p.num_workers)

pub start-Started : (n : ℕ) → 0 < n → Started (start n)
unfolding start
start-Started n h = (length-replicate n [], h)

-- A submission to a started pool adds the task to exactly one queue and nothing else.
pub submit-held :
    (p : Pool) (task : ℕ) (priority : ℤ) (t : ℕ)
    → Started p
    → held t (submit task priority p).queues ≡ once t task + held t p.queues
unfolding submit
submit-held p task priority t (hl, hn) =
    let target = p.submit_counter % p.num_workers in
    let q = queue_at p.queues target in
    let w = held-set t p.queues target (enqueue task priority q) (rw hl (mod-lt _ hn)) in
    omega (arith, w, count-enqueue t task priority q)

-- Work-helping takes from the queues exactly the task that it returns, if any.
pub try_steal_any-held :
    (p : Pool) (t : ℕ)
    → Started p
    → taken t (try_steal_any p).0 + held t (try_steal_any p).1.queues ≡ held t p.queues
unfolding try_steal_any
try_steal_any-held p t (hl, hn) =
    let p' = record p { submit_counter = (p.submit_counter + 1) % 2 ^ 64 } in
    let n = p.num_workers in
    let found = steal_loop (λ v. false) n (p.submit_counter % n) n 0 p.queues in
    elim (Bool-cases (n == 0)) [
      | inl e ↦ absurd (ground arith)
      | inr e ↦ rw e (
          with_queues-held t p' found
          ∙ steal_loop-held t (λ v. false) n (p.submit_counter % n) n 0 p.queues hl hn)
    ]

-- A round of a worker takes from the queues exactly the task that it returns, if any.
pub worker_take-held :
    (id draw : ℕ) (p : Pool) (t : ℕ)
    → Started p
    → id < p.num_workers
    → taken t (worker_take id draw p).0 + held t (worker_take id draw p).1.queues ≡ held t p.queues
unfolding worker_take
worker_take-held id draw p t (hl, hn) hid =
    let n = p.num_workers in
    let found = steal_loop (λ v. v == id) n (draw % n) n 0 p.queues in
    elim (Option-cases (pop_front (queue_at p.queues id))) [
      | inl e ↦
          let others =
            with_queues-held t p found
            ∙ steal_loop-held t (λ v. v == id) n (draw % n) n 0 p.queues hl hn in
          ground (arith, others)
      | inr ((x, r), e) ↦
          let c : once t x + count t r ≡ count t (queue_at p.queues id) =
            subst (λ o. popped t o ≡ count t (queue_at p.queues id)) e
              (pop_front-count t (queue_at p.queues id)) in
          let w = held-set t p.queues id r (rw hl hid) in ground (arith, c, w)
    ]

-- The number of queues stays.
abbrev left_length : List Queue → Option (ℕ × List Queue) → ℕ
left_length qs none = length qs
left_length qs (some (x, rs)) = length rs

steal_loop-length :
    (skip : ℕ → Bool) (n from left i : ℕ) (qs : List Queue)
    → left_length qs (steal_loop skip n from left i qs) ≡ length qs
unfolding steal_loop
steal_loop-length skip n from zero i qs = refl
steal_loop-length skip n from (suc left) i qs =
    let ih = steal_loop-length skip n from left (i + 1) qs in
    let v = (from + i) % n in
    elim (Bool-cases (skip v)) [
      | inl e ↦ rw e ih
      | inr e ↦ elim (Option-cases (pop_back (queue_at qs v))) [
        | inl g ↦ rw (e, g) ih
        | inr ((x, r), g) ↦ rw (e, g) (length-set qs v r)
      ]
    ]

with_queues-Started :
    (p : Pool) (o : Option (ℕ × List Queue))
    → Started p
    → left_length p.queues o ≡ length p.queues
    → Started (with_queues p o).1
unfolding with_queues
with_queues-Started p none h e = h
with_queues-Started p (some (x, rs)) (hl, hn) e = (e ∙ hl, hn)

pub try_steal_any-Started : (p : Pool) → Started p → Started (try_steal_any p).1
unfolding try_steal_any
try_steal_any-Started p (hl, hn) =
    let p' = record p { submit_counter = (p.submit_counter + 1) % 2 ^ 64 } in
    let n = p.num_workers in
    elim (Bool-cases (n == 0)) [
      | inl e ↦ absurd (ground arith)
      | inr e ↦ rw e (
          with_queues-Started p' _ (hl, hn)
            (steal_loop-length (λ v. false) n (p.submit_counter % n) n 0 p.queues))
    ]

pub worker_take-Started : (id draw : ℕ) (p : Pool) → Started p → Started (worker_take id draw p).1
unfolding worker_take
worker_take-Started id draw p (hl, hn) =
    let n = p.num_workers in
    let others =
      with_queues-Started p _ (hl, hn)
        (steal_loop-length (λ v. v == id) n (draw % n) n 0 p.queues) in
    elim (Option-cases (pop_front (queue_at p.queues id))) [
      | inl e ↦ (ground (arith, others), ground (arith, others))
      | inr ((x, r), e) ↦ let own = length-set p.queues id r in (ground (arith, own), ground arith)
    ]
