-- ===== src/News/Pool/Runs.antt =====
-- Runs of the pool as sequences of steps in any order: the threads that schedule, the workers as
-- they start or end a task, and the dispatcher.
use mathlib.Core.List.{append-nil}
use mathlib.Core.Path.{subst}
use cs.Base.{
  ◌∙◌, ℕ, ◌≡◌, inl, inr, refl, sym, ap, List, [], ◌∷◌, ◌++◌, some, false, arith, get_elem?,
  Bool-cases, Option-cases, append_assoc,
}
use cs.News.Pool.{
  Task, Worker, Pool, to, new_pool, schedule, mark_available, make_available, dispatch, is_chosen,
}
use cs.News.Pool.Invariant.{
  IsValid, new_pool-IsValid, schedule-IsValid, mark_available-IsValid, dispatch-IsValid,
}

-- A step, with the tasks that it schedules.
pub data Step (p : Pool) : List Task → Pool → Type 0 where
  scheduled : (t : Task) → Step p (t ∷ []) (schedule t p)
  marked : (i : ℕ) {q : Pool} → mark_available i p ≡ to q → Step p [] q
  handed : {q : Pool} → dispatch p ≡ to q → Step p [] q

-- The states that a pool of n workers comes to, with the tasks scheduled on the way, in order.
pub data Reach (n : ℕ) : List Task → Pool → Type 0 where
  start : Reach n [] (new_pool n)
  next : {ts l : List Task} {p q : Pool} → Reach n ts p → Step p l q → Reach n (ts ++ l) q

-- A worker that can be marked was not available.
pub marked-busy :
    (i : ℕ) (p : Pool) {q : Pool}
    → mark_available i p ≡ to q
    → (w : Worker) × (get_elem? p.workers i ≡ some w)
      × (w.available ≡ false)
      × (is_chosen i p.chosen ≡ false)
      × (q ≡ make_available i w p)
unfolding mark_available
marked-busy i p {q} e = elim (Option-cases (get_elem? p.workers i)) [
  | inl missing ↦ absurd (ground (arith, missing, e))
  | inr (w, found) ↦ elim (Bool-cases (is_chosen i p.chosen)) [
    | inl waiting ↦ absurd (ground (arith, found, waiting, e))
    | inr other ↦ elim (Bool-cases w.available) [
      | inl ready ↦ absurd (ground (arith, found, other, ready, e))
      | inr busy ↦ (w, found, busy, other, ground (arith, found, other, busy, e))
    ]
  ]
]

to_injective : {p q : Pool} → to p ≡ to q → p ≡ q
to_injective e = cc

-- What a step does to a valid pool: it stays valid, and what it has handed out and what still waits
-- are, in order, what they were and the tasks of the step.
Step-IsValid :
    {p q : Pool} {l : List Task}
    → Step p l q
    → IsValid p
    → IsValid q × (q.dispatched ++ q.work_queue ≡ (p.dispatched ++ p.work_queue) ++ l)
unfolding schedule make_available
Step-IsValid {p} (scheduled t) v =
    (schedule-IsValid t p v, sym (append_assoc p.dispatched p.work_queue (t ∷ [])))
Step-IsValid {p} {q} (marked i e) v =
    let (w, found, busy, other, same) = marked-busy i p e in
    let (r, f, valid) = mark_available-IsValid i p w v found busy other in
    (subst IsValid (to_injective (sym f ∙ e)) valid, rw (same, append-nil) refl)
Step-IsValid {p} {q} (handed e) v = elim (dispatch-IsValid p v) [
  | inl (free, stays, why) ↦ absurd (ground (arith, stays, e))
  | inr (inl (i, w, r, free, f, valid, found, ready, taken, now_idle, queue, out)) ↦
      let same = to_injective (sym f ∙ e) in
      (
        subst IsValid same valid,
        rw append-nil (ap (λ x. x.dispatched ++ x.work_queue) (sym same) ∙ rw (queue, out) refl),
      )
  | inr (inr (i, t, r, taken, f, valid, free, busy, queue, out)) ↦
      let same = to_injective (sym f ∙ e) in
      (
        subst IsValid same valid,
        rw append-nil (
            ap (λ x. x.dispatched ++ x.work_queue) (sym same)
            ∙ ap (λ x. x ++ r.work_queue) out
            ∙ append_assoc p.dispatched (t ∷ []) r.work_queue
            ∙ ap (λ x. p.dispatched ++ x) (sym queue)),
      )
]

-- Whatever the order of the steps: the pool is valid, and the tasks handed out followed by those
-- that wait are the tasks scheduled, each once and in the order in which they were scheduled.
pub Reach-ordered :
    {n : ℕ} {ts : List Task} {p : Pool}
    → Reach n ts p
    → IsValid p × (p.dispatched ++ p.work_queue ≡ ts)
unfolding new_pool
Reach-ordered {n} start = (new_pool-IsValid n, refl)
Reach-ordered (next {ts} {l} r s) =
    let (v, e) = Reach-ordered r in let (v', e') = Step-IsValid s v in (v', e' ∙ ap (λ x. x ++ l) e)
