-- ===== src/News/Pool/Invariant.antt =====
-- The counters of the pool agree with its workers and its queue, so no assertion fails.
use cs.Base.{
  ◌||◌, ℕ, zero, suc, ◌+◌, ◌≡◌, refl, List, [], ◌∷◌, ◌++◌, Option, none, some, Bool, true, false,
  arith, length, get_elem?, count_by, find_index, count_by-set, set, sym, ap, ◌∙◌, ◌<◌,
  get_elem?-set_self, get_elem?-set_other, get_elem?-within, Option-cases, find_index_sound,
  find_index_found, length-append, replicate, Bool-cases, inl, inr, ◌⊎◌, ◌==◌,
}
use cs.News.Pool.{
  make_available, make_unavailable, hand_over, Task, Worker, Pool, to, waits, is_available, done,
  new_worker, new_pool, schedule, is_chosen, mark_available, mark_unavailable, pop_work,
  dispatch_from, dispatch,
}

-- A worker that has been asked to run something.
abbrev pub has_work : Worker → Bool
has_work w = elim w.work [ none ↦ false | some t ↦ true ]

-- An available worker has nothing to do.
abbrev pub confused : Worker → Bool
confused w = elim w.available [ true ↦ has_work w | false ↦ false ]

-- 1 while a worker has been chosen whose task is still in the queue.
abbrev pub pending : Option ℕ → ℕ
pending none = 0
pending (some i) = 1

pub record IsValid (p : Pool) : Type 0 where
  pub counted : p.num_available_workers ≡ count_by is_available p.workers
  pub signalled : p.available_worker ≡ count_by is_available p.workers
  pub queued : p.available_work + pending p.chosen ≡ length p.work_queue
  pub idle : count_by confused p.workers ≡ 0
  pub accounted : p.finished + count_by has_work p.workers ≡ length p.dispatched
  pub chosen_idle : (i : ℕ) → p.chosen ≡ some i → get_elem? p.workers i ≡ some new_worker

count_by-replicate :
    (q : Worker → Bool) (n : ℕ) → q new_worker ≡ false → count_by q (replicate n new_worker) ≡ 0
count_by-replicate q zero e = refl
count_by-replicate q (suc n) e = rw (e, count_by-replicate q n e)

pub new_pool-IsValid : (n : ℕ) → IsValid (new_pool n)
unfolding new_pool
new_pool-IsValid n = record {
  counted = ground (arith, count_by-replicate is_available n);
  signalled = ground (arith, count_by-replicate is_available n);
  queued = refl;
  idle = count_by-replicate confused n refl;
  accounted = ground (arith, count_by-replicate has_work n);
  chosen_idle = λ i e. cc;
}

pub schedule-IsValid : (t : Task) (p : Pool) → IsValid p → IsValid (schedule t p)
unfolding schedule
schedule-IsValid t p v = record {
  counted = v.counted;
  signalled = v.signalled;
  queued = omega (arith, length-append p.work_queue (t ∷ []), v.queued);
  idle = v.idle;
  accounted = v.accounted;
  chosen_idle = v.chosen_idle;
}

done-has_work : (o : Option Task) → done o ≡ (elim o [ none ↦ 0 | some t ↦ 1 ])
done-has_work none = refl
done-has_work (some t) = refl

make_available-IsValid :
    (i : ℕ) (w : Worker) (p : Pool)
    → IsValid p
    → get_elem? p.workers i ≡ some w
    → w.available ≡ false
    → is_chosen i p.chosen ≡ false
    → IsValid (make_available i w p)
unfolding make_available is_chosen
make_available-IsValid i w p v found busy other = record {
  counted = ground (arith, count_by-set is_available p.workers i ready found, busy, v.counted);
  signalled = ground (arith, count_by-set is_available p.workers i ready found, busy, v.signalled);
  queued = v.queued;
  idle = ground (arith, count_by-set confused p.workers i ready found, v.idle);
  accounted =
      ground
        (arith, count_by-set has_work p.workers i ready found, v.accounted, done-has_work w.work);
  chosen_idle = λ j e.
      let differs : (j == i) ≡ false = sym (ap (is_chosen i) e) ∙ other in
      get_elem?-set_other p.workers i j ready (ground (arith, differs)) ∙ v.chosen_idle j e;
}
  where
    ready : Worker
    ready = record { available = true; work = none }

-- A worker that was not available, and has not been chosen, can be marked as available without a
-- failed assertion, and the pool stays valid.
pub mark_available-IsValid :
    (i : ℕ) (p : Pool) (w : Worker)
    → IsValid p
    → get_elem? p.workers i ≡ some w
    → w.available ≡ false
    → is_chosen i p.chosen ≡ false
    → (q : Pool) × (mark_available i p ≡ to q) × IsValid q
unfolding mark_available
mark_available-IsValid i p w v found busy other = (
  make_available i w p,
  rw (mark_available, found, other, busy),
  make_available-IsValid i w p v found busy other,
)

make_unavailable-IsValid :
    (i : ℕ) (w : Worker) (p : Pool)
    → IsValid p
    → get_elem? p.workers i ≡ some w
    → w.available ≡ true
    → p.chosen ≡ none
    → 0 < p.available_work
    → IsValid (make_unavailable i p)
unfolding make_unavailable
make_unavailable-IsValid i w p v found ready free work = record {
  counted =
      ground (arith, count_by-set is_available p.workers i new_worker found, ready, v.counted);
  signalled =
      ground (arith, count_by-set is_available p.workers i new_worker found, ready, v.signalled);
  queued = omega (arith, v.queued, ap pending free, work);
  idle = ground (arith, count_by-set confused p.workers i new_worker found, v.idle);
  accounted = ground (
    arith,
    count_by-set has_work p.workers i new_worker found,
    count_by-set confused p.workers i new_worker found,
    v.idle,
    ready,
    v.accounted,
  );
  chosen_idle = λ j e.
      let same : i ≡ j = ground (arith, e) in
      ap (get_elem? (set p.workers i new_worker)) (sym same)
      ∙ get_elem?-set_self p.workers i new_worker (get_elem?-within p.workers i found);
}

hand_over-IsValid :
    (i : ℕ) (t : Task) (rest : List Task) (p : Pool)
    → IsValid p
    → p.chosen ≡ some i
    → p.work_queue ≡ t ∷ rest
    → IsValid (hand_over i t rest p)
unfolding hand_over
hand_over-IsValid i t rest p v taken queue =
    let found = v.chosen_idle i taken in
    record {
      counted = ground (arith, count_by-set is_available p.workers i busy found, v.counted);
      signalled = ground (arith, count_by-set is_available p.workers i busy found, v.signalled);
      queued = omega (arith, v.queued, ap pending taken, ap length queue);
      idle = ground (arith, count_by-set confused p.workers i busy found, v.idle);
      accounted = ground (
        arith,
        count_by-set has_work p.workers i busy found,
        length-append p.dispatched (t ∷ []),
        v.accounted,
      );
      chosen_idle = λ j e. cc;
    }
  where
    busy : Worker
    busy = record { available = false; work = some t }

waits_for :
    (queue : List Task) {a b c : ℕ}
    → a ≡ length queue
    → b ≡ c
    → ((a == 0) || (b == 0)) ≡ true
    → (queue ≡ []) ⊎ (c ≡ 0)
waits_for [] e f stop = inl refl
waits_for (t ∷ queue) e f stop = inr (ground arith)

nonempty :
    (queue : List Task) → 0 < length queue → (t : Task) × (rest : List Task) × (queue ≡ t ∷ rest)
nonempty [] h = absurd (omega arith)
nonempty (t ∷ queue) h = (t, queue, refl)

mark_unavailable_found :
    (i : ℕ) (w : Worker) (p : Pool)
    → IsValid p
    → p.chosen ≡ none
    → ((p.available_work == 0) || (p.available_worker == 0)) ≡ false
    → find_index is_available p.workers ≡ some (i, w)
    → dispatch p ≡ to (make_unavailable i p)
unfolding dispatch dispatch_from mark_unavailable
mark_unavailable_found i w p v free go f =
    ap (λ o. dispatch_from o p) free ∙ rw (go, f, positive) refl
  where
    positive : (p.num_available_workers == 0) ≡ false
    positive = ground (arith, go, v.counted, v.signalled)

pop_work_found :
    (i : ℕ) (t : Task) (rest : List Task) (p : Pool)
    → p.chosen ≡ some i
    → p.work_queue ≡ t ∷ rest
    → dispatch p ≡ to (hand_over i t rest p)
unfolding dispatch dispatch_from pop_work
pop_work_found i t rest p taken queue =
    ap (λ o. dispatch_from o p) taken ∙ ap (λ q. pop_work i q p) queue

dispatch_waits :
    (p : Pool)
    → p.chosen ≡ none
    → ((p.available_work == 0) || (p.available_worker == 0)) ≡ true
    → dispatch p ≡ waits
unfolding dispatch dispatch_from
dispatch_waits p free stop = ap (λ o. dispatch_from o p) free ∙ rw stop refl

pub dispatch-IsValid :
    (p : Pool)
    → IsValid p
    → ((p.chosen ≡ none)
        × (dispatch p ≡ waits)
        × ((p.work_queue ≡ []) ⊎ (count_by is_available p.workers ≡ 0)))
      ⊎ (((i : ℕ) × (w : Worker) × (q : Pool) × (p.chosen ≡ none)
            × (dispatch p ≡ to q)
            × IsValid q
            × (get_elem? p.workers i ≡ some w)
            × (w.available ≡ true)
            × (q.chosen ≡ some i)
            × (get_elem? q.workers i ≡ some new_worker)
            × (q.work_queue ≡ p.work_queue)
            × (q.dispatched ≡ p.dispatched))
          ⊎ ((i : ℕ) × (t : Task) × (q : Pool) × (p.chosen ≡ some i)
              × (dispatch p ≡ to q)
              × IsValid q
              × (q.chosen ≡ none)
              × (get_elem? q.workers i ≡ some (record { available = false; work = some t }))
              × (p.work_queue ≡ t ∷ q.work_queue)
              × (q.dispatched ≡ p.dispatched ++ (t ∷ []))))
unfolding make_unavailable hand_over
dispatch-IsValid p v = elim (Option-cases p.chosen) [
  | inl free ↦ elim (Bool-cases ((p.available_work == 0) || (p.available_worker == 0))) [
    | inl stop ↦ inl (
      free,
      dispatch_waits p free stop,
      waits_for p.work_queue (omega (arith, v.queued, ap pending free)) v.signalled stop,
    )
    | inr go ↦
        let (i, w, f) = find_index_found is_available p.workers (ground (arith, go, v.signalled)) in
        let (found, ready) = find_index_sound is_available p.workers i w f in
        inr (
          inl (
            i,
            w,
            make_unavailable i p,
            free,
            mark_unavailable_found i w p v free go f,
            make_unavailable-IsValid i w p v found ready free (ground (arith, go)),
            found,
            ready,
            refl,
            get_elem?-set_self p.workers i new_worker (get_elem?-within p.workers i found),
            refl,
            refl,
          ))
  ]
  | inr (i, taken) ↦
      let (t, rest, queue) = nonempty p.work_queue (omega (arith, v.queued, ap pending taken)) in
      inr (
        inr (
          i,
          t,
          hand_over i t rest p,
          taken,
          pop_work_found i t rest p taken queue,
          hand_over-IsValid i t rest p v taken queue,
          refl,
          get_elem?-set_self p.workers i (record { available = false; work = some t })
              (get_elem?-within p.workers i (v.chosen_idle i taken)),
          queue,
          refl,
        ))
]
