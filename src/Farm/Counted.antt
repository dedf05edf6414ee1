-- ===== src/Farm/Counted.antt =====
-- The count of available workers agrees with their flags.
use cs.Base.{
  ℕ, suc, zero, ◌+◌, ◌-◌, ◌≤◌, ◌<◌, ◌≡◌, refl, List, [], ◌∷◌, some, true, false, ◌==◌, ltb, arith,
  length, get_elem?, set, count_by, count_by-set, count_by-le-length, find_index_sound,
  find_index_found, Bool-cases, inl, inr, ◌⊎◌,
}
use cs.Farm.{
  Worker, Farm, is_available, mark_stopped, sleeps, worker, chosen, get_available_worker,
  assign_found, assign_worker_to_task, write_loop,
}

abbrev pub IsCounted : Farm → Type 0
IsCounted f = f.num_workers_available ≡ count_by is_available f.workers

-- The count bounds what is left: a busy worker means that not all are available.
busy-count :
    (ws : List Worker) (i : ℕ) {w : Worker}
    → get_elem? ws i ≡ some w
    → w.available ≡ false
    → count_by is_available ws < length ws
busy-count [] i e b = cc
busy-count (x ∷ ws) zero e b = ground (arith, count_by-le-length is_available ws)
busy-count (x ∷ ws) (suc i) e b = ground (arith, busy-count ws i e b)

-- When a worker that was busy halts itself, no assertion of the handler fails, one more worker is
-- counted as available, and the count still agrees with the flags.
pub mark_stopped-IsCounted :
    (i : ℕ) (w : Worker) (f : Farm)
    → IsCounted f
    → get_elem? f.workers i ≡ some w
    → w.available ≡ false
    → (f' : Farm) × (mark_stopped i w f ≡ some f')
      × IsCounted f'
      × (f'.num_workers_available ≡ suc f.num_workers_available)
unfolding mark_stopped
mark_stopped-IsCounted i w f v e b = (
  record f {
    workers = set f.workers i (record w { available = true });
    num_workers_available = suc f.num_workers_available;
  },
  rw (b, room) refl,
  ground (arith, count_by-set is_available f.workers i (record w { available = true }) e, b),
  refl,
)
  where
    room : ltb f.num_workers_available (length f.workers) ≡ true
    room = ground (arith, busy-count f.workers i e b)

-- The main program sleeps exactly while no worker is available; otherwise it finds a worker whose
-- flag is set, the assignment passes both assertions, and the count still agrees with the flags.
pub get_available_worker-IsCounted :
    (f : Farm)
    → IsCounted f
    → ((get_available_worker f ≡ sleeps) × (count_by is_available f.workers ≡ 0))
      ⊎ ((i : ℕ) × (w : Worker) × (f' : Farm) × (get_available_worker f ≡ worker i w)
          × (assign_worker_to_task i f ≡ some f')
          × IsCounted f'
          × (suc f'.num_workers_available ≡ f.num_workers_available))
unfolding get_available_worker chosen assign_worker_to_task assign_found
get_available_worker-IsCounted f v = elim (Bool-cases (f.num_workers_available == 0)) [
  | inl none_left ↦ inl (rw none_left refl, ground (arith, none_left))
  | inr some_left ↦
      let (i, w, e) = find_index_found is_available f.workers (ground (arith, some_left)) in
      let (found, ready) = find_index_sound is_available f.workers i w e in
      let f' = record f {
        workers = set f.workers i (record w { available = false });
        num_workers_available = f.num_workers_available - 1;
      } in
      inr (
        i,
        w,
        f',
        rw (some_left, e) refl,
        rw (assign_worker_to_task, found, ready, some_left),
        ground (
          arith,
          count_by-set is_available f.workers i (record w { available = false }) found,
          ready,
          some_left,
        ),
        ground (arith, some_left),
      )
]

-- If every call of write takes at least one byte and never more than is left, and the fuel is as
-- much as the bytes that are left, the loop ends with
-- exactly the whole string written.
pub write_loop-total :
    (took : ℕ → ℕ) (fuel total written : ℕ)
    → ((n : ℕ) → n < total → (1 ≤ took n) × (n + took n ≤ total))
    → written ≤ total
    → total ≤ fuel + written
    → write_loop took fuel total written ≡ some total
unfolding write_loop
write_loop-total took zero total written h p q = ground arith
write_loop-total took (suc fuel) total written h p q =
    ground (arith, write_loop-total took fuel total (written + took written) h, h written)
