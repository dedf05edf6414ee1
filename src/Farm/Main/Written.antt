-- ===== src/Farm/Main/Written.antt =====
-- Which numbers reach the workers.
use mathlib.Core.List.{append-nil}
use cs.Base.{
  ℕ, ◌≡◌, refl, sym, ap, ◌∙◌, List, [], ◌∷◌, ◌++◌, Option, none, some, Bool, true, false, arith,
  is_empty, map, Bool-cases, Option-cases, inl, inr, get_elem?, find_index, append_assoc, ◌⊎◌,
}
use cs.Base.Text.{Text}
use cs.Farm.{
  Worker, Farm, Status, stopped, exited, signaled, Chosen, sleeps, fails, worker, mark_stopped,
  mark_found, mark_worker, has_pid, mark_workers_as_available, get_available_worker, assign_found,
  assign_worker_to_task, all_workers_available,
}
use cs.Farm.Main.{
  Changes, Running, Outcome, goes_on, sleeps_on, asserted, thrown, handled, sleep_until,
  some_available, send, give, broadcast_line, take_arrival, stoll_rest, broadcast_numbers,
  spawn_all_workers, close_all_workers, wait_for_all_workers, main,
}

-- The lines that were written, whoever they were written to.
abbrev pub sent : Farm → List Text
sent f = map (λ (e : ℕ × Text). e.1) f.written

-- The lines up to the first that is more than a number, as they are written.
unfoldable pub numbers : List Text → List Text
numbers [] = []
numbers (line ∷ lines) = elim (stoll_rest line) [
  | none ↦ []
  | some behind ↦ elim (is_empty behind) [ false ↦ [] | true ↦ (line ++ (10 ∷ [])) ∷ numbers lines ]
]

mark_found-written :
    (o : Option (ℕ × Worker)) (status : Status) (f : Farm) {g : Farm}
    → mark_found o status f ≡ some g
    → g.written ≡ f.written
unfolding mark_found mark_stopped
mark_found-written none status f e = cc
mark_found-written (some (i, w)) stopped f e = ground (arith, e)
mark_found-written (some (i, w)) exited f e = ground (arith, e)
mark_found-written (some (i, w)) signaled f e = ground (arith, e)

mark_workers_as_available-written :
    (changes : Changes) (f : Farm) {g : Farm}
    → mark_workers_as_available changes f ≡ some g
    → g.written ≡ f.written
unfolding mark_workers_as_available mark_worker
mark_workers_as_available-written [] f e = ground (arith, e)
mark_workers_as_available-written ((pid, status) ∷ changes) f {g} e =
    elim (Option-cases (mark_worker pid status f)) [
      | inl failed ↦ absurd (ground (arith, e, failed))
      | inr (f', marked) ↦
          mark_workers_as_available-written changes f' {g = g} (ground (arith, e, marked))
          ∙ mark_found-written (find_index (has_pid pid) f.workers) status f marked
    ]

sleep_until-written :
    (ready : Farm → Bool) (f : Farm) (arrivals : List Changes) (continued : List ℕ) {r : Running}
    → sleep_until ready f arrivals continued ≡ goes_on r
    → r.farm.written ≡ f.written
unfolding sleep_until
sleep_until-written ready f [] continued e = elim (Bool-cases (ready f)) [
  | inl yes_ready ↦ ground (arith, e, yes_ready)
  | inr not_ready ↦ absurd (ground (arith, e, not_ready))
]
sleep_until-written ready f (changes ∷ later) continued {r} e = elim (Bool-cases (ready f)) [
  | inl yes_ready ↦ ground (arith, e, yes_ready)
  | inr not_ready ↦ elim (Option-cases (mark_workers_as_available changes f)) [
    | inl failed ↦ absurd (ground (arith, e, not_ready, failed))
    | inr (f', marked) ↦
        sleep_until-written ready f' later continued {r = r} (ground (arith, e, not_ready, marked))
        ∙ mark_workers_as_available-written changes f marked
  ]
]

take_arrival-written :
    (arrivals : List Changes) (r : Running) {s : Running}
    → take_arrival arrivals r ≡ goes_on s
    → s.farm.written ≡ r.farm.written
unfolding take_arrival handled
take_arrival-written [] r e = ground (arith, e)
take_arrival-written (changes ∷ later) r e =
    elim (Option-cases (mark_workers_as_available changes r.farm)) [
      | inl failed ↦ absurd (ground (arith, e, failed))
      | inr (f, marked) ↦
          ground (arith, e, marked, mark_workers_as_available-written changes r.farm marked)
    ]

assign_found-written :
    (i : ℕ) (o : Option Worker) (f : Farm) {g : Farm}
    → assign_found i o f ≡ some g
    → g.written ≡ f.written
unfolding assign_found
assign_found-written i none f e = cc
assign_found-written i (some w) f e = ground (arith, e)

send-sent :
    (i : ℕ) (w : Worker) (line : Text) (o : Option Farm) (r : Running) {s : Running}
    → ((g : Farm) → o ≡ some g → g.written ≡ r.farm.written)
    → send i w line o r ≡ goes_on s
    → (i' : ℕ) × (s.farm.written ≡ r.farm.written ++ ((i', line ++ (10 ∷ [])) ∷ []))
unfolding send
send-sent i w line none r kept e = absurd (ground (arith, e))
send-sent i w line (some f) r kept e = (i, ground (arith, e, kept f refl))

give-sent :
    (line : Text) (c : Chosen) (r : Running) {s : Running}
    → give line c r ≡ goes_on s
    → (i : ℕ) × (s.farm.written ≡ r.farm.written ++ ((i, line ++ (10 ∷ [])) ∷ []))
unfolding give assign_worker_to_task
give-sent line sleeps r e = absurd (ground (arith, e))
give-sent line fails r e = absurd (ground (arith, e))
give-sent line (worker i w) r {s} e =
    send-sent i w line (assign_worker_to_task i r.farm) r {s = s}
      (λ g h. assign_found-written i (get_elem? r.farm.workers i) r.farm h) e

-- An outcome is a state to go on from, or the end.
outcome_cases :
    (o : Outcome)
    → ((r : Running) × (o ≡ goes_on r)) ⊎ ((o ≡ sleeps_on) ⊎ ((o ≡ asserted) ⊎ (o ≡ thrown)))
outcome_cases (goes_on r) = inl (r, refl)
outcome_cases sleeps_on = inr (inl refl)
outcome_cases asserted = inr (inr (inl refl))
outcome_cases thrown = inr (inr (inr refl))

sent-append :
    (xs : List (ℕ × Text)) (i : ℕ) (s : Text)
    → map (λ (e : ℕ × Text). e.1) (xs ++ ((i, s) ∷ [])) ≡ map (λ (e : ℕ × Text). e.1) xs ++ (s ∷ [])
sent-append [] i s = refl
sent-append (x ∷ xs) i s = ap (λ ys. x.1 ∷ ys) (sent-append xs i s)

broadcast_line-sent :
    (line : Text) (r : Running) {s : Running}
    → broadcast_line line r ≡ goes_on s
    → sent s.farm ≡ sent r.farm ++ ((line ++ (10 ∷ [])) ∷ [])
unfolding broadcast_line
broadcast_line-sent line r {s} e =
    elim (outcome_cases (sleep_until some_available r.farm r.arrivals r.continued)) [
      | inr over ↦ absurd (ground (arith, e, over))
      | inl (awake, woken) ↦
          let (i, written) =
            give-sent line (get_available_worker awake.farm) awake {s = s}
              (ground (arith, e, woken)) in
          let kept =
            sleep_until-written some_available r.farm r.arrivals r.continued {r = awake} woken in
          ap (map (λ (e : ℕ × Text). e.1))
            (written ∙ ap (λ xs. xs ++ ((i, line ++ (10 ∷ [])) ∷ [])) kept)
          ∙ sent-append r.farm.written i (line ++ (10 ∷ []))
    ]

numbers_stop :
    (line behind : Text) (lines : List Text)
    → stoll_rest line ≡ some behind
    → is_empty behind ≡ false
    → numbers (line ∷ lines) ≡ []
unfolding numbers
numbers_stop line behind lines e f = rw (numbers, e, f) refl

numbers_next :
    (line behind : Text) (lines : List Text)
    → stoll_rest line ≡ some behind
    → is_empty behind ≡ true
    → numbers (line ∷ lines) ≡ (line ++ (10 ∷ [])) ∷ numbers lines
unfolding numbers
numbers_next line behind lines e f = rw (numbers, e, f) refl

sleep_until-ready :
    (ready : Farm → Bool) (f : Farm) (arrivals : List Changes) (continued : List ℕ) {r : Running}
    → sleep_until ready f arrivals continued ≡ goes_on r
    → ready r.farm ≡ true
unfolding sleep_until
sleep_until-ready ready f [] continued {r} e = elim (Bool-cases (ready f)) [
  | inl yes_ready ↦
      let same : r.farm ≡ f = ground (arith, e, yes_ready) in ap ready same ∙ yes_ready
  | inr not_ready ↦ absurd (ground (arith, e, not_ready))
]
sleep_until-ready ready f (changes ∷ later) continued {r} e = elim (Bool-cases (ready f)) [
  | inl yes_ready ↦
      let same : r.farm ≡ f = ground (arith, e, yes_ready) in ap ready same ∙ yes_ready
  | inr not_ready ↦ elim (Option-cases (mark_workers_as_available changes f)) [
    | inl failed ↦ absurd (ground (arith, e, not_ready, failed))
    | inr (f', marked) ↦
        sleep_until-ready ready f' later continued {r = r} (ground (arith, e, not_ready, marked))
  ]
]

broadcast_numbers-sent :
    (lines : List Text) (r : Running) {s : Running}
    → broadcast_numbers lines r ≡ goes_on s
    → sent s.farm ≡ sent r.farm ++ numbers lines
unfolding broadcast_numbers numbers
broadcast_numbers-sent [] r {s} e =
    let same : r ≡ s = ground (arith, e) in
    ap (λ x. sent x.farm) (sym same) ∙ sym (append-nil (sent r.farm))
broadcast_numbers-sent (line ∷ lines) r {s} e = elim (outcome_cases (take_arrival r.arrivals r)) [
  | inr over ↦ absurd (ground (arith, e, over))
  | inl (s', arrived) ↦
      let kept =
        ap (map (λ (e : ℕ × Text). e.1)) (take_arrival-written r.arrivals r {s = s'} arrived) in
      elim (Option-cases (stoll_rest line)) [
        | inl no_number ↦ absurd (ground (arith, e, arrived, no_number))
        | inr (behind, number) ↦ elim (Bool-cases (is_empty behind)) [
          | inr more ↦
              let same : s' ≡ s = ground (arith, e, arrived, number, more) in
              ap (λ x. sent x.farm) (sym same)
              ∙ kept
              ∙ sym (append-nil (sent r.farm))
              ∙ ap (λ xs. sent r.farm ++ xs) (sym (numbers_stop line behind lines number more))
          | inl whole ↦ elim (outcome_cases (broadcast_line line s')) [
            | inr over ↦ absurd (ground (arith, e, arrived, number, whole, over))
            | inl (t, given) ↦
                broadcast_numbers-sent lines t {s = s}
                  (ground (arith, e, arrived, number, whole, given))
                ∙ ap (λ xs. xs ++ numbers lines)
                    (broadcast_line-sent line s' {s = t} given
                      ∙ ap (λ xs. xs ++ ((line ++ (10 ∷ [])) ∷ [])) kept)
                ∙ append_assoc (sent r.farm) ((line ++ (10 ∷ [])) ∷ []) (numbers lines)
                ∙ ap (λ xs. sent r.farm ++ xs) (sym (numbers_next line behind lines number whole))
          ]
        ]
      ]
]

-- If the farm ends normally, what has been written to the workers, in order and to each of them
-- together, are the lines of the input up to the first that is more than a number.
pub main-sent :
    (pids : List ℕ) (arrivals : List Changes) (lines : List Text) {r : Running}
    → main pids arrivals lines ≡ goes_on r
    → (sent r.farm ≡ numbers lines) × (all_workers_available r.farm ≡ true)
unfolding main close_all_workers wait_for_all_workers spawn_all_workers
main-sent pids arrivals lines {r} e =
    let begun : Running = record {
      farm = spawn_all_workers pids;
      arrivals = arrivals;
      continued = [];
    } in
    elim (outcome_cases (broadcast_numbers lines begun)) [
      | inr over ↦ absurd (ground (arith, e, over))
      | inl (s, broadcast) ↦ elim (outcome_cases (wait_for_all_workers s)) [
        | inr over ↦ absurd (ground (arith, e, broadcast, over))
        | inl (t, waited) ↦
            let same : close_all_workers t ≡ r = ground (arith, e, broadcast, waited) in
            (
              ap (λ x. sent x.farm) (sym same)
                  ∙ ap (map (λ (e : ℕ × Text). e.1)) (
                      sleep_until-written all_workers_available s.farm s.arrivals s.continued
                        {r = t} waited)
                  ∙ broadcast_numbers-sent lines begun {s = s} broadcast,
              ap (λ x. all_workers_available x.farm) (sym same)
                  ∙ sleep_until-ready all_workers_available s.farm s.arrivals s.continued {r = t}
                      waited,
            )
      ]
    ]
