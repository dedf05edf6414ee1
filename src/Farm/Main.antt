-- ===== src/Farm/Main.antt =====
-- assign3/farm.cc: the main program, from the pids of the spawned workers on. The handler of SIGCHLD
-- runs before a round of the loop over the input and while the program sleeps; what waitpid reports
-- to each of its runs is a parameter.
pub mod Written
use cs.Base.{
  ℕ, zero, suc, List, [], ◌∷◌, ◌++◌, Option, none, some, Bool, true, false, not, ◌==◌, is_empty,
  map, ltb, if◌then◌else◌,
}
use cs.Base.Text.{Text}
use cs.Base.Number.{digit_in, read_digits, take_sign, skip_spaces}
use cs.Farm.{
  Worker, Farm, Status, Chosen, sleeps, fails, worker, mark_workers_as_available,
  get_available_worker, assign_worker_to_task, all_workers_available,
}

abbrev pub Changes : Type 0
Changes = List (ℕ × Status)

-- The farm, the runs of the handler to come, and the pids that SIGCONT was sent to.
pub record Running : Type 0 where
  pub farm : Farm
  pub arrivals : List Changes
  pub continued : List ℕ

-- The program goes on; or it sleeps for ever, fails an assertion, or ends by an exception of stoll.
pub data Outcome : Type 0 where
  goes_on : Running → Outcome
  sleeps_on : Outcome
  asserted : Outcome
  thrown : Outcome

unfoldable pub handled : Option Farm → List Changes → Running → Outcome
handled none later r = asserted
handled (some f) later r = goes_on (record r { farm = f; arrivals = later })

-- sigsuspend until a test holds
unfoldable pub sleep_until : (Farm → Bool) → Farm → List Changes → List ℕ → Outcome
sleep_until ready f [] continued = elim (ready f) [
  | true ↦ goes_on (record { farm = f; arrivals = []; continued = continued })
  | false ↦ sleeps_on
]
sleep_until ready f (changes ∷ later) continued = elim (ready f) [
  | true ↦ goes_on (record { farm = f; arrivals = changes ∷ later; continued = continued })
  | false ↦ elim (mark_workers_as_available changes f) [
    | none ↦ asserted
    | some f' ↦ sleep_until ready f' later continued
  ]
]

abbrev pub some_available : Farm → Bool
some_available f = not (f.num_workers_available == 0)

-- The line is written to the worker, which is continued.
unfoldable pub send : ℕ → Worker → Text → Option Farm → Running → Outcome
send i w line none r = asserted
send i w line (some f) r = goes_on (record r {
  farm = record f { written = f.written ++ ((i, line ++ (10 ∷ [])) ∷ []) };
  continued = r.continued ++ (w.pid ∷ []);
})

unfoldable pub give : Text → Chosen → Running → Outcome
unfolding send
give line sleeps r = sleeps_on
give line fails r = asserted
give line (worker i w) r = send i w line (assign_worker_to_task i r.farm) r

-- getAvailableWorker and what follows it in a round of the loop
unfoldable pub broadcast_line : Text → Running → Outcome
unfolding sleep_until give
broadcast_line line r = elim (sleep_until some_available r.farm r.arrivals r.continued) [
  | goes_on awake ↦ give line (get_available_worker awake.farm) awake
  | sleeps_on ↦ sleeps_on
  | asserted ↦ asserted
  | thrown ↦ thrown
]

-- A run of the handler, if a signal has arrived.
unfoldable pub take_arrival : List Changes → Running → Outcome
unfolding handled
take_arrival [] r = goes_on r
take_arrival (changes ∷ later) r = handled (mark_workers_as_available changes r.farm) later r

-- stoll: what stands behind the number, none where it throws, since there is no number or it is out
-- of the range of long long.
unfoldable pub digits_rest : Bool → Text → Option Text
digits_rest negative [] = none
digits_rest negative (c ∷ s) = elim (digit_in 10 c) [
  | none ↦ none
  | some d ↦
      let (n, rest) = read_digits 10 d s in
      if ltb (if negative then 9223372036854775808 else 9223372036854775807) n
      then none
      else some rest
]

unfoldable pub stoll_rest : Text → Option Text
unfolding digits_rest
stoll_rest line = let (negative, s) = take_sign (skip_spaces line) in digits_rest negative s

-- broadcastNumbersToWorkers: a line that stoll does not take as a whole ends the loop.
unfoldable pub broadcast_numbers : List Text → Running → Outcome
unfolding take_arrival broadcast_line stoll_rest
broadcast_numbers [] r = goes_on r
broadcast_numbers (line ∷ lines) r = elim (take_arrival r.arrivals r) [
  | goes_on s ↦ elim (stoll_rest line) [
    | none ↦ thrown
    | some behind ↦ elim (is_empty behind) [
      | false ↦ goes_on s
      | true ↦ elim (broadcast_line line s) [
        | goes_on t ↦ broadcast_numbers lines t
        | sleeps_on ↦ sleeps_on
        | asserted ↦ asserted
        | thrown ↦ thrown
      ]
    ]
  ]
  | sleeps_on ↦ sleeps_on
  | asserted ↦ asserted
  | thrown ↦ thrown
]

-- spawnAllWorkers: no worker is available before it has halted itself.
unfoldable pub spawn_all_workers : List ℕ → Farm
spawn_all_workers pids = record {
  workers = map (λ pid. record { pid = pid; available = false }) pids;
  num_workers_available = 0;
  written = [];
}

-- closeAllWorkers: the workers that are sent SIGCONT once their input is closed
unfoldable pub close_all_workers : Running → Running
close_all_workers r = record r {
  continued = r.continued ++ map (λ (w : Worker). w.pid) r.farm.workers;
}

unfoldable pub wait_for_all_workers : Running → Outcome
unfolding sleep_until
wait_for_all_workers r = sleep_until all_workers_available r.farm r.arrivals r.continued

unfoldable pub main : List ℕ → List Changes → List Text → Outcome
unfolding spawn_all_workers broadcast_numbers wait_for_all_workers close_all_workers
main pids arrivals lines =
    elim (broadcast_numbers lines
      (record { farm = spawn_all_workers pids; arrivals = arrivals; continued = [] })) [
        | goes_on r ↦ elim (wait_for_all_workers r) [
          | goes_on s ↦ goes_on (close_all_workers s)
          | sleeps_on ↦ sleeps_on
          | asserted ↦ asserted
          | thrown ↦ thrown
        ]
        | sleeps_on ↦ sleeps_on
        | asserted ↦ asserted
        | thrown ↦ thrown
      ]
