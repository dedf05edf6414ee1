-- ===== src/Parallel/Tests.antt =====
-- Two threads and two data, and the theorems applied to them.
use cs.Base.{ℕ, ◌+◌, ◌*◌, ◌≤◌, ◌≡◌, ◌⊎◌, refl, List, [], ◌∷◌, ◌++◌, some, true, false, length}
use cs.Parallel.{
  looking, calculating, Calculation, step, step_from, take_datum, after_print, notify_all,
  fall_asleep, print_result, calculate, launch, Run, launched, stepped,
}
use cs.Parallel.Progress.{steps, all_returned, run-ends, printed-in_order}

abbrev two_data : List ℕ
two_data = 5 ∷ 3 ∷ []

-- Thread 1 has taken 5 and thread 0 has taken 3; thread 0 has slept until thread 1 printed.
abbrev halfway : Calculation
halfway = record {
  data_queue = [];
  print_queue = 0 ∷ [];
  threads = calculating 3 ∷ looking ∷ [];
  printed = 5 ∷ [];
}

halfway-Run : Run 2 two_data halfway
unfolding step step_from take_datum after_print notify_all fall_asleep print_result calculate launch
halfway-Run = stepped 1 (stepped 0 (stepped 0 (stepped 1 launched refl) refl) refl) refl

run-ends_example :
    (steps halfway-Run ≤ (2 + 3) * length two_data + 2)
    × ((all_returned halfway ≡ true) ⊎ ((i : ℕ) × (t : Calculation) × (step i halfway ≡ some t)))
run-ends_example = run-ends halfway-Run

printed-in_order_example :
    (rest : List ℕ) × (halfway.printed ++ rest ≡ two_data)
    × ((all_returned halfway ≡ false) ⊎ (rest ≡ []))
printed-in_order_example = printed-in_order halfway-Run
