-- ===== src/Farm/Tests.antt =====
-- A farm of two workers, and the theorems applied to it.
use cs.Base.Text.{Text, codes}
use cs.Base.{List, ℕ, suc, ◌≡◌, ◌⊎◌, refl, [], ◌∷◌, some, true, false, count_by}
use cs.Farm.{
  Worker, Farm, is_available, mark_stopped, get_available_worker, assign_worker_to_task, sleeps,
  worker, stopped, mark_workers_as_available, mark_worker, mark_found, has_pid, chosen,
  assign_found, all_workers_available,
}
use cs.Base.Number.{digit_in, read_digits, take_sign, skip_spaces}
use cs.Farm.Main.{
  Changes, Running, goes_on, main, spawn_all_workers, broadcast_numbers, take_arrival, handled,
  stoll_rest, digits_rest, broadcast_line, sleep_until, give, send, wait_for_all_workers,
  close_all_workers,
}
use cs.Farm.Main.Written.{sent, numbers, main-sent}
use cs.Farm.Counted.{IsCounted, mark_stopped-IsCounted, get_available_worker-IsCounted}

abbrev ready : Worker
ready = record { pid = 7; available = true }

abbrev busy : Worker
busy = record { pid = 8; available = false }

abbrev two_workers : Farm
two_workers = record { workers = ready ∷ busy ∷ []; num_workers_available = 1; written = [] }

mark_stopped-IsCounted_example :
    (f' : Farm) × (mark_stopped 1 busy two_workers ≡ some f')
    × IsCounted f'
    × (f'.num_workers_available ≡ suc 1)
mark_stopped-IsCounted_example = mark_stopped-IsCounted 1 busy two_workers refl refl refl

get_available_worker-IsCounted_example :
    ((get_available_worker two_workers ≡ sleeps) × (count_by is_available two_workers.workers ≡ 0))
    ⊎ ((i : ℕ) × (w : Worker) × (f' : Farm) × (get_available_worker two_workers ≡ worker i w)
        × (assign_worker_to_task i two_workers ≡ some f')
        × IsCounted f'
        × (suc f'.num_workers_available ≡ two_workers.num_workers_available))
get_available_worker-IsCounted_example = get_available_worker-IsCounted two_workers refl

-- Two workers, 7 and 8, that halt themselves when they are spawned and after their numbers.
abbrev input : List Text
input = codes "12" ∷ codes "35" ∷ codes "3 x" ∷ codes "4" ∷ []

abbrev arriving : List Changes
arriving = ((7, stopped) ∷ []) ∷ ((8, stopped) ∷ []) ∷ ((7, stopped) ∷ (8, stopped) ∷ []) ∷ []

abbrev last_state : Running
last_state = record {
  farm = record {
    workers = record { pid = 7; available = true } ∷ record { pid = 8; available = true } ∷ [];
    num_workers_available = 2;
    written = (0, codes "12\n") ∷ (1, codes "35\n") ∷ [];
  };
  arrivals = [];
  continued = 7 ∷ 8 ∷ 7 ∷ 8 ∷ [];
}

runs : main (7 ∷ 8 ∷ []) arriving input ≡ goes_on last_state
unfolding main spawn_all_workers broadcast_numbers take_arrival handled mark_workers_as_available
    mark_worker mark_found has_pid mark_stopped stoll_rest digits_rest digit_in read_digits
    take_sign skip_spaces broadcast_line sleep_until give send get_available_worker chosen
    assign_worker_to_task assign_found wait_for_all_workers all_workers_available close_all_workers
runs = refl

main-sent_example :
    (sent last_state.farm ≡ numbers input) × (all_workers_available last_state.farm ≡ true)
main-sent_example = main-sent (7 ∷ 8 ∷ []) arriving input runs
