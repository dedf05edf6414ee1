-- ===== src/Farm.antt =====
-- assign3/farm.cc: the farm hands numbers to worker processes that halt themselves when they are
-- ready. A worker is its pid and the flag `available`; the handler of SIGCHLD runs between the
-- steps of the main program that do not block it.
mod Tests
pub mod Counted
pub mod Main
use cs.Base.{
  ℕ, suc, zero, ◌+◌, ◌-◌, List, [], ◌∷◌, Option, none, some, Bool, true, false, not, ◌&&◌, ◌==◌,
  if◌then◌else◌, ltb, length, get_elem?, set, find_index,
}
use cs.Base.Text.{Text}

pub record Worker : Type 0 where
  pub pid : ℕ
  pub available : Bool

-- The global variables, and for each worker's descriptor what was written to it, in order.
pub record Farm : Type 0 where
  pub workers : List Worker
  pub num_workers_available : ℕ
  pub written : List (ℕ × Text)

abbrev pub is_available : Worker → Bool
is_available w = w.available

-- A status that waitpid returns with WUNTRACED.
pub data Status : Type 0 where
  stopped exited signaled : Status

-- The flag of the worker that waitpid reports, set in place; none where an assertion fails.
unfoldable pub mark_stopped : ℕ → Worker → Farm → Option Farm
mark_stopped i w f =
    if w.available
    then none
    else (if not (ltb f.num_workers_available (length f.workers))
        then none
        else some (record f {
          workers = set f.workers i (record w { available = true });
          num_workers_available = suc f.num_workers_available;
        }))

-- One round of markWorkersAsAvailable
unfoldable pub mark_found : Option (ℕ × Worker) → Status → Farm → Option Farm
unfolding mark_stopped
mark_found none status f = none
mark_found (some (i, w)) stopped f = mark_stopped i w f
mark_found (some (i, w)) exited f = some f
mark_found (some (i, w)) signaled f = some f

unfoldable pub has_pid : ℕ → Worker → Bool
has_pid pid w = w.pid == pid

unfoldable pub mark_worker : ℕ → Status → Farm → Option Farm
unfolding mark_found has_pid
mark_worker pid status f = mark_found (find_index (has_pid pid) f.workers) status f

-- markWorkersAsAvailable, for the changes that waitpid reports before it returns 0 or -1
unfoldable pub mark_workers_as_available : List (ℕ × Status) → Farm → Option Farm
unfolding mark_worker
mark_workers_as_available [] f = some f
mark_workers_as_available ((pid, status) ∷ changes) f = elim (mark_worker pid status f) [
  | none ↦ none
  | some f' ↦ mark_workers_as_available changes f'
]

-- getAvailableWorker: it sleeps while the count is 0, and asserts that there is one otherwise
pub data Chosen : Type 0 where
  sleeps fails : Chosen
  worker : ℕ → Worker → Chosen

unfoldable pub chosen : Option (ℕ × Worker) → Chosen
chosen none = fails
chosen (some (i, w)) = worker i w

unfoldable pub get_available_worker : Farm → Chosen
unfolding chosen
get_available_worker f =
    if f.num_workers_available == 0 then sleeps else chosen (find_index is_available f.workers)

-- assignWorkerToTask
unfoldable pub assign_found : ℕ → Option Worker → Farm → Option Farm
assign_found i none f = none
assign_found i (some w) f =
    if not w.available
    then none
    else (if f.num_workers_available == 0
        then none
        else some (record f {
          workers = set f.workers i (record w { available = false });
          num_workers_available = f.num_workers_available - 1;
        }))

unfoldable pub assign_worker_to_task : ℕ → Farm → Option Farm
unfolding assign_found
assign_worker_to_task i f = assign_found i (get_elem? f.workers i) f

-- writeStringToFileDescriptor: what write() takes at each call is a parameter, at least one byte.
-- The number of bytes is fuel enough.
unfoldable pub write_loop : (ℕ → ℕ) → ℕ → ℕ → ℕ → Option ℕ
write_loop took zero total written = if ltb written total then none else some written
write_loop took (suc fuel) total written = elim (ltb written total) [
  | true ↦ write_loop took fuel total (written + took written)
  | false ↦ some written
]

-- waitForAllWorkers goes on once every worker is available.
unfoldable pub all_workers_available : Farm → Bool
all_workers_available f = not (ltb f.num_workers_available (length f.workers))
