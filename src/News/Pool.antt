-- ===== src/News/Pool.antt =====
-- assign5/thread-pool.h and thread-pool.cc. A step of the model is what a thread does between two
-- waits or locks; tasks are numbered. Only the dispatcher takes from the semaphores and the queue. Its
-- round has two steps: to mark a worker as unavailable, and to pop a task for it.
pub mod Invariant
pub mod Runs
use cs.Base.{
  ℕ, suc, ◌+◌, ◌-◌, ◌++◌, List, [], ◌∷◌, Option, none, some, Bool, true, false, not, ◌==◌, ◌&&◌,
  ◌||◌, length, get_elem?, set, find_index, replicate, is_empty, if◌then◌else◌,
}

abbrev pub Task : Type 0
Task = ℕ

-- struct Worker: `work` is the thunk that it has been asked to run and has not finished.
pub record Worker : Type 0 where
  pub available : Bool
  pub work : Option Task

-- The pool, with the worker for which the dispatcher is about to pop a task, the tasks handed out so
-- far, in order, and the number of those that are finished.
pub record Pool : Type 0 where
  pub workers : List Worker
  pub work_queue : List Task
  pub available_work : ℕ
  pub available_worker : ℕ
  pub num_available_workers : ℕ
  pub chosen : Option ℕ
  pub dispatched : List Task
  pub finished : ℕ

abbrev pub new_worker : Worker
new_worker = record { available = false; work = none }

unfoldable pub new_pool : ℕ → Pool
new_pool n = record {
  workers = replicate n new_worker;
  work_queue = [];
  available_work = 0;
  available_worker = 0;
  num_available_workers = 0;
  chosen = none;
  dispatched = [];
  finished = 0;
}

abbrev pub is_available : Worker → Bool
is_available w = w.available

-- A step taken, a wait that goes on, or a failed assertion (or a pop of the empty queue).
pub data Moved : Type 0 where
  to : Pool → Moved
  waits : Moved
  fails : Moved

-- schedule: pushWork, then availableWork.signal
unfoldable pub schedule : Task → Pool → Pool
schedule t p = record p {
  work_queue = p.work_queue ++ (t ∷ []);
  available_work = suc p.available_work;
}

-- 1 for a worker that ends a task, 0 for one that starts up.
abbrev pub done : Option Task → ℕ
done none = 0
done (some t) = 1

-- The pool once worker i, in state w, has become available.
unfoldable pub make_available : ℕ → Worker → Pool → Pool
make_available i w p = record p {
  workers = set p.workers i (record { available = true; work = none });
  available_worker = suc p.available_worker;
  num_available_workers = suc p.num_available_workers;
  finished = p.finished + done w.work;
}

unfoldable pub is_chosen : ℕ → Option ℕ → Bool
is_chosen i none = false
is_chosen i (some j) = j == i

-- markWorkerAsAvailable(i), by worker i as it starts or ends its task. The worker that has been
-- chosen still waits for its request.
unfoldable pub mark_available : ℕ → Pool → Moved
unfolding is_chosen
mark_available i p = elim (get_elem? p.workers i) [
  | none ↦ fails
  | some w ↦
      if is_chosen i p.chosen
      then waits
      else (if w.available then fails else to (make_available i w p))
]

-- The pool once both semaphores are decremented and worker i is unavailable.
unfoldable pub make_unavailable : ℕ → Pool → Pool
make_unavailable i p = record p {
  workers = set p.workers i new_worker;
  available_work = p.available_work - 1;
  available_worker = p.available_worker - 1;
  num_available_workers = p.num_available_workers - 1;
  chosen = some i;
}

-- getAvailableWorker, the assertion that there is one, and markWorkerAsUnavailable, which asserts
-- that the count is positive
unfoldable pub mark_unavailable : Option (ℕ × Worker) → Pool → Moved
unfolding make_unavailable
mark_unavailable none p = fails
mark_unavailable (some (i, w)) p =
    if p.num_available_workers == 0 then fails else to (make_unavailable i p)

-- The pool once task t, the first of its queue, is handed to worker i.
unfoldable pub hand_over : ℕ → Task → List Task → Pool → Pool
hand_over i t rest p = record p {
  workers = set p.workers i (record { available = false; work = some t });
  work_queue = rest;
  chosen = none;
  dispatched = p.dispatched ++ (t ∷ []);
}

-- popWork, and the signal to worker i
unfoldable pub pop_work : ℕ → List Task → Pool → Moved
unfolding hand_over
pop_work i [] p = fails
pop_work i (t ∷ rest) p = to (hand_over i t rest p)

unfoldable pub dispatch_from : Option ℕ → Pool → Moved
unfolding mark_unavailable pop_work
dispatch_from none p =
    if (p.available_work == 0) || (p.available_worker == 0)
    then waits
    else mark_unavailable (find_index is_available p.workers) p
dispatch_from (some i) p = pop_work i p.work_queue p

-- The next step of the dispatcher.
unfoldable pub dispatch : Pool → Moved
unfolding dispatch_from
dispatch p = dispatch_from p.chosen p

-- The test of wait: the queue is empty and every worker is available.
unfoldable pub all_work_finished : Pool → Bool
all_work_finished p = is_empty p.work_queue && (p.num_available_workers == length p.workers)
