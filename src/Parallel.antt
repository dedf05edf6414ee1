-- ===== src/Parallel.antt =====
-- assessment2/parallel_calculate.cc: threads that take data from a queue, calculate at the same time,
-- and print their results in the order of the data. A step of the model is what a thread does from
-- the locking to the unlocking of one mutex: of dataQueueMutex, inside which the push to the queue of
-- printers is, or of printQueueMutex. A thread that waits on the condition variable is asleep until
-- another one notifies all; then it tests again whether it may print.
pub mod Invariant
pub mod Order
pub mod Progress
mod Tests
use cs.Base.{
  ℕ, suc, ◌+◌, ◌≡◌, List, [], ◌∷◌, ◌++◌, Option, none, some, Bool, true, false, ◌==◌, get_elem?,
  set, replicate,
}

-- Where a thread is: about to look for data; with its data, on its way to print; asleep with its
-- data; returned.
pub data Phase : Type 0 where
  looking : Phase
  calculating : ℕ → Phase
  asleep : ℕ → Phase
  returned : Phase

-- The two queues, the threads, and what has been printed.
pub record Calculation : Type 0 where
  pub data_queue : List ℕ
  pub print_queue : List ℕ
  pub threads : List Phase
  pub printed : List ℕ

-- calculate: the result is the datum itself, some seconds later.
unfoldable pub calculate : ℕ → ℕ
calculate n = n

-- The first half of a round: return if there is no data, else register for printing and take one.
unfoldable pub take_datum : ℕ → List ℕ → Calculation → Calculation
take_datum i [] s = record s { threads = set s.threads i returned }
take_datum i (d ∷ rest) s = record s {
  data_queue = rest;
  print_queue = s.print_queue ++ (i ∷ []);
  threads = set s.threads i (calculating d);
}

-- coordinator.notify_all()
unfoldable pub wake : Phase → Phase
wake looking = looking
wake (calculating d) = calculating d
wake (asleep d) = calculating d
wake returned = returned

unfoldable pub notify_all : List Phase → List Phase
unfolding wake
notify_all [] = []
notify_all (p ∷ ps) = wake p ∷ notify_all ps

-- The result is printed, the thread leaves the queue and looks for data, and all that sleep are woken.
unfoldable pub after_print : ℕ → ℕ → List ℕ → Calculation → Calculation
unfolding calculate notify_all
after_print i d rest s = record s {
  print_queue = rest;
  threads = notify_all (set s.threads i looking);
  printed = s.printed ++ (calculate d ∷ []);
}

-- coordinator.wait, which gives the mutex back
unfoldable pub fall_asleep : ℕ → ℕ → Calculation → Calculation
fall_asleep i d s = record s { threads = set s.threads i (asleep d) }

-- The second half, also after a notification: the thread prints if it is the first of the queue,
-- and sleeps if it is not.
unfoldable pub print_result : ℕ → ℕ → List ℕ → Calculation → Option Calculation
unfolding after_print fall_asleep
print_result i d [] s = none
print_result i d (j ∷ rest) s = elim (j == i) [
  | true ↦ some (after_print i d rest s)
  | false ↦ some (fall_asleep i d s)
]

unfoldable pub step_from : ℕ → Option Phase → Calculation → Option Calculation
unfolding take_datum print_result
step_from i none s = none
step_from i (some looking) s = some (take_datum i s.data_queue s)
step_from i (some (calculating d)) s = print_result i d s.print_queue s
step_from i (some (asleep d)) s = none
step_from i (some returned) s = none

-- parallelCalculate by thread i: its next step, none where it sleeps or has returned
unfoldable pub step : ℕ → Calculation → Option Calculation
unfolding step_from
step i s = step_from i (get_elem? s.threads i) s

-- main, once the threads are started
unfoldable pub launch : ℕ → List ℕ → Calculation
launch n data_items = record {
  data_queue = data_items;
  print_queue = [];
  threads = replicate n looking;
  printed = [];
}

-- The states of a run, whatever thread steps next.
pub data Run (n : ℕ) (data_items : List ℕ) : Calculation → Type 0 where
  launched : Run n data_items (launch n data_items)
  stepped :
      (i : ℕ) {s t : Calculation} → Run n data_items s → step i s ≡ some t → Run n data_items t
