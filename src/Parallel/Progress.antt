-- ===== src/Parallel/Progress.antt =====
-- A run never gets stuck, and it ends.
use cs.Base.{
  ℕ, zero, suc, ◌+◌, ◌*◌, ◌≤◌, ◌<◌, ◌≡◌, ◌⊎◌, inl, inr, refl, sym, ap, ◌∙◌, List, [], ◌∷◌, ◌++◌,
  Option, none, some, Bool, true, false, ◌==◌, arith, get_elem?, set, all, count_by, count_by-set,
  count_by-le-length, replicate, length, length-append, length-set, length-replicate, Bool-cases,
}
use cs.Parallel.{
  Phase, looking, calculating, asleep, returned, wake, notify_all, fall_asleep, Calculation,
  take_datum, after_print, print_result, step_from, step, launch, Run, launched, stepped,
}
use cs.Parallel.Invariant.{is_among, datum_at, Holds}
use cs.Parallel.Order.{IsOrdered, Run-IsOrdered}

abbrev pub is_returned : Phase → Bool
is_returned looking = false
is_returned (calculating d) = false
is_returned (asleep d) = false
is_returned returned = true

abbrev pub all_returned : Calculation → Bool
all_returned s = all is_returned s.threads

abbrev is_looking : Phase → Bool
is_looking looking = true
is_looking (calculating d) = false
is_looking (asleep d) = false
is_looking returned = false

abbrev is_awake : Phase → Bool
is_awake looking = false
is_awake (calculating d) = true
is_awake (asleep d) = false
is_awake returned = false

-- What is left to do: a print can wake all the n threads, each of which may fall asleep again.
weight : ℕ → Calculation → ℕ
weight n s =
    (n + 3) * length s.data_queue
    + (n + 2) * length s.print_queue
    + (count_by is_looking s.threads + count_by is_awake s.threads)

take_datum-weight :
    (n i : ℕ) (left : List ℕ) (s : Calculation)
    → get_elem? s.threads i ≡ some looking
    → s.data_queue ≡ left
    → weight n (take_datum i left s) < weight n s
unfolding weight take_datum
take_datum-weight n i [] s e f = ground (
  arith,
  count_by-set is_looking s.threads i returned e,
  count_by-set is_awake s.threads i returned e,
  ap length f,
)
take_datum-weight n i (d ∷ rest) s e f =
    let more = ap (λ k. (n + 3) * k) (ap length f) in
    let grown = ap (λ k. (n + 2) * k) (length-append s.print_queue (i ∷ [])) in
    omega (
      arith,
      count_by-set is_looking s.threads i (calculating d) e,
      count_by-set is_awake s.threads i (calculating d) e,
      more,
      grown,
    )

notify_all-looking :
    (ps : List Phase) → count_by is_looking (notify_all ps) ≡ count_by is_looking ps
unfolding notify_all wake
notify_all-looking [] = refl
notify_all-looking (looking ∷ ps) = ap suc (notify_all-looking ps)
notify_all-looking (calculating d ∷ ps) = notify_all-looking ps
notify_all-looking (asleep d ∷ ps) = notify_all-looking ps
notify_all-looking (returned ∷ ps) = notify_all-looking ps

length-notify_all : (ps : List Phase) → length (notify_all ps) ≡ length ps
unfolding notify_all
length-notify_all [] = refl
length-notify_all (p ∷ ps) = ap suc (length-notify_all ps)

after_print-weight :
    (n i d : ℕ) (rest : List ℕ) (s : Calculation)
    → length s.threads ≡ n
    → get_elem? s.threads i ≡ some (calculating d)
    → length s.print_queue ≡ suc (length rest)
    → weight n (after_print i d rest s) < weight n s
unfolding weight after_print
after_print-weight n i d rest s h e f =
    let left = set s.threads i looking in
    omega (
      arith,
      count_by-set is_looking s.threads i looking e,
      notify_all-looking left,
      count_by-le-length is_awake (notify_all left),
      length-notify_all left,
      length-set s.threads i looking,
      count_by-set is_awake s.threads i looking e,
      ap (λ k. (n + 2) * k) f,
    )

fall_asleep-weight :
    (n i d : ℕ) (s : Calculation)
    → get_elem? s.threads i ≡ some (calculating d)
    → weight n (fall_asleep i d s) < weight n s
unfolding weight fall_asleep
fall_asleep-weight n i d s e = omega (
  arith,
  count_by-set is_looking s.threads i (asleep d) e,
  count_by-set is_awake s.threads i (asleep d) e,
)

print_result-weight :
    (n i d : ℕ) (q : List ℕ) (s : Calculation) {t : Calculation}
    → length s.threads ≡ n
    → get_elem? s.threads i ≡ some (calculating d)
    → s.print_queue ≡ q
    → print_result i d q s ≡ some t
    → weight n t < weight n s
unfolding print_result
print_result-weight n i d [] s h e f g = cc
print_result-weight n i d (j ∷ rest) s {t} h e f g = elim (Bool-cases (j == i)) [
  | inl first ↦
      let same : after_print i d rest s ≡ t = ground (arith, g, first) in
      omega (arith, after_print-weight n i d rest s h e (ap length f), ap (weight n) same)
  | inr other ↦
      let same : fall_asleep i d s ≡ t = ground (arith, g, other) in
      omega (arith, fall_asleep-weight n i d s e, ap (weight n) same)
]

step_from-weight :
    (n i : ℕ) (o : Option Phase) (s : Calculation) {t : Calculation}
    → length s.threads ≡ n
    → get_elem? s.threads i ≡ o
    → step_from i o s ≡ some t
    → weight n t < weight n s
unfolding step_from
step_from-weight n i none s h e g = cc
step_from-weight n i (some looking) s {t} h e g =
    let same : take_datum i s.data_queue s ≡ t = ground (arith, g) in
    omega (arith, take_datum-weight n i s.data_queue s e refl, ap (weight n) same)
step_from-weight n i (some (calculating d)) s {t} h e g =
    print_result-weight n i d s.print_queue s {t = t} h e refl g
step_from-weight n i (some (asleep d)) s h e g = cc
step_from-weight n i (some returned) s h e g = cc

take_datum-length :
    (i : ℕ) (left : List ℕ) (s : Calculation)
    → length (take_datum i left s).threads ≡ length s.threads
unfolding take_datum
take_datum-length i [] s = length-set s.threads i returned
take_datum-length i (d ∷ rest) s = length-set s.threads i (calculating d)

print_result-length :
    (i d : ℕ) (q : List ℕ) (s : Calculation) {t : Calculation}
    → print_result i d q s ≡ some t
    → length t.threads ≡ length s.threads
unfolding print_result after_print fall_asleep
print_result-length i d [] s e = cc
print_result-length i d (j ∷ q) s e = ground (
  arith,
  e,
  length-set s.threads i looking,
  length-set s.threads i (asleep d),
  length-notify_all (set s.threads i looking),
)

step_from-length :
    (i : ℕ) (o : Option Phase) (s : Calculation) {t : Calculation}
    → step_from i o s ≡ some t
    → length t.threads ≡ length s.threads
unfolding step_from
step_from-length i none s e = cc
step_from-length i (some looking) s {t} e =
    let same : take_datum i s.data_queue s ≡ t = ground (arith, e) in
    ap (λ x. length x.threads) (sym same) ∙ take_datum-length i s.data_queue s
step_from-length i (some (calculating d)) s {t} e =
    print_result-length i d s.print_queue s {t = t} e
step_from-length i (some (asleep d)) s e = cc
step_from-length i (some returned) s e = cc

Run-length :
    {n : ℕ} {data_items : List ℕ} {s : Calculation} → Run n data_items s → length s.threads ≡ n
unfolding step launch
Run-length {n} launched = length-replicate n looking
Run-length (stepped i {s} {t} r e) =
    step_from-length i (get_elem? s.threads i) s {t = t} e ∙ Run-length r

-- The steps of a run.
pub steps : {n : ℕ} {data_items : List ℕ} {s : Calculation} → Run n data_items s → ℕ
steps launched = 0
steps (stepped i r e) = suc (steps r)

all_looking : (n : ℕ) → count_by is_looking (replicate n looking) ≡ n
all_looking zero = refl
all_looking (suc n) = ap suc (all_looking n)

no_one_awake : (n : ℕ) → count_by is_awake (replicate n looking) ≡ 0
no_one_awake zero = refl
no_one_awake (suc n) = no_one_awake n

steps-weight :
    {n : ℕ} {data_items : List ℕ} {s : Calculation} (r : Run n data_items s)
    → steps r + weight n s ≤ (n + 3) * length data_items + n
unfolding steps step
steps-weight {n} launched = unfold weight launch in omega (arith, all_looking n, no_one_awake n)
steps-weight {n} (stepped i {s} {t} r e) = omega (
  arith,
  steps-weight r,
  step_from-weight n i (get_elem? s.threads i) s {t = t} (Run-length r) refl e,
)

-- Every thread has returned, or one looks for data, or one holds a datum.
thread_cases :
    (ps : List Phase)
    → (all is_returned ps ≡ true)
      ⊎ (((i : ℕ) × (get_elem? ps i ≡ some looking))
          ⊎ ((i : ℕ) × (d : ℕ) × (datum_at ps i ≡ some d)))
thread_cases [] = inl refl
thread_cases (looking ∷ ps) = inr (inl (0, refl))
thread_cases (calculating d ∷ ps) = inr (inr (0, d, refl))
thread_cases (asleep d ∷ ps) = inr (inr (0, d, refl))
thread_cases (returned ∷ ps) = elim (thread_cases ps) [
  | inl done ↦ inl done
  | inr (inl (i, e)) ↦ inr (inl (suc i, e))
  | inr (inr (i, d, e)) ↦ inr (inr (suc i, d, e))
]

step_looking :
    (i : ℕ) (s : Calculation)
    → get_elem? s.threads i ≡ some looking
    → step i s ≡ some (take_datum i s.data_queue s)
unfolding step step_from
step_looking i s e = rw (step, e) refl

step_calculating :
    (i d : ℕ) (s : Calculation)
    → get_elem? s.threads i ≡ some (calculating d)
    → step i s ≡ print_result i d s.print_queue s
unfolding step step_from
step_calculating i d s e = rw (step, e) refl

print_front :
    (i d : ℕ) (q : List ℕ) (s : Calculation)
    → print_result i d (i ∷ q) s ≡ some (after_print i d q s)
unfolding print_result
print_front i d q s = rw (print_result, same_index i) refl
  where
    same_index : (k : ℕ) → (k == k) ≡ true
    same_index k = ground arith

-- The first thread of the queue can print.
front_steps :
    (q : List ℕ) (data_items : List ℕ) (s : Calculation)
    → s.print_queue ≡ q
    → IsOrdered data_items s
    → (q ≡ []) ⊎ ((i : ℕ) × (t : Calculation) × (step i s ≡ some t))
front_steps [] data_items s e v = inl refl
front_steps (i ∷ q) data_items s e v =
    let (w, at_i) = v.front_awake i q e in
    inr (
      i,
      after_print i w q s,
      step_calculating i w s at_i ∙ ap (λ x. print_result i w x s) e ∙ print_front i w q s,
    )

-- In every state of a run, whatever the order of the steps: with n threads, no more steps have been
-- taken than n + 3 for each datum and one for each thread, and every thread has returned or some
-- thread can take a step, which a thread that sleeps cannot.
pub run-ends :
    {n : ℕ} {data_items : List ℕ} {s : Calculation} (r : Run n data_items s)
    → (steps r ≤ (n + 3) * length data_items + n)
      × ((all_returned s ≡ true) ⊎ ((i : ℕ) × (t : Calculation) × (step i s ≡ some t)))
run-ends {data_items} {s} r = (omega (arith, steps-weight r), goes_on)
  where
    goes_on : (all_returned s ≡ true) ⊎ ((i : ℕ) × (t : Calculation) × (step i s ≡ some t))
    goes_on =
        let v = Run-IsOrdered r in
        elim (thread_cases s.threads) [
          | inl done ↦ inl done
          | inr (inl (i, e)) ↦ inr (i, take_datum i s.data_queue s, step_looking i s e)
          | inr (inr (i, d, e)) ↦ elim (front_steps s.print_queue data_items s refl v) [
            | inr more ↦ inr more
            | inl empty ↦ absurd (ground (arith, ap (is_among i) empty, v.queued i d e))
          ]
        ]

all_at :
    (ps : List Phase) (i : ℕ) {p : Phase}
    → all is_returned ps ≡ true
    → get_elem? ps i ≡ some p
    → p ≡ returned
all_at [] i h e = cc
all_at (looking ∷ ps) zero h e = cc
all_at (calculating d ∷ ps) zero h e = cc
all_at (asleep d ∷ ps) zero h e = cc
all_at (returned ∷ ps) zero h e = ground (arith, e)
all_at (x ∷ ps) (suc i) {p} h e = all_at ps i {p = p} (ground (arith, h)) e

no_datum : (ps : List Phase) (i : ℕ) → all is_returned ps ≡ true → datum_at ps i ≡ none
no_datum [] i h = refl
no_datum (looking ∷ ps) i h = cc
no_datum (calculating d ∷ ps) i h = cc
no_datum (asleep d ∷ ps) i h = cc
no_datum (returned ∷ ps) zero h = refl
no_datum (returned ∷ ps) (suc i) h = no_datum ps i h

none_held :
    (ps : List Phase) (q held : List ℕ) → all is_returned ps ≡ true → Holds ps q held → held ≡ []
none_held ps [] [] a h = refl
none_held ps [] (v ∷ vs) a h = elim h [ ]
none_held ps (i ∷ q) [] a h = elim h [ ]
none_held ps (i ∷ q) (v ∷ vs) a h = let met : none ≡ some v = sym (no_datum ps i a) ∙ h.0 in cc

first_thread : (ps : List Phase) → 0 < length ps → (p : Phase) × (get_elem? ps 0 ≡ some p)
first_thread [] h = absurd (omega arith)
first_thread (p ∷ ps) h = (p, refl)

-- What has been printed are the first of the data, in their order, and all of them once all of the
-- threads, of which there is at least one, have returned.
pub printed-in_order :
    {n : ℕ} {data_items : List ℕ} {s : Calculation}
    → Run (suc n) data_items s
    → (rest : List ℕ) × (s.printed ++ rest ≡ data_items) × ((all_returned s ≡ false) ⊎ (rest ≡ []))
printed-in_order {n} {data_items} {s} r =
    let v = Run-IsOrdered r in (v.held ++ s.data_queue, v.in_order, at_end v)
  where
    at_end : (v : IsOrdered data_items s) → (all_returned s ≡ false) ⊎ (v.held ++ s.data_queue ≡ [])
    at_end v = elim (Bool-cases (all_returned s)) [
      | inr going ↦ inl going
      | inl done ↦
          let (p, e) = first_thread s.threads (omega (arith, Run-length r)) in
          let back = all_at s.threads 0 done e in
          let left = v.drained 0 (e ∙ ap some back) in
          inr (
            ap (λ xs. xs ++ s.data_queue) (none_held s.threads s.print_queue v.held done v.holds)
            ∙ left)
    ]
