-- ===== src/Parallel/Order.antt =====
-- The results are printed in the order of the data.
use mathlib.Core.Path.{subst}
use cs.Base.{
  ℕ, zero, suc, ◌≡◌, ◌⊎◌, get_elem?-set_other, inl, inr, refl, sym, ap, ◌∙◌, List, [], ◌∷◌, ◌++◌,
  Option, none, some, true, false, ◌==◌, arith, get_elem?, set, get_elem?-set_self,
  get_elem?-within, Bool-cases, replicate, append_assoc,
}
use cs.Parallel.{
  Phase, looking, calculating, asleep, returned, wake, notify_all, fall_asleep, Calculation,
  calculate, take_datum, after_print, print_result, step_from, step, launch, Run, launched, stepped,
}
use cs.Parallel.Invariant.{
  is_among, is_among-append, datum_of, datum_at, datum_at-datum_of, datum_at-set_other,
  datum_at-set_same, datum_at-notify_all, Holds, Holds-absent, Holds-same, Holds-set, Holds-append,
}

-- What is printed, the data that threads hold in the order of the queue, and the data that are left
-- are the data at the start. Threads that hold a datum are in the queue, of which the first is not
-- asleep, and a thread returns only when no data are left.
pub record IsOrdered (data_items : List ℕ) (s : Calculation) : Type 0 where
  pub held : List ℕ
  pub holds : Holds s.threads s.print_queue held
  pub in_order : s.printed ++ (held ++ s.data_queue) ≡ data_items
  pub queued : (i v : ℕ) → datum_at s.threads i ≡ some v → is_among i s.print_queue ≡ true
  pub drained : (i : ℕ) → get_elem? s.threads i ≡ some returned → s.data_queue ≡ []
  pub front_awake :
      (i : ℕ) (q : List ℕ)
      → s.print_queue ≡ i ∷ q
      → (w : ℕ) × (get_elem? s.threads i ≡ some (calculating w))

replicate_looking : (n i : ℕ) {p : Phase} → get_elem? (replicate n looking) i ≡ some p → p ≡ looking
replicate_looking zero i e = cc
replicate_looking (suc n) zero e = ground (arith, e)
replicate_looking (suc n) (suc i) {p} e = replicate_looking n i {p = p} e

none_held_at_first : (n i : ℕ) → datum_at (replicate n looking) i ≡ none
none_held_at_first zero i = refl
none_held_at_first (suc n) zero = refl
none_held_at_first (suc n) (suc i) = none_held_at_first n i

launch-IsOrdered : (n : ℕ) (data_items : List ℕ) → IsOrdered data_items (launch n data_items)
unfolding launch
launch-IsOrdered n data_items = record {
  held = [];
  holds = tt;
  in_order = refl;
  queued = λ i v e. let met : none ≡ some v = sym (none_held_at_first n i) ∙ e in cc;
  drained = λ i e. let same : returned ≡ looking = replicate_looking n i e in cc;
  front_awake = λ i q e. cc;
}

-- What a thread is after one of them has changed.
set_cases :
    (ps : List Phase) (i j : ℕ) (p : Phase) {r : Phase}
    → get_elem? (set ps i p) j ≡ some r
    → ((i ≡ j) × (p ≡ r)) ⊎ (((i == j) ≡ false) × (get_elem? ps j ≡ some r))
set_cases [] i j p e = cc
set_cases (x ∷ ps) zero zero p e = inl (refl, ground (arith, e))
set_cases (x ∷ ps) zero (suc j) p e = inr (ground arith, e)
set_cases (x ∷ ps) (suc i) zero p e = inr (ground arith, e)
set_cases (x ∷ ps) (suc i) (suc j) p {r} e = elim (set_cases ps i j p {r = r} e) [
  | inl (same, here) ↦ inl (ap suc same, here)
  | inr (other, there) ↦ inr (ground (arith, other), there)
]

datum_set_cases :
    (ps : List Phase) (i j : ℕ) (p : Phase) {q : Phase} {w : ℕ}
    → get_elem? ps i ≡ some q
    → datum_at (set ps i p) j ≡ some w
    → (((i == j) ≡ true) × (datum_of p ≡ some w)) ⊎ (((i == j) ≡ false) × (datum_at ps j ≡ some w))
datum_set_cases ps i j p {q} {w} e h = elim (Bool-cases (i == j)) [
  | inr other ↦ inr (other, sym (datum_at-set_other ps i j p other) ∙ h)
  | inl same ↦
      let at_j : i ≡ j = ground (arith, same) in
      let here = get_elem?-set_self ps i p (get_elem?-within ps i e) in
      inl (same, sym (datum_at-datum_of (set ps i p) i here) ∙ ap (datum_at (set ps i p)) at_j ∙ h)
]

-- A thread that holds nothing is not the one that calculates.
apart :
    (ps : List Phase) (i j w : ℕ) {p : Phase}
    → get_elem? ps i ≡ some p
    → datum_of p ≡ none
    → get_elem? ps j ≡ some (calculating w)
    → (j == i) ≡ false
apart ps i j w {p} e f h = elim (Bool-cases (j == i)) [
  | inr other ↦ other
  | inl same ↦
      let at_i : j ≡ i = ground (arith, same) in
      let met : some w ≡ none =
        sym (datum_at-datum_of ps j h) ∙ ap (datum_at ps) at_i ∙ datum_at-datum_of ps i e ∙ f in
      cc
]

keeps_front :
    (ps : List Phase) (i j w : ℕ) (p : Phase)
    → (j == i) ≡ false
    → get_elem? ps j ≡ some (calculating w)
    → get_elem? (set ps i p) j ≡ some (calculating w)
keeps_front ps i j w p other e = get_elem?-set_other ps i j p (ground (arith, other)) ∙ e

-- The first of the queue once thread i is added to it.
front_after :
    (q r : List ℕ) (i j : ℕ)
    → q ++ (i ∷ []) ≡ j ∷ r
    → ((q ≡ []) × (i ≡ j)) ⊎ ((rest : List ℕ) × (q ≡ j ∷ rest))
front_after [] r i j e = inl (refl, ground (arith, e))
front_after (k ∷ q) r i j e = let same : k ≡ j = ground (arith, e) in inr (q, ap (λ x. x ∷ q) same)

take_datum-IsOrdered :
    (i : ℕ) (data_items left : List ℕ) (s : Calculation)
    → IsOrdered data_items s
    → get_elem? s.threads i ≡ some looking
    → s.data_queue ≡ left
    → IsOrdered data_items (take_datum i left s)
unfolding take_datum
take_datum-IsOrdered i data_items [] s v e f = record {
  held = v.held;
  holds =
      Holds-set s.threads s.print_queue v.held i returned
        (Holds-absent s.threads s.print_queue v.held i v.holds (datum_at-datum_of s.threads i e))
        v.holds;
  in_order = v.in_order;
  queued = λ j w h. elim (datum_set_cases s.threads i j returned e h) [
    | inl (same, other) ↦ cc
    | inr (differs, before) ↦ v.queued j w before
  ];
  drained = λ j h. f;
  front_awake = λ j q h.
      let (w, calculates) = v.front_awake j q h in
      (
        w,
        keeps_front s.threads i j w returned (apart s.threads i j w e refl calculates) calculates,
      );
}
take_datum-IsOrdered i data_items (d ∷ rest) s v e f =
    let empty = datum_at-datum_of s.threads i e in
    let absent = Holds-absent s.threads s.print_queue v.held i v.holds empty in
    let here = get_elem?-set_self s.threads i (calculating d) (get_elem?-within s.threads i e) in
    record {
      held = v.held ++ (d ∷ []);
      holds =
          Holds-append (set s.threads i (calculating d)) s.print_queue v.held i d
            (Holds-set s.threads s.print_queue v.held i (calculating d) absent v.holds)
            (datum_at-datum_of (set s.threads i (calculating d)) i here) absent;
      in_order =
          ap (λ xs. s.printed ++ xs)
            (append_assoc v.held (d ∷ []) rest ∙ ap (λ xs. v.held ++ xs) (sym f))
          ∙ v.in_order;
      queued = λ j w h. elim (datum_set_cases s.threads i j (calculating d) e h) [
        | inl (same, other) ↦ is_among-append j i s.print_queue ∙ ground (arith, same)
        | inr (differs, before) ↦
            is_among-append j i s.print_queue ∙ ground (arith, v.queued j w before)
      ];
      drained = λ j h. elim (set_cases s.threads i j (calculating d) h) [
        | inl (same, other) ↦ absurd (ground (arith, other))
        | inr (differs, before) ↦ absurd (ground (arith, v.drained j before, f))
      ];
      front_awake = λ j q h. elim (front_after s.print_queue q i j h) [
        | inl (none_before, same) ↦
            (d, ap (λ k. get_elem? (set s.threads i (calculating d)) k) (sym same) ∙ here)
        | inr (others, before) ↦
            let (w, calculates) = v.front_awake j others before in
            (
              w,
              keeps_front s.threads i j w (calculating d) (apart s.threads i j w e refl calculates)
                  calculates,
            )
      ];
    }

pub first_held :
    (ps : List Phase) (i : ℕ) (q vs : List ℕ)
    → Holds ps (i ∷ q) vs
    → (w : ℕ) × (ws : List ℕ) × (vs ≡ w ∷ ws)
      × (datum_at ps i ≡ some w)
      × (is_among i q ≡ false)
      × Holds ps q ws
first_held ps i q [] h = elim h [ ]
first_held ps i q (w ∷ ws) h = (w, ws, refl, h.0, h.1, h.2)

wake-calculating : (p : Phase) (w : ℕ) → datum_of p ≡ some w → wake p ≡ calculating w
unfolding wake
wake-calculating looking w e = cc
wake-calculating (calculating d) w e = ground (arith, e)
wake-calculating (asleep d) w e = ground (arith, e)
wake-calculating returned w e = cc

-- After a notification a thread that holds a datum is not asleep.
notified :
    (ps : List Phase) (i w : ℕ)
    → datum_at ps i ≡ some w
    → get_elem? (notify_all ps) i ≡ some (calculating w)
unfolding notify_all
notified [] i w e = cc
notified (p ∷ ps) zero w e = ap some (wake-calculating p w e)
notified (p ∷ ps) (suc i) w e = notified ps i w e

wake-returned : (p : Phase) → wake p ≡ returned → p ≡ returned
unfolding wake
wake-returned looking e = cc
wake-returned (calculating d) e = cc
wake-returned (asleep d) e = cc
wake-returned returned e = refl

notified-returned :
    (ps : List Phase) (i : ℕ)
    → get_elem? (notify_all ps) i ≡ some returned
    → get_elem? ps i ≡ some returned
unfolding notify_all
notified-returned [] i e = cc
notified-returned (p ∷ ps) zero e = ap some (wake-returned p (ground (arith, e)))
notified-returned (p ∷ ps) (suc i) e = notified-returned ps i e

after_print-IsOrdered :
    (i d : ℕ) (data_items rest : List ℕ) (s : Calculation)
    → IsOrdered data_items s
    → get_elem? s.threads i ≡ some (calculating d)
    → s.print_queue ≡ i ∷ rest
    → IsOrdered data_items (after_print i d rest s)
unfolding after_print calculate
after_print-IsOrdered i d data_items rest s v e f =
    let (w, ws, held, at_i, absent, others) =
      first_held s.threads i rest v.held (subst (λ q. Holds s.threads q v.held) f v.holds) in
    let met : some d ≡ some w = sym (datum_at-datum_of s.threads i e) ∙ at_i in
    let same : d ≡ w = ground (arith, met) in
    let left = set s.threads i looking in
    let still = Holds-set s.threads rest ws i looking absent others in
    record {
      held = ws;
      holds = Holds-same left (notify_all left) rest ws (λ j h. datum_at-notify_all left j) still;
      in_order =
          append_assoc s.printed (d ∷ []) (ws ++ s.data_queue)
          ∙ ap (λ x. s.printed ++ (x ∷ (ws ++ s.data_queue))) same
          ∙ ap (λ xs. s.printed ++ (xs ++ s.data_queue)) (sym held)
          ∙ v.in_order;
      queued = λ j u h.
          elim (datum_set_cases s.threads i j looking e (sym (datum_at-notify_all left j) ∙ h)) [
            | inl (here, other) ↦ cc
            | inr (differs, before) ↦
                let among = ap (is_among j) (sym f) ∙ v.queued j u before in
                ground (arith, among, differs)
          ];
      drained = λ j h. elim (set_cases s.threads i j looking (notified-returned left j h)) [
        | inl (here, other) ↦ cc
        | inr (differs, before) ↦ v.drained j before
      ];
      front_awake = λ j q h.
          let (u, us, more, at_j, gone, after) =
            first_held left j q ws (subst (λ x. Holds left x ws) h still) in
          (u, notified left j u at_j);
    }

fall_asleep-IsOrdered :
    (i d j : ℕ) (data_items rest : List ℕ) (s : Calculation)
    → IsOrdered data_items s
    → get_elem? s.threads i ≡ some (calculating d)
    → s.print_queue ≡ j ∷ rest
    → (j == i) ≡ false
    → IsOrdered data_items (fall_asleep i d s)
unfolding fall_asleep
fall_asleep-IsOrdered i d j data_items rest s v e f differs =
    let keeps : (k : ℕ) → datum_at (set s.threads i (asleep d)) k ≡ datum_at s.threads k =
      λ k. datum_at-set_same s.threads i k d (asleep d) (datum_at-datum_of s.threads i e) refl in
    record {
      held = v.held;
      holds =
          Holds-same s.threads (set s.threads i (asleep d)) s.print_queue v.held (λ k h. keeps k)
            v.holds;
      in_order = v.in_order;
      queued = λ k w h. v.queued k w (sym (keeps k) ∙ h);
      drained = λ k h. elim (set_cases s.threads i k (asleep d) h) [
        | inl (here, other) ↦ cc
        | inr (apart_from, before) ↦ v.drained k before
      ];
      front_awake = λ k q h.
          let (w, calculates) = v.front_awake k q h in
          let first : j ∷ rest ≡ k ∷ q = sym f ∙ h in
          (w, keeps_front s.threads i k w (asleep d) (ground (arith, first, differs)) calculates);
    }

print_result-IsOrdered :
    (i d : ℕ) (data_items q : List ℕ) (s : Calculation) {t : Calculation}
    → IsOrdered data_items s
    → get_elem? s.threads i ≡ some (calculating d)
    → s.print_queue ≡ q
    → print_result i d q s ≡ some t
    → IsOrdered data_items t
unfolding print_result
print_result-IsOrdered i d data_items [] s v e f g = cc
print_result-IsOrdered i d data_items (j ∷ rest) s {t} v e f g = elim (Bool-cases (j == i)) [
  | inr other ↦
      let same : fall_asleep i d s ≡ t = ground (arith, g, other) in
      subst (IsOrdered data_items) same (fall_asleep-IsOrdered i d j data_items rest s v e f other)
  | inl first ↦
      let here : j ≡ i = ground (arith, first) in
      let same : after_print i d rest s ≡ t = ground (arith, g, first) in
      subst (IsOrdered data_items) same
        (after_print-IsOrdered i d data_items rest s v e (f ∙ ap (λ x. x ∷ rest) here))
]

step_from-IsOrdered :
    (i : ℕ) (o : Option Phase) (data_items : List ℕ) (s : Calculation) {t : Calculation}
    → IsOrdered data_items s
    → get_elem? s.threads i ≡ o
    → step_from i o s ≡ some t
    → IsOrdered data_items t
unfolding step_from
step_from-IsOrdered i none data_items s v e g = cc
step_from-IsOrdered i (some looking) data_items s {t} v e g =
    let same : take_datum i s.data_queue s ≡ t = ground (arith, g) in
    subst (IsOrdered data_items) same (take_datum-IsOrdered i data_items s.data_queue s v e refl)
step_from-IsOrdered i (some (calculating d)) data_items s {t} v e g =
    print_result-IsOrdered i d data_items s.print_queue s {t = t} v e refl g
step_from-IsOrdered i (some (asleep d)) data_items s v e g = cc
step_from-IsOrdered i (some returned) data_items s v e g = cc

pub Run-IsOrdered :
    {n : ℕ} {data_items : List ℕ} {s : Calculation} → Run n data_items s → IsOrdered data_items s
unfolding step
Run-IsOrdered {n} {data_items} launched = launch-IsOrdered n data_items
Run-IsOrdered {data_items} (stepped i {s} {t} r e) =
    step_from-IsOrdered i (get_elem? s.threads i) data_items s {t = t} (Run-IsOrdered r) refl e
