-- ===== src/Stsh/JobList/Keyed.antt =====
-- The map of jobs is in order, each job under its own number, and what a write does to a lookup.
use cs.Base.{
  ℕ, suc, ◌≤◌, ◌<◌, ◌≡◌, refl, [], ◌∷◌, none, some, Bool, true, arith, Bool-cases, inl, inr,
}
use cs.Base.Map.{lookup, insert, erase, ℕ_order}
use cs.Stsh.Job.{Job}
use cs.Stsh.JobList.{Jobs, first_job}

-- Numbers rise strictly from `lo` and stay below `hi`; a job is kept under its own number.
abbrev pub Keyed : ℕ → ℕ → Jobs → Type 0
Keyed lo hi [] = Unit {0}
Keyed lo hi ((k, j) ∷ js) = (lo ≤ k) × (k < hi) × (j.num ≡ k) × Keyed (suc k) hi js

pub Keyed-weaken :
    (lo lo' hi hi' : ℕ) (js : Jobs) → lo' ≤ lo → hi ≤ hi' → Keyed lo hi js → Keyed lo' hi' js
Keyed-weaken lo lo' hi hi' [] a b v = tt
Keyed-weaken lo lo' hi hi' ((k, j) ∷ js) a b v =
    (omega arith, omega arith, v.2, Keyed-weaken (suc k) (suc k) hi hi' js (omega arith) b v.3)

pub Keyed-insert :
    (lo hi : ℕ) (j : Job) (js : Jobs)
    → lo ≤ j.num
    → j.num < hi
    → Keyed lo hi js
    → Keyed lo hi (insert j.num j js)
unfolding insert
Keyed-insert lo hi j [] a b v = ground arith
Keyed-insert lo hi j ((k, i) ∷ js) a b v =
    ground (arith, Keyed-insert (suc k) hi j js, Keyed-weaken (suc k) (suc (j.num)) hi hi js)

pub Keyed-erase : (lo hi num : ℕ) (js : Jobs) → Keyed lo hi js → Keyed lo hi (erase num js)
unfolding erase
Keyed-erase lo hi num [] v = tt
Keyed-erase lo hi num ((k, i) ∷ js) v = ground (
  arith,
  Keyed-erase (suc k) hi num js,
  Keyed-erase (suc k) hi num js,
  Keyed-weaken (suc k) lo hi hi (erase num js),
)

-- A number below all of a map's is not in it.
pub lookup_below : (lo hi num : ℕ) (js : Jobs) → num < lo → Keyed lo hi js → lookup num js ≡ none
unfolding lookup
lookup_below lo hi num [] h v = refl
lookup_below lo hi num ((k, i) ∷ js) h v = ground (arith, lookup_below (suc k) hi num js)

-- What a search finds is kept under its own number.
pub lookup-first_job :
    (p : Job → Bool) (lo hi : ℕ) (js : Jobs) (j : Job)
    → Keyed lo hi js
    → first_job p js ≡ some j
    → (lookup j.num js ≡ some j) × (lo ≤ j.num) × (j.num < hi) × (p j ≡ true)
unfolding first_job lookup
lookup-first_job p lo hi [] j v e = cc
lookup-first_job p lo hi ((k, i) ∷ js) j v e = elim (Bool-cases (p i)) [
  | inl h ↦ ground (arith, h)
  | inr h ↦ ground (arith, h, lookup-first_job p (suc k) hi js j)
]
