-- ===== src/Reviews/Search/Sets.antt =====
-- Sets of indices: which of them hold an index.
use cs.Base.{ℕ, ◌<◌, ◌≡◌, refl, [], ◌∷◌, Bool, false, ◌||◌, ltb, arith, All, Bool-cases, inl, inr}
use cs.Base.Map.{lookup, insert, ℕ_order, lookup-insert, same_key}
use cs.Reviews.Terms.{IndexSet, is_in}

-- The elements in order, each once.
abbrev pub Ascending : IndexSet → Type 0
Ascending [] = Unit {0}
Ascending ((k, u) ∷ set) = All (λ (e : ℕ × Unit {0}). k < e.0) set × Ascending set

abbrev pub has : ℕ → IndexSet → Bool
has j set = is_in (lookup j set)

insert-above :
    (b k : ℕ) (set : IndexSet)
    → b < k
    → All (λ (e : ℕ × Unit {0}). b < e.0) set
    → All (λ (e : ℕ × Unit {0}). b < e.0) (insert k tt set)
unfolding insert
insert-above b k [] h a = (h, tt)
insert-above b k ((x, u) ∷ set) h a = ground (arith, insert-above b k set)

pub above_more :
    (a b : ℕ) (set : IndexSet)
    → a < b
    → All (λ (e : ℕ × Unit {0}). b < e.0) set
    → All (λ (e : ℕ × Unit {0}). a < e.0) set
above_more a b [] h all_b = tt
above_more a b ((x, u) ∷ set) h all_b = (omega (arith, all_b.0), above_more a b set h all_b.1)

pub insert-Ascending : (k : ℕ) (set : IndexSet) → Ascending set → Ascending (insert k tt set)
unfolding insert
insert-Ascending k [] a = (tt, tt)
insert-Ascending k ((x, u) ∷ set) a = elim (Bool-cases (ltb k x)) [
  | inl before ↦
      rw before ((ground (arith, before), above_more k x set (ground (arith, before)) a.0), a)
  | inr not_before ↦ elim (Bool-cases (ltb x k)) [
    | inl behind ↦
        rw (not_before, behind)
          (insert-above x k set (ground (arith, behind)) a.0, insert-Ascending k set a.1)
    | inr same ↦ rw (not_before, same) a
  ]
]

-- Nothing is found below the first element.
pub has-below :
    (j : ℕ) (set : IndexSet) → All (λ (e : ℕ × Unit {0}). j < e.0) set → has j set ≡ false
unfolding lookup is_in
has-below j [] a = refl
has-below j ((x, u) ∷ set) a = ground (arith, has-below j set)

pub has-insert : (j k : ℕ) (set : IndexSet) → has j (insert k tt set) ≡ (same_key k j || has j set)
unfolding is_in
has-insert j k set = ground (arith, lookup-insert k j tt set)

pub has-cons :
    (j x : ℕ) (u : Unit {0}) (set : IndexSet) → has j ((x, u) ∷ set) ≡ (same_key x j || has j set)
unfolding lookup is_in
has-cons j x u set = ground arith
