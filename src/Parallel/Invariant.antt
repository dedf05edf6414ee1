-- ===== src/Parallel/Invariant.antt =====
-- The threads that wait to print, in their order, with the data that they hold.
use cs.Base.{
  ℕ, zero, suc, ◌≡◌, ◌⊎◌, inl, inr, refl, sym, ap, ◌∙◌, List, [], ◌∷◌, ◌++◌, Option, none, some,
  Bool, true, false, ◌==◌, ◌||◌, arith, get_elem?, set, Bool-cases,
}
use cs.Parallel.{Phase, looking, calculating, asleep, returned, wake, notify_all}

-- The datum that a thread holds.
abbrev pub datum_of : Phase → Option ℕ
datum_of looking = none
datum_of (calculating d) = some d
datum_of (asleep d) = some d
datum_of returned = none

abbrev pub datum_at : List Phase → ℕ → Option ℕ
datum_at [] i = none
datum_at (p ∷ ps) zero = datum_of p
datum_at (p ∷ ps) (suc i) = datum_at ps i

pub datum_at-datum_of :
    (ps : List Phase) (i : ℕ) {p : Phase} → get_elem? ps i ≡ some p → datum_at ps i ≡ datum_of p
datum_at-datum_of [] i e = cc
datum_at-datum_of (q ∷ ps) zero {p} e = let same : q ≡ p = ground (arith, e) in ap datum_of same
datum_at-datum_of (q ∷ ps) (suc i) {p} e = datum_at-datum_of ps i {p = p} e

pub datum_at-set_other :
    (ps : List Phase) (i j : ℕ) (p : Phase)
    → (i == j) ≡ false
    → datum_at (set ps i p) j ≡ datum_at ps j
datum_at-set_other [] i j p e = refl
datum_at-set_other (q ∷ ps) zero zero p e = absurd (ground (arith, e))
datum_at-set_other (q ∷ ps) zero (suc j) p e = refl
datum_at-set_other (q ∷ ps) (suc i) zero p e = refl
datum_at-set_other (q ∷ ps) (suc i) (suc j) p e = datum_at-set_other ps i j p (ground (arith, e))

datum_of-wake : (p : Phase) → datum_of (wake p) ≡ datum_of p
unfolding wake
datum_of-wake looking = refl
datum_of-wake (calculating d) = refl
datum_of-wake (asleep d) = refl
datum_of-wake returned = refl

pub datum_at-notify_all : (ps : List Phase) (i : ℕ) → datum_at (notify_all ps) i ≡ datum_at ps i
unfolding notify_all
datum_at-notify_all [] i = refl
datum_at-notify_all (p ∷ ps) zero = datum_of-wake p
datum_at-notify_all (p ∷ ps) (suc i) = datum_at-notify_all ps i

-- A thread that falls asleep keeps its datum.
pub datum_at-set_same :
    (ps : List Phase) (i j d : ℕ) (p : Phase)
    → datum_at ps i ≡ some d
    → datum_of p ≡ some d
    → datum_at (set ps i p) j ≡ datum_at ps j
datum_at-set_same [] i j d p e f = refl
datum_at-set_same (q ∷ ps) zero zero d p e f = f ∙ sym e
datum_at-set_same (q ∷ ps) zero (suc j) d p e f = refl
datum_at-set_same (q ∷ ps) (suc i) zero d p e f = refl
datum_at-set_same (q ∷ ps) (suc i) (suc j) d p e f = datum_at-set_same ps i j d p e f

abbrev pub is_among : ℕ → List ℕ → Bool
is_among i [] = false
is_among i (j ∷ q) = (j == i) || is_among i q

-- Each thread of the queue is there once, and holds the datum at its place.
abbrev pub Holds : List Phase → List ℕ → List ℕ → Type 0
Holds ps [] [] = Unit {0}
Holds ps [] (v ∷ vs) = ⊥
Holds ps (i ∷ q) [] = ⊥
Holds ps (i ∷ q) (v ∷ vs) = (datum_at ps i ≡ some v) × (is_among i q ≡ false) × Holds ps q vs

-- A thread that holds nothing is not in the queue.
pub Holds-absent :
    (ps : List Phase) (q vs : List ℕ) (i : ℕ)
    → Holds ps q vs
    → datum_at ps i ≡ none
    → is_among i q ≡ false
Holds-absent ps [] [] i h e = refl
Holds-absent ps [] (v ∷ vs) i h e = elim h [ ]
Holds-absent ps (j ∷ q) [] i h e = elim h [ ]
Holds-absent ps (j ∷ q) (v ∷ vs) i h e = elim (Bool-cases (j == i)) [
  | inl same ↦
      let at_i : j ≡ i = ground (arith, same) in
      let met : none ≡ some v = sym e ∙ ap (datum_at ps) (sym at_i) ∙ h.0 in
      absurd (ground (arith, met))
  | inr other ↦ rw other (Holds-absent ps q vs i h.2 e)
]

-- Threads that are not in the queue can change.
pub Holds-same :
    (ps ps' : List Phase) (q vs : List ℕ)
    → ((j : ℕ) → is_among j q ≡ true → datum_at ps' j ≡ datum_at ps j)
    → Holds ps q vs
    → Holds ps' q vs
Holds-same ps ps' [] [] e h = tt
Holds-same ps ps' [] (v ∷ vs) e h = elim h [ ]
Holds-same ps ps' (j ∷ q) [] e h = elim h [ ]
Holds-same ps ps' (j ∷ q) (v ∷ vs) e h =
    (e j (ground arith) ∙ h.0, h.1, Holds-same ps ps' q vs (λ i a. e i (ground (arith, a))) h.2)

pub Holds-set :
    (ps : List Phase) (q vs : List ℕ) (i : ℕ) (p : Phase)
    → is_among i q ≡ false
    → Holds ps q vs
    → Holds (set ps i p) q vs
Holds-set ps q vs i p a h =
    Holds-same ps (set ps i p) q vs
      (λ j b. datum_at-set_other ps i j p (apart j (Bool-cases (i == j)) b)) h
  where
    apart :
        (j : ℕ) → ((i == j) ≡ true) ⊎ ((i == j) ≡ false) → is_among j q ≡ true → (i == j) ≡ false
    apart j (inr other) b = other
    apart j (inl same) b =
        let at_j : i ≡ j = ground (arith, same) in
        let met : true ≡ false = sym b ∙ ap (λ k. is_among k q) (sym at_j) ∙ a in cc

pub is_among-append :
    (j i : ℕ) (q : List ℕ) → is_among j (q ++ (i ∷ [])) ≡ (is_among j q || (i == j))
is_among-append j i [] = ground arith
is_among-append j i (k ∷ q) = ground (arith, is_among-append j i q)

pub Holds-append :
    (ps : List Phase) (q vs : List ℕ) (i v : ℕ)
    → Holds ps q vs
    → datum_at ps i ≡ some v
    → is_among i q ≡ false
    → Holds ps (q ++ (i ∷ [])) (vs ++ (v ∷ []))
Holds-append ps [] [] i v h e a = (e, refl, tt)
Holds-append ps [] (w ∷ vs) i v h e a = elim h [ ]
Holds-append ps (j ∷ q) [] i v h e a = elim h [ ]
Holds-append ps (j ∷ q) (w ∷ vs) i v h e a = (
  h.0,
  is_among-append j i q ∙ ground (arith, a, h.1),
  Holds-append ps q vs i v h.2 e (ground arith),
)
