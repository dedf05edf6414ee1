-- ===== src/Base/Lists.antt =====
-- Lists measured and indexed by native numbers, under the library's names, and the predicates
-- by recursion that the components state their invariants with.
use Prim.Native.Nat.{ℕ, zero, suc, ◌+◌, ◌-◌, ◌≤◌, ◌<◌, min}
use mathlib.Core.Path.{◌≡◌, refl, ap}
use mathlib.Core.Bool.{Bool, true, false, ◌&&◌, ◌||◌}
use mathlib.Core.List.{List, [], ◌∷◌, ◌++◌}
use mathlib.Core.Option.{Option, none, some}
use native.Mathlib.Omega.{arith}
use mathlib.Core.Logic.{inl, inr}
use cs.Base.Tests.{Bool-cases, ◌==◌}

module _ {ℓ} {A : Type ℓ} where
  abbrev pub length : List A → ℕ
  length [] = 0
  length (x ∷ xs) = suc (length xs)

  abbrev pub get_elem? : List A → ℕ → Option A
  get_elem? [] i = none
  get_elem? (x ∷ xs) zero = some x
  get_elem? (x ∷ xs) (suc i) = get_elem? xs i

  abbrev pub get_or : List A → ℕ → A → A
  get_or [] i d = d
  get_or (x ∷ xs) zero d = x
  get_or (x ∷ xs) (suc i) d = get_or xs i d

  abbrev pub set : List A → ℕ → A → List A
  set [] i v = []
  set (x ∷ xs) zero v = v ∷ xs
  set (x ∷ xs) (suc i) v = x ∷ set xs i v

  abbrev pub take : ℕ → List A → List A
  take zero xs = []
  take (suc n) [] = []
  take (suc n) (x ∷ xs) = x ∷ take n xs

  abbrev pub drop : ℕ → List A → List A
  drop zero xs = xs
  drop (suc n) [] = []
  drop (suc n) (x ∷ xs) = drop n xs

  abbrev pub replicate : ℕ → A → List A
  replicate zero a = []
  replicate (suc n) a = a ∷ replicate n a

  abbrev pub any : (A → Bool) → List A → Bool
  any p [] = false
  any p (x ∷ xs) = p x || any p xs

  abbrev pub all : (A → Bool) → List A → Bool
  all p [] = true
  all p (x ∷ xs) = p x && all p xs

  abbrev pub find : (A → Bool) → List A → Option A
  find p [] = none
  find p (x ∷ xs) = elim (p x) [ true ↦ some x | false ↦ find p xs ]

  abbrev pub count_by : (A → Bool) → List A → ℕ
  count_by p [] = 0
  count_by p (x ∷ xs) = elim (p x) [ true ↦ suc (count_by p xs) | false ↦ count_by p xs ]

  abbrev pub is_empty : List A → Bool
  is_empty [] = true
  is_empty (x ∷ xs) = false

module _ {ℓ} {A : Type ℓ} where
  pub length-append : (xs ys : List A) → length (xs ++ ys) ≡ length xs + length ys
  length-append [] ys = omega arith
  length-append (x ∷ xs) ys = omega (arith, length-append xs ys)

  pub append_assoc : (xs ys zs : List A) → (xs ++ ys) ++ zs ≡ xs ++ (ys ++ zs)
  append_assoc [] ys zs = refl
  append_assoc (x ∷ xs) ys zs = rw (append_assoc xs ys zs)

  pub length-take : (n : ℕ) (xs : List A) → length (take n xs) ≡ min n (length xs)
  length-take zero xs = omega arith
  length-take (suc n) [] = omega arith
  length-take (suc n) (x ∷ xs) = omega (arith, length-take n xs)

  pub length-drop : (n : ℕ) (xs : List A) → length (drop n xs) ≡ length xs - n
  length-drop zero xs = omega arith
  length-drop (suc n) [] = omega arith
  length-drop (suc n) (x ∷ xs) = omega (arith, length-drop n xs)

  pub length-replicate : (n : ℕ) (a : A) → length (replicate n a) ≡ n
  length-replicate zero a = refl
  length-replicate (suc n) a = ap suc (length-replicate n a)

  pub take-append-drop : (n : ℕ) (xs : List A) → take n xs ++ drop n xs ≡ xs
  take-append-drop zero xs = refl
  take-append-drop (suc n) [] = refl
  take-append-drop (suc n) (x ∷ xs) = rw (take-append-drop n xs)

  pub length-set : (xs : List A) (i : ℕ) (v : A) → length (set xs i v) ≡ length xs
  length-set [] i v = refl
  length-set (x ∷ xs) zero v = refl
  length-set (x ∷ xs) (suc i) v = ap suc (length-set xs i v)

  pub get_elem?-set_self :
      (xs : List A) (i : ℕ) (v : A) → i < length xs → get_elem? (set xs i v) i ≡ some v
  get_elem?-set_self [] i v h = elim h [ ]
  get_elem?-set_self (x ∷ xs) zero v h = refl
  get_elem?-set_self (x ∷ xs) (suc i) v h = get_elem?-set_self xs i v (omega arith)

  pub get_elem?-set_other :
      (xs : List A) (i j : ℕ) (v : A) → (i == j) ≡ false → get_elem? (set xs i v) j ≡ get_elem? xs j
  get_elem?-set_other [] i j v h = refl
  get_elem?-set_other (x ∷ xs) zero zero v h = absurd (ground arith)
  get_elem?-set_other (x ∷ xs) zero (suc j) v h = refl
  get_elem?-set_other (x ∷ xs) (suc i) zero v h = refl
  get_elem?-set_other (x ∷ xs) (suc i) (suc j) v h = get_elem?-set_other xs i j v (ground arith)

  pub get_elem?-within : (xs : List A) (i : ℕ) {v : A} → get_elem? xs i ≡ some v → i < length xs
  get_elem?-within [] i e = cc
  get_elem?-within (x ∷ xs) zero e = omega arith
  get_elem?-within (x ∷ xs) (suc i) {v} e = omega (arith, get_elem?-within xs i {v = v} e)

  pub count_by-append :
      (p : A → Bool) (xs ys : List A) → count_by p (xs ++ ys) ≡ count_by p xs + count_by p ys
  count_by-append p [] ys = omega arith
  count_by-append p (x ∷ xs) ys = ground (arith, count_by-append p xs ys)

  pub count_by-le-length : (p : A → Bool) (xs : List A) → count_by p xs ≤ length xs
  count_by-le-length p [] = omega arith
  count_by-le-length p (x ∷ xs) = ground (arith, count_by-le-length p xs)

  -- An invariant of every element, by recursion, so that it computes to a product.
  abbrev pub All {κ} : (A → Type κ) → List A → Type κ
  All P [] = Unit
  All P (x ∷ xs) = P x × All P xs

module _ {ℓ} {A : Type ℓ} where
  pub take-append_at : (n : ℕ) (xs ys : List A) → length xs ≡ n → take n (xs ++ ys) ≡ xs
  take-append_at zero [] ys e = refl
  take-append_at zero (x ∷ xs) ys e = absurd (omega arith)
  take-append_at (suc n) [] ys e = absurd (omega arith)
  take-append_at (suc n) (x ∷ xs) ys e = rw (take-append_at n xs ys (omega arith))

  pub drop-append_at : (n : ℕ) (xs ys : List A) → length xs ≡ n → drop n (xs ++ ys) ≡ ys
  drop-append_at zero [] ys e = refl
  drop-append_at zero (x ∷ xs) ys e = absurd (omega arith)
  drop-append_at (suc n) [] ys e = absurd (omega arith)
  drop-append_at (suc n) (x ∷ xs) ys e = drop-append_at n xs ys (omega arith)

  -- 1 where the test holds of an element, 0 otherwise.
  abbrev pub one_if : (A → Bool) → A → ℕ
  one_if p x = elim (p x) [ true ↦ 1 | false ↦ 0 ]

  -- A write changes a count by the elements that it exchanges.
  pub count_by-set :
      (p : A → Bool) (xs : List A) (i : ℕ) (v : A) {w : A}
      → get_elem? xs i ≡ some w
      → count_by p (set xs i v) + one_if p w ≡ one_if p v + count_by p xs
  count_by-set p [] i v e = cc
  count_by-set p (x ∷ xs) zero v {w} e = ground arith
  count_by-set p (x ∷ xs) (suc i) v {w} e = ground (arith, count_by-set p xs i v {w = w} e)

  -- The place of the first element that passes the test, and that element.
  abbrev pub find_index : (A → Bool) → List A → Option (ℕ × A)
  find_index p [] = none
  find_index p (x ∷ xs) = elim (p x) [
    | true ↦ some (0, x)
    | false ↦ elim (find_index p xs) [ none ↦ none | some (i, y) ↦ some (suc i, y) ]
  ]

  pub find_index_sound :
      (p : A → Bool) (xs : List A) (i : ℕ) (y : A)
      → find_index p xs ≡ some (i, y)
      → (get_elem? xs i ≡ some y) × (p y ≡ true)
  find_index_sound p [] i y e = cc
  find_index_sound p (x ∷ xs) zero y e = ground arith
  find_index_sound p (x ∷ xs) (suc i) y e = ground (arith, find_index_sound p xs i y)

  pub find_index_found :
      (p : A → Bool) (xs : List A)
      → 0 < count_by p xs
      → (i : ℕ) × (y : A) × (find_index p xs ≡ some (i, y))
  find_index_found p [] h = absurd (omega arith)
  find_index_found p (x ∷ xs) h = elim (Bool-cases (p x)) [
    | inl e ↦ (0, x, rw (find_index, e))
    | inr e ↦
        let (i, y, f) = find_index_found p xs (ground (arith, e)) in
        (suc i, y, rw (find_index, e, f))
  ]
