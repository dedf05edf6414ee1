-- ===== src/Base/Number/Digits.antt =====
-- The decimal digits of a number are read back as that number.
use Prim.Native.Nat.{ℕ, zero, suc, ◌+◌, ◌/◌, ◌%◌, ◌≤◌, ◌<◌}
use mathlib.Core.Path.{◌≡◌, refl}
use mathlib.Core.Logic.{inl, inr}
use mathlib.Core.Bool.{Bool, true, false, not}
use mathlib.Core.List.{[], ◌∷◌}
use mathlib.Core.Option.{some}
use native.Mathlib.Omega.{arith}
use cs.Base.Tests.{ltb, Bool-cases}
use cs.Base.Lists.{all}
use cs.Base.Text.{Text}
use cs.Base.Int.{pos}
use cs.Base.Number.{
  show_digits, show_nat, digit_value, digit_in, read_digits, is_space, strtol, long_max, converted,
  stoi,
}

digit_in-digit : (d : ℕ) → d < 10 → digit_in 10 (b'0' + d) ≡ some d
unfolding digit_in digit_value
digit_in-digit d h = ground arith

pub read_digits-show_digits :
    (f n acc : ℕ) (s : Text) → n ≤ f → read_digits 10 0 (show_digits f n s) ≡ read_digits 10 n s
unfolding show_digits read_digits
read_digits-show_digits zero n acc s h = ground (arith, digit_in-digit (n % 10))
read_digits-show_digits (suc f) n acc s h = elim (Bool-cases (ltb n 10)) [
  | inl small ↦ ground (arith, small, digit_in-digit n)
  | inr large ↦ ground (
    arith,
    large,
    digit_in-digit (n % 10),
    read_digits-show_digits f (n / 10) acc ((b'0' + n % 10) ∷ s),
  )
]

-- The text of a number starts with a digit.
pub show_digits_head :
    (f n : ℕ) (s : Text)
    → (c : ℕ) × (t : Text) × (show_digits f n s ≡ c ∷ t) × (b'0' ≤ c) × (c ≤ b'9')
unfolding show_digits
show_digits_head zero n s = (b'0' + n % 10, s, refl, omega arith, omega arith)
show_digits_head (suc f) n s = elim (Bool-cases (ltb n 10)) [
  | inl small ↦ (b'0' + n, s, rw small, omega arith, ground (arith, small))
  | inr large ↦
      let (c, t, e, low, high) = show_digits_head f (n / 10) ((b'0' + n % 10) ∷ s) in
      (c, t, rw large e, low, high)
]

abbrev pub no_space : ℕ → Bool
no_space c = not (is_space c)

-- What holds of every digit holds of all its characters.
pub show_digits-all :
    (p : ℕ → Bool)
    → ((d : ℕ) → d < 10 → p (b'0' + d) ≡ true)
    → (f n : ℕ) (s : Text) → all p s ≡ true
    → all p (show_digits f n s) ≡ true
unfolding show_digits
show_digits-all p digit zero n s h = ground (arith, h, digit (n % 10))
show_digits-all p digit (suc f) n s h = elim (Bool-cases (ltb n 10)) [
  | inl small ↦ ground (arith, small, h, digit n)
  | inr large ↦
      let rest = ((b'0' + n % 10) ∷ s) in
      ground
        (arith, large, show_digits-all p digit f (n / 10) rest (ground (arith, h, digit (n % 10))))
]

pub show_digits_solid :
    (f n : ℕ) (s : Text) → all no_space s ≡ true → all no_space (show_digits f n s) ≡ true
show_digits_solid = show_digits-all no_space (λ d h. unfold is_space in ground arith)

strtol_digits :
    (c : ℕ) (t : Text) {n : ℕ}
    → b'0' ≤ c
    → c ≤ b'9'
    → n ≤ long_max
    → read_digits 10 0 (c ∷ t) ≡ (n, [])
    → strtol 10 (c ∷ t) ≡ record { negative = false; value = n; rest = [] }
unfolding strtol is_space read_digits digit_in digit_value
strtol_digits c t low high small e = ground arith

pub strtol-show_nat :
    (n : ℕ)
    → n ≤ long_max
    → strtol 10 (show_nat n) ≡ record { negative = false; value = n; rest = [] }
unfolding show_nat read_digits
strtol-show_nat n small =
    let (c, t, e, low, high) = show_digits_head n n [] in
    rw e
      (strtol_digits c t low high small (rw e at (read_digits-show_digits n n 0 [] (omega arith))))

-- The digits are a word.
pub show_nat_word :
    (n : ℕ) → (c : ℕ) × (t : Text) × (show_nat n ≡ c ∷ t) × (all no_space (c ∷ t) ≡ true)
unfolding show_nat
show_nat_word n =
    let (c, t, e, low, high) = show_digits_head n n [] in
    (c, t, e, rw e at (show_digits_solid n n [] refl))

pub stoi-show_nat : (n : ℕ) → n ≤ 2147483647 → stoi (show_nat n) ≡ some (pos n)
unfolding stoi converted
stoi-show_nat n small =
    let (c, t, e, word) = show_nat_word n in rw (strtol-show_nat n (omega arith), e) (ground arith)
