-- ===== src/Base/Number.antt =====
-- Numbers in text: the decimal digits that an ostream prints, and strtol with its end pointer.
pub mod Digits
use Prim.Native.Nat.{ℕ, zero, suc, ◌+◌, ◌-◌, ◌*◌, ◌/◌, ◌%◌, min}
use mathlib.Core.Bool.{Bool, true, false, ◌&&◌, ◌||◌}
use mathlib.Core.List.{[], ◌∷◌}
use mathlib.Core.Option.{Option, none, some}
use cs.Base.Tests.{leb, ltb, ◌==◌, if◌then◌else◌}
use cs.Base.Text.{Text}
use cs.Base.Lists.{length}
use cs.Base.Int.{ℤ, pos, negsuc, signed}

-- The decimal digits of `n` before `acc`, with `n` itself as fuel: a round divides by ten.
unfoldable pub show_digits : ℕ → ℕ → Text → Text
show_digits zero n acc = (b'0' + n % 10) ∷ acc
show_digits (suc f) n acc =
    let more = show_digits f (n / 10) ((b'0' + n % 10) ∷ acc) in
    if ltb n 10 then (b'0' + n) ∷ acc else more

unfoldable pub show_nat : ℕ → Text
unfolding show_digits
show_nat n = show_digits n n []

unfoldable pub is_space : ℕ → Bool
is_space c = (c == 32) || (leb 9 c && leb c 13)

unfoldable pub is_digit : ℕ → Bool
is_digit c = leb b'0' c && leb c b'9'

-- The value of a digit in any base up to 16.
unfoldable pub digit_value : ℕ → Option ℕ
digit_value c =
    if leb b'0' c && leb c b'9'
    then some (c - b'0')
    else if leb b'a' c && leb c b'f'
    then some (c - b'a' + 10)
    else if leb b'A' c && leb c b'F'
    then some (c - b'A' + 10)
    else none

unfoldable pub skip_spaces : Text → Text
unfolding is_space
skip_spaces [] = []
skip_spaces (c ∷ s) = elim (is_space c) [ true ↦ skip_spaces s | false ↦ c ∷ s ]

-- What strtol returns: a sign, a magnitude, the text at its end pointer.
pub record Parsed : Type 0 where
  pub negative : Bool
  pub value : ℕ
  pub rest : Text

-- Is `c` a digit of this base?
unfoldable pub digit_in : ℕ → ℕ → Option ℕ
unfolding digit_value
digit_in base c = elim (digit_value c) [
  | none ↦ none
  | some d ↦ if ltb d base then some d else none
]

unfoldable pub read_digits : ℕ → ℕ → Text → ℕ × Text
unfolding digit_in
read_digits base acc [] = (acc, [])
read_digits base acc (c ∷ s) = elim (digit_in base c) [
  | none ↦ (acc, c ∷ s)
  | some d ↦ read_digits base (acc * base + d) s
]

-- LONG_MAX and -LONG_MIN of a 64-bit long.
abbrev pub long_max : ℕ
long_max = 9223372036854775807

unfoldable pub clamp_long : Bool → ℕ → ℕ
clamp_long negative n = min n (if negative then long_max + 1 else long_max)

-- The optional sign, then whether it was a minus.
unfoldable pub take_sign : Text → Bool × Text
take_sign [] = (false, [])
take_sign (c ∷ s) =
    if c == b'-' then (true, s) else (if c == b'+' then (false, s) else (false, c ∷ s))

-- Is there an 0x before a hexadecimal digit?
unfoldable pub has_hex_prefix : Text → Bool
unfolding digit_value
has_hex_prefix (z ∷ x ∷ d ∷ s) =
    (z == b'0')
    && ((x == b'x') || (x == b'X'))
    && (elim (digit_value d) [ none ↦ false | some v ↦ true ])
has_hex_prefix _ = false

unfoldable pub starts_with_zero : Text → Bool
starts_with_zero [] = false
starts_with_zero (c ∷ s) = c == b'0'

unfoldable pub drop_two : Text → Text
drop_two (a ∷ b ∷ s) = s
drop_two _ = []

-- The base that strtol settles on, and the text from its first digit.
unfoldable pub settle_base : ℕ → Text → ℕ × Text
unfolding has_hex_prefix starts_with_zero drop_two
settle_base base s =
    if ((base == 0) || (base == 16)) && has_hex_prefix s
    then (16, drop_two s)
    else (if base == 0 then (if starts_with_zero s then (8, s) else (10, s)) else (base, s))

-- With no digit there is no conversion: the value is 0 and the end pointer is the start.
unfoldable pub convert : Text → ℕ → Bool → Text → Parsed
unfolding digit_in read_digits clamp_long
convert start base negative [] = record { negative = false; value = 0; rest = start }
convert start base negative (c ∷ s) = elim (digit_in base c) [
  | none ↦ record { negative = false; value = 0; rest = start }
  | some d ↦
      let (n, rest) = read_digits base d s in
      record { negative = negative; value = clamp_long negative n; rest = rest }
]

unfoldable pub strtol : ℕ → Text → Parsed
unfolding skip_spaces take_sign settle_base convert
strtol base start =
    let (negative, s) = take_sign (skip_spaces start) in
    let (b, digits) = settle_base base s in convert start b negative digits

-- std::stoi and std::stol: none where they throw, since there is no number or it is out of range.
unfoldable pub converted : Text → Parsed → ℕ → Option ℤ
converted s p high =
    if length p.rest == length s
    then none
    else (if ltb (if p.negative then high + 1 else high) p.value
        then none
        else some (signed p.negative p.value))

unfoldable pub stoi : Text → Option ℤ
unfolding strtol converted
stoi s = converted s (strtol 10 s) 2147483647

-- What an ostream prints for an int or a long.
unfoldable pub show_int : ℤ → Text
unfolding show_nat
show_int (pos n) = show_nat n
show_int (negsuc n) = b'-' ∷ show_nat (suc n)
