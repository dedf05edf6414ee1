-- ===== src/Base/Int.antt =====
-- Signed integers: the values of int and long.
use Prim.Native.Nat.{ℕ, suc, ◌+◌, ◌-◌, ◌%◌}
use mathlib.Core.Bool.{Bool, true}
use cs.Base.Tests.{ltb, leb, if◌then◌else◌}

-- `negsuc n` is -(n + 1).
pub data ℤ : Type 0 where
  pos : ℕ → ℤ
  negsuc : ℕ → ℤ

abbrev pub pos_part : ℤ → ℕ
pos_part (pos n) = n
pos_part (negsuc n) = 0

abbrev pub neg_part : ℤ → ℕ
neg_part (pos n) = 0
neg_part (negsuc n) = suc n

abbrev pub ltb_ℤ : ℤ → ℤ → Bool
ltb_ℤ a b = ltb (pos_part a + neg_part b) (pos_part b + neg_part a)

abbrev pub leb_ℤ : ℤ → ℤ → Bool
leb_ℤ a b = leb (pos_part a + neg_part b) (pos_part b + neg_part a)

abbrev pub min_ℤ : ℤ → ℤ → ℤ
min_ℤ a b = if ltb_ℤ b a then b else a

-- From a sign and a magnitude.
abbrev pub signed : Bool → ℕ → ℤ
signed true (suc n) = negsuc n
signed _ n = pos n

-- The value modulo 2 ^ 64 (size_t) and 2 ^ 16 (unsigned short), as a conversion gives it.
abbrev pub to_size : ℤ → ℕ
to_size (pos n) = n % 18446744073709551616
to_size (negsuc n) = 18446744073709551615 - n % 18446744073709551616

abbrev pub to_ushort : ℤ → ℕ
to_ushort (pos n) = n % 65536
to_ushort (negsuc n) = 65535 - n % 65536

-- The value as a 32-bit int: the low 32 bits, read in two's complement.
abbrev pub wrap_int : ℕ → ℤ
wrap_int n = if ltb n 2147483648 then pos n else negsuc (4294967295 - n)

abbrev pub to_int : ℤ → ℤ
to_int (pos n) = wrap_int (n % 4294967296)
to_int (negsuc n) = wrap_int (4294967295 - n % 4294967296)
