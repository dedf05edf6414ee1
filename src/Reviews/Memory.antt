-- ===== src/Reviews/Memory.antt =====
-- The files that assign1/amazon.cc maps into memory: their bytes by position, and their size. The
-- files end in a NUL, so the size is fuel enough for every string in them.
use cs.Base.{ℕ, zero, suc, ◌+◌, ◌*◌, [], ◌∷◌, true, false, ◌==◌}
use cs.Base.Text.{Text}

pub record File : Type 0 where
  pub byte : ℕ → ℕ
  pub size : ℕ

-- *(unsigned int *): four bytes, the least first
unfoldable pub word_at : File → ℕ → ℕ
word_at f i = f.byte i + 256 * f.byte (i + 1) + 65536 * f.byte (i + 2) + 16777216 * f.byte (i + 3)

-- std::string of a C string
unfoldable pub string_from : ℕ → File → ℕ → Text
string_from zero f i = []
string_from (suc fuel) f i = elim (f.byte i == 0) [
  | true ↦ []
  | false ↦ f.byte i ∷ string_from fuel f (suc i)
]

unfoldable pub string_at : File → ℕ → Text
unfolding string_from
string_at f i = string_from f.size f i

-- getElementStartPtr: the offset that stands at an index of the array behind the count
unfoldable pub element_start : File → ℕ → ℕ
unfolding word_at
element_start f index = word_at f (4 + 4 * index)
