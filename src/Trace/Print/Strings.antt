-- ===== src/Trace/Print/Strings.antt =====
-- The string that readString puts together out of chunks of eight bytes.
use native.Mathlib.Decide.{dec_lt}
use mathlib.Core.Path.{ap₂}
use cs.Base.{
  sym, ℕ, zero, suc, ◌+◌, ◌-◌, ◌<◌, ◌≡◌, ◌≢◌, refl, ap, ◌∙◌, ◌∷◌, ◌++◌, none, some, true, false,
  arith, take, ◌==◌,
}
use cs.Base.Text.{Text, find_char}
use cs.Trace.Print.{bytes_at, peek, read_string}

differs : (a : ℕ) → a ≢ 0 → (0 == a) ≡ false
differs a h = ground arith

-- A chunk with a NUL in it, the first at place n.
chunk_end :
    (k n : ℕ) (memory : ℕ → ℕ) (addr : ℕ)
    → n < k
    → memory (addr + n) ≡ 0
    → ((j : ℕ) → j < n → memory (addr + j) ≢ 0)
    → (find_char 0 (bytes_at memory addr k) ≡ some n)
      × (take n (bytes_at memory addr k) ≡ bytes_at memory addr n)
unfolding find_char bytes_at
chunk_end zero n memory addr h e f = absurd (omega arith)
chunk_end (suc k) zero memory addr h e f =
    (rw (find_char, here (sym (ap memory (omega arith)) ∙ e)) refl, refl)
  where
    here : memory addr ≡ 0 → (0 == memory addr) ≡ true
    here q = ground (arith, q)
chunk_end (suc k) (suc n) memory addr h e f =
    let (found, front) =
      chunk_end k n memory (suc addr) (omega arith) (ap memory (omega arith) ∙ e)
        (λ j p q. f (suc j) (omega arith) (ap memory (omega arith) ∙ q)) in
    (rw (find_char, not_zero, found) refl, ap (λ s. memory addr ∷ s) front)
  where
    not_zero : (0 == memory addr) ≡ false
    not_zero = differs (memory addr) (λ q. f 0 (omega arith) (ap memory (omega arith) ∙ q))

-- A chunk without one.
chunk_full :
    (k : ℕ) (memory : ℕ → ℕ) (addr : ℕ)
    → ((j : ℕ) → j < k → memory (addr + j) ≢ 0)
    → find_char 0 (bytes_at memory addr k) ≡ none
unfolding find_char bytes_at
chunk_full zero memory addr f = refl
chunk_full (suc k) memory addr f =
    rw
      (
        find_char,
        differs (memory addr) (λ q. f 0 (omega arith) (ap memory (omega arith) ∙ q)),
        chunk_full k memory (suc addr)
            (λ j p q. f (suc j) (omega arith) (ap memory (omega arith) ∙ q)),
      )
      refl

moved : (memory : ℕ → ℕ) (a b m n : ℕ) → a ≡ b → m ≡ n → bytes_at memory a m ≡ bytes_at memory b n
moved memory a b m n e f = ap₂ (bytes_at memory) e f

bytes_at-add :
    (k n : ℕ) (memory : ℕ → ℕ) (addr : ℕ)
    → bytes_at memory addr (k + n) ≡ bytes_at memory addr k ++ bytes_at memory (addr + k) n
unfolding bytes_at
bytes_at-add zero n memory addr = moved memory addr (addr + 0) (0 + n) n (omega arith) (omega arith)
bytes_at-add (suc k) n memory addr =
    moved memory addr addr (suc k + n) (suc (k + n)) refl (omega arith)
    ∙ ap (λ s. memory addr ∷ s)
        (bytes_at-add k n memory (suc addr)
          ∙ ap (λ s. bytes_at memory (suc addr) k ++ s)
              (moved memory (suc addr + k) (addr + suc k) n n (omega arith) refl))

read_string_end :
    (fuel n : ℕ) (memory : ℕ → ℕ) (addr : ℕ)
    → find_char 0 (peek memory addr) ≡ some n
    → read_string (suc fuel) memory addr ≡ some (take n (peek memory addr))
unfolding read_string
read_string_end fuel n memory addr e = rw (read_string, e) refl

read_string_more :
    (fuel : ℕ) (memory : ℕ → ℕ) (addr : ℕ) (s : Text)
    → find_char 0 (peek memory addr) ≡ none
    → read_string fuel memory (addr + 8) ≡ some s
    → read_string (suc fuel) memory addr ≡ some (peek memory addr ++ s)
unfolding read_string
read_string_more fuel memory addr s e f = rw (read_string, e, f) refl

-- readString returns the bytes up to the first NUL, wherever that stands and however the string
-- lies over the chunks, and makes no more rounds than there are bytes before the NUL and one more.
pub read_string-bytes_at :
    (fuel n : ℕ) (memory : ℕ → ℕ) (addr : ℕ)
    → n < fuel
    → memory (addr + n) ≡ 0
    → ((k : ℕ) → k < n → memory (addr + k) ≢ 0)
    → read_string fuel memory addr ≡ some (bytes_at memory addr n)
unfolding peek
read_string-bytes_at zero n memory addr h e f = absurd (omega arith)
read_string-bytes_at (suc fuel) n memory addr h e f = elim (dec_lt n 8) [
  | yes ends ↦
      let (found, front) = chunk_end 8 n memory addr ends e f in
      read_string_end fuel n memory addr found ∙ ap some front
  | no goes_on ↦
      read_string_more fuel memory addr (bytes_at memory (addr + 8) (n - 8))
        (chunk_full 8 memory addr (λ j p. f j (omega arith)))
        (read_string-bytes_at fuel (n - 8) memory (addr + 8) (omega arith)
          (moved_byte (addr + 8 + (n - 8)) (addr + n) (omega arith) e)
          (λ j p q.
            f (8 + j) (omega arith) (moved_byte (addr + (8 + j)) (addr + 8 + j) (omega arith) q)))
      ∙ ap some (
          sym (bytes_at-add 8 (n - 8) memory addr)
          ∙ moved memory addr addr (8 + (n - 8)) n refl (omega arith))
]
  where
    moved_byte : (a b : ℕ) → a ≡ b → memory b ≡ 0 → memory a ≡ 0
    moved_byte a b p q = ap memory p ∙ q
