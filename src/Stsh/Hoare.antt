-- ===== src/Stsh/Hoare.antt =====
-- Postconditions of commands of the shell: `Q` of the value and the state where a command ends
-- normally, `P` of the state where it throws, exits or blocks.
use cs.Base.{Bool, true, false}
use cs.Stsh.Shell.{Shell, Result, M, ok, throw, exit, blocked, continue_with, when}
use cs.Base.{◌≡◌, refl}

abbrev pub Ensures {ℓ} :
    {A : Type 0} → (Shell → Type ℓ) → (A → Shell → Type ℓ) → Result A × Shell → Type ℓ
Ensures P Q (ok a, s) = Q a s
Ensures P Q (throw e, s) = P s
Ensures P Q (exit, s) = P s
Ensures P Q (blocked, s) = P s

module _ {ℓ} {A B : Type 0} (P : Shell → Type ℓ) (Q : A → Shell → Type ℓ)
    (R : B → Shell → Type ℓ) where
  pub bind-Ensures :
      (r : Result A × Shell) (f : A → M B)
      → Ensures P Q r
      → ((a : A) (s : Shell) → Q a s → Ensures P R (f a s))
      → Ensures P R (continue_with r f)
  bind-Ensures (ok a, s) f h k = k a s h
  bind-Ensures (throw e, s) f h k = h
  bind-Ensures (exit, s) f h k = h
  bind-Ensures (blocked, s) f h k = h

-- What holds however the command ends.
pub Ensures-final {ℓ} :
    {A : Type 0} (P : Shell → Type ℓ) (r : Result A × Shell) → Ensures P (λ _. P) r → P r.1
Ensures-final P (ok a, s) h = h
Ensures-final P (throw e, s) h = h
Ensures-final P (exit, s) h = h
Ensures-final P (blocked, s) h = h

pub final-Ensures {ℓ} :
    {A : Type 0} (P : Shell → Type ℓ) (r : Result A × Shell) → P r.1 → Ensures P (λ _. P) r
final-Ensures P (ok a, s) h = h
final-Ensures P (throw e, s) h = h
final-Ensures P (exit, s) h = h
final-Ensures P (blocked, s) h = h

pub when-Ensures {ℓ} :
    (P : Shell → Type ℓ) (Q : Unit {0} → Shell → Type ℓ) (b : Bool) (m : M (Unit {0})) (s : Shell)
    → Q tt s
    → (b ≡ true → Ensures P Q (m s))
    → Ensures P Q (when b m s)
when-Ensures P Q true m s q h = h refl
when-Ensures P Q false m s q h = q

pub weaken-Ensures {ℓ} :
    {A : Type 0} (P P' : Shell → Type ℓ) (Q : A → Shell → Type ℓ) (r : Result A × Shell)
    → ((s : Shell) → P s → P' s)
    → Ensures P Q r
    → Ensures P' Q r
weaken-Ensures P P' Q (ok a, s) k h = h
weaken-Ensures P P' Q (throw e, s) k h = k s h
weaken-Ensures P P' Q (exit, s) k h = k s h
weaken-Ensures P P' Q (blocked, s) k h = k s h
