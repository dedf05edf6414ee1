-- ===== src/Base/Stream/Lines.antt =====
-- What getline makes of a text that is put together from pieces without the delimiter.
use Prim.Native.Nat.{ℕ}
use mathlib.Core.Path.{◌≡◌, refl}
use mathlib.Core.Bool.{Bool, true, not}
use mathlib.Core.List.{[], ◌∷◌, ◌++◌}
use native.Mathlib.Omega.{arith}
use cs.Base.Tests.{◌==◌}
use cs.Base.Lists.{all}
use cs.Base.Text.{Text}
use cs.Base.Stream.{split_at}

-- Does the character not occur in the text?
abbrev pub lacks : ℕ → Text → Bool
lacks d s = all (λ c. not (c == d)) s

pub split_at-append : (d : ℕ) (s t : Text) → lacks d s ≡ true → split_at d (s ++ (d ∷ t)) ≡ (s, t)
unfolding split_at
split_at-append d [] t e = ground arith
split_at-append d (c ∷ s) t e = ground (arith, split_at-append d s t)

pub split_at_whole : (d : ℕ) (s : Text) → lacks d s ≡ true → split_at d s ≡ (s, [])
unfolding split_at
split_at_whole d [] e = refl
split_at_whole d (c ∷ s) e = ground (arith, split_at_whole d s)

pub lacks-append :
    (d : ℕ) (s t : Text) → lacks d s ≡ true → lacks d t ≡ true → lacks d (s ++ t) ≡ true
lacks-append d [] t e f = f
lacks-append d (c ∷ s) t e f = ground (arith, lacks-append d s t)
