-- ===== src/Base/TextOrder.antt =====
-- The order of std::string, as the order of a std::map's keys.
use mathlib.Core.Path.{◌≡◌, refl}
use mathlib.Core.Bool.{true, false}
use mathlib.Core.List.{[], ◌∷◌}
use native.Mathlib.Omega.{arith}
use cs.Base.Text.{Text, lt_text}
use cs.Base.Map.{Order, same_key}

pub lt_text_irrefl : (s : Text) → lt_text s s ≡ false
unfolding lt_text
lt_text_irrefl [] = refl
lt_text_irrefl (x ∷ xs) = ground (arith, lt_text_irrefl xs)

-- Texts neither of which is less are equal.
pub lt_text_total : (s t : Text) → lt_text s t ≡ false → lt_text t s ≡ false → s ≡ t
unfolding lt_text
lt_text_total [] [] p q = refl
lt_text_total [] (y ∷ ys) p q = cc
lt_text_total (x ∷ xs) [] p q = cc
lt_text_total (x ∷ xs) (y ∷ ys) p q = ground (arith, lt_text_total xs ys)

pub lt_text_equiv_trans :
    (a b c : Text)
    → lt_text a b ≡ false
    → lt_text b a ≡ false
    → lt_text b c ≡ false
    → lt_text c b ≡ false
    → lt_text a c ≡ false
lt_text_equiv_trans a b c p q r s = rw (lt_text_total a b p q) r

instance abbrev pub Text_order : Order Text
Text_order = record { lt = lt_text; lt_irrefl = lt_text_irrefl; equiv_trans = lt_text_equiv_trans }

-- For texts the map's notion of one key is equality.
pub same_key_refl : (s : Text) → same_key s s ≡ true
same_key_refl s = rw (lt_text_irrefl s)

pub same_key→≡ : (s t : Text) → same_key s t ≡ true → s ≡ t
same_key→≡ s t e = ground (arith, lt_text_total s t)

pub lt_text_asymm : (s t : Text) → lt_text s t ≡ true → lt_text t s ≡ false
unfolding lt_text
lt_text_asymm [] [] p = refl
lt_text_asymm [] (y ∷ ys) p = refl
lt_text_asymm (x ∷ xs) [] p = cc
lt_text_asymm (x ∷ xs) (y ∷ ys) p = ground (arith, lt_text_asymm xs ys)
