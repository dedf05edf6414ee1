-- ===== src/Base/Map.antt =====
-- std::map: pairs in the order of their keys, under an order that may identify keys.
use mathlib.Core.Path.{◌≡◌, refl}
use mathlib.Core.Bool.{Bool, false, not, ◌&&◌}
use mathlib.Core.List.{List, [], ◌∷◌}
use mathlib.Core.Option.{Option, none, some}
use native.Mathlib.Omega.{arith}
use Prim.Native.Nat.{ℕ}
use cs.Base.Tests.{ltb, if◌then◌else◌}
use cs.Base.Int.{ℤ, ltb_ℤ}

-- A strict weak order, as the key type of a std::map declares it by `operator<`.
pub record Order {ℓ} (K : Type ℓ) : Type ℓ where
  pub lt : K → K → Bool
  pub lt_irrefl : (a : K) → lt a a ≡ false
  pub equiv_trans :
      (a b c : K)
      → lt a b ≡ false
      → lt b a ≡ false
      → lt b c ≡ false
      → lt c b ≡ false
      → lt a c ≡ false

pub ltb_irrefl : (a : ℕ) → ltb a a ≡ false
ltb_irrefl a = ground arith

pub ltb_equiv_trans :
    (a b c : ℕ)
    → ltb a b ≡ false
    → ltb b a ≡ false
    → ltb b c ≡ false
    → ltb c b ≡ false
    → ltb a c ≡ false
ltb_equiv_trans a b c p q r s = ground arith

module _ {ℓ} {K : Type ℓ} ⦃o : Order K⦄ where
  -- Neither is less: the map takes the two for one key.
  abbrev pub same_key : K → K → Bool
  same_key a b = not (o.lt a b) && not (o.lt b a)

module _ {ℓ κ} {K : Type ℓ} {V : Type κ} ⦃o : Order K⦄ where
  -- find
  unfoldable pub lookup : K → List (K × V) → Option V
  lookup k [] = none
  lookup k ((j, v) ∷ m) = if same_key j k then some v else lookup k m

  -- m[k] = v; an equivalent key that is there already stays as it is written
  unfoldable pub insert : K → V → List (K × V) → List (K × V)
  insert k v [] = (k, v) ∷ []
  insert k v ((j, w) ∷ m) =
      if o.lt k j
      then (k, v) ∷ (j, w) ∷ m
      else (if o.lt j k then (j, w) ∷ insert k v m else (j, v) ∷ m)

  -- erase
  unfoldable pub erase : K → List (K × V) → List (K × V)
  erase k [] = []
  erase k ((j, w) ∷ m) = if same_key j k then erase k m else (j, w) ∷ erase k m

  pub lookup-insert :
      (k j : K) (v : V) (m : List (K × V))
      → lookup j (insert k v m) ≡ (if same_key k j then some v else lookup j m)
  unfolding lookup insert
  lookup-insert k j v [] = refl
  lookup-insert k j v ((i, w) ∷ m) = ground (
    arith,
    lookup-insert k j v m,
    o.equiv_trans i j k,
    o.equiv_trans k j i,
    o.equiv_trans i k j,
    o.equiv_trans j k i,
    o.equiv_trans k i j,
    o.equiv_trans j i k,
  )

  pub lookup-erase :
      (k j : K) (m : List (K × V))
      → lookup j (erase k m) ≡ (if same_key k j then none else lookup j m)
  unfolding lookup erase
  lookup-erase k j [] = ground arith
  lookup-erase k j ((i, w) ∷ m) = ground (
    arith,
    lookup-erase k j m,
    o.equiv_trans i j k,
    o.equiv_trans k j i,
    o.equiv_trans i k j,
    o.equiv_trans j k i,
    o.equiv_trans k i j,
    o.equiv_trans j i k,
  )

instance abbrev pub ℕ_order : Order ℕ
ℕ_order = record { lt = ltb; lt_irrefl = ltb_irrefl; equiv_trans = ltb_equiv_trans }

pub ltb_ℤ_irrefl : (a : ℤ) → ltb_ℤ a a ≡ false
ltb_ℤ_irrefl a = ground arith

pub ltb_ℤ_equiv_trans :
    (a b c : ℤ)
    → ltb_ℤ a b ≡ false
    → ltb_ℤ b a ≡ false
    → ltb_ℤ b c ≡ false
    → ltb_ℤ c b ≡ false
    → ltb_ℤ a c ≡ false
ltb_ℤ_equiv_trans a b c p q r s = ground arith

instance abbrev pub ℤ_order : Order ℤ
ℤ_order = record { lt = ltb_ℤ; lt_irrefl = ltb_ℤ_irrefl; equiv_trans = ltb_ℤ_equiv_trans }
