-- ===== src/Base/Ascending.antt =====
-- Lists of pairs whose keys ascend, as a std::map of texts is one.
use mathlib.Core.List.{List, [], ◌∷◌, ◌++◌}
use mathlib.Core.Path.{◌≡◌, refl}
use mathlib.Core.Bool.{true}
use native.Mathlib.Omega.{arith}
use cs.Base.Lists.{All}
use cs.Base.Text.{Text, lt_text}
use cs.Base.TextOrder.{Text_order, lt_text_asymm}
use cs.Base.Map.{insert}

module _ {ℓ} {V : Type ℓ} where
  -- Every key of the map stands before this one.
  abbrev pub Below : List (Text × V) → Text → Type 0
  Below m name = All (λ (e : Text × V). lt_text e.0 name ≡ true) m

  abbrev pub IsOrdered : List (Text × V) → Type 0
  IsOrdered [] = Unit {0}
  IsOrdered ((name, v) ∷ m) = All (λ (e : Text × V). lt_text name e.0 ≡ true) m × IsOrdered m

  -- Every key of the second map stands behind all of the first.
  abbrev pub Follows : List (Text × V) → List (Text × V) → Type 0
  Follows m rest = All (λ (e : Text × V). Below m e.0) rest

  pub insert_last :
      (name : Text) (v : V) (m : List (Text × V))
      → Below m name
      → insert name v m ≡ m ++ ((name, v) ∷ [])
  unfolding insert
  insert_last name v [] b = refl
  insert_last name v ((k, w) ∷ m) b = ground (arith, lt_text_asymm k name, insert_last name v m)

  pub Below-snoc :
      (m : List (Text × V)) (name : Text) (v : V) (k : Text)
      → Below m k
      → lt_text name k ≡ true
      → Below (m ++ ((name, v) ∷ [])) k
  Below-snoc [] name v k b h = (h, tt)
  Below-snoc (e ∷ m) name v k b h = (b.0, Below-snoc m name v k b.1 h)

  pub Follows-snoc :
      (m : List (Text × V)) (name : Text) (v : V) (rest : List (Text × V))
      → Follows m rest
      → All (λ (e : Text × V). lt_text name e.0 ≡ true) rest
      → Follows (m ++ ((name, v) ∷ [])) rest
  Follows-snoc m name v [] f h = tt
  Follows-snoc m name v ((k, s) ∷ rest) f h =
      (Below-snoc m name v k f.0 h.0, Follows-snoc m name v rest f.1 h.1)

  pub Follows-nil : (rest : List (Text × V)) → Follows [] rest
  Follows-nil [] = tt
  Follows-nil (e ∷ rest) = (tt, Follows-nil rest)
