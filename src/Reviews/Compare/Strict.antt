-- ===== src/Reviews/Compare/Strict.antt =====
-- The order of the reviews is one that std::sort may be given.
use cs.Base.{
  List, [], ◌∷◌, Bool, true, false, ◌≡◌, refl, arith, Bool-cases, inl, inr, ap, ◌⊎◌, sym, ◌∙◌, ltb,
  not, ◌&&◌, ◌||◌, length,
}
use cs.Base.Text.{Text, lt_text}
use cs.Base.TextOrder.{lt_text_irrefl, lt_text_total}
use cs.Base.Int.{ℤ, pos, negsuc, ltb_ℤ}
use cs.Reviews.Record.{Review}
use cs.Reviews.Compare.{
  PrimaryKey, Value, number, text, lt_value, lt_tuple, ties, generic_review_compare, date,
  body_size, stars, title_size,
}

lt_text_trans : (s t u : Text) → lt_text s t ≡ true → lt_text t u ≡ true → lt_text s u ≡ true
unfolding lt_text
lt_text_trans s [] u p q = cc
lt_text_trans s (y ∷ t) [] p q = q
lt_text_trans [] (y ∷ t) (z ∷ u) p q = refl
lt_text_trans (x ∷ s) (y ∷ t) (z ∷ u) p q = ground (arith, lt_text_trans s t u)

lt_value_trans : (a b c : Value) → lt_value a b ≡ true → lt_value b c ≡ true → lt_value a c ≡ true
unfolding lt_value
lt_value_trans (number a) (number b) (number c) p q = ground arith
lt_value_trans (number a) (number b) (text u) p q = refl
lt_value_trans (number a) (text t) (number c) p q = cc
lt_value_trans (number a) (text t) (text u) p q = refl
lt_value_trans (text s) (number b) c p q = cc
lt_value_trans (text s) (text t) (number c) p q = q
lt_value_trans (text s) (text t) (text u) p q = lt_text_trans s t u p q

int_total : (a b : ℤ) → ltb_ℤ a b ≡ false → ltb_ℤ b a ≡ false → a ≡ b
int_total (pos a) (pos b) p q = ap pos (ground arith)
int_total (pos a) (negsuc b) p q = absurd (ground arith)
int_total (negsuc a) (pos b) p q = absurd (ground arith)
int_total (negsuc a) (negsuc b) p q = ap negsuc (ground arith)

lt_value_total : (a b : Value) → lt_value a b ≡ false → lt_value b a ≡ false → a ≡ b
unfolding lt_value
lt_value_total (number a) (number b) p q = ap number (int_total a b p q)
lt_value_total (number a) (text t) p q = cc
lt_value_total (text s) (number b) p q = cc
lt_value_total (text s) (text t) p q = ap text (lt_text_total s t p q)

lt_value_irrefl : (a : Value) → lt_value a a ≡ false
unfolding lt_value
lt_value_irrefl (number a) = ground arith
lt_value_irrefl (text s) = lt_text_irrefl s

-- A first value that differs decides.
lt_tuple_cases :
    (x y : Value) (xs ys : List Value)
    → lt_tuple (x ∷ xs) (y ∷ ys) ≡ true
    → (lt_value x y ≡ true) ⊎ (x ≡ y) × (lt_tuple xs ys ≡ true)
unfolding lt_tuple
lt_tuple_cases x y xs ys p = elim (Bool-cases (lt_value x y)) [
  | inl less ↦ inl less
  | inr not_less ↦ elim (Bool-cases (lt_value y x)) [
    | inl more ↦ absurd (ground arith)
    | inr not_more ↦ inr (lt_value_total x y not_less not_more, ground arith)
  ]
]

lt_tuple_head :
    (x y : Value) (xs ys : List Value) → lt_value x y ≡ true → lt_tuple (x ∷ xs) (y ∷ ys) ≡ true
unfolding lt_tuple
lt_tuple_head x y xs ys p = ground arith

lt_tuple_tail :
    (x y : Value) (xs ys : List Value)
    → x ≡ y
    → lt_tuple xs ys ≡ true
    → lt_tuple (x ∷ xs) (y ∷ ys) ≡ true
unfolding lt_tuple
lt_tuple_tail x y xs ys e p = rw (e, lt_value_irrefl y, p) refl

lt_tuple_trans :
    (a b c : List Value) → lt_tuple a b ≡ true → lt_tuple b c ≡ true → lt_tuple a c ≡ true
unfolding lt_tuple
lt_tuple_trans a [] c p q = cc
lt_tuple_trans a (y ∷ b) [] p q = cc
lt_tuple_trans [] (y ∷ b) (z ∷ c) p q = refl
lt_tuple_trans (x ∷ a) (y ∷ b) (z ∷ c) p q = elim (lt_tuple_cases x y a b p) [
  | inl f ↦ elim (lt_tuple_cases y z b c q) [
    | inl g ↦ lt_tuple_head x z a c (lt_value_trans x y z f g)
    | inr g ↦ lt_tuple_head x z a c (rw (sym g.0) f)
  ]
  | inr f ↦ elim (lt_tuple_cases y z b c q) [
    | inl g ↦ lt_tuple_head x z a c (rw f.0 g)
    | inr g ↦ lt_tuple_tail x z a c (f.0 ∙ g.0) (lt_tuple_trans a b c f.1 g.1)
  ]
]

lt_tuple_irrefl : (a : List Value) → lt_tuple a a ≡ false
unfolding lt_tuple
lt_tuple_irrefl [] = refl
lt_tuple_irrefl (x ∷ a) = rw (lt_value_irrefl x) (lt_tuple_irrefl a)

lt_tuple_asymm : (a b : List Value) → lt_tuple a b ≡ true → lt_tuple b a ≡ false
lt_tuple_asymm a b p = elim (Bool-cases (lt_tuple b a)) [
  | inl q ↦ q ∙ sym (lt_tuple_trans a b a p q) ∙ lt_tuple_irrefl a
  | inr q ↦ q
]

-- Two tuples of which neither is less are equal.
lt_tuple_total : (a b : List Value) → lt_tuple a b ≡ false → lt_tuple b a ≡ false → a ≡ b
unfolding lt_tuple
lt_tuple_total [] [] p q = refl
lt_tuple_total [] (y ∷ b) p q = cc
lt_tuple_total (x ∷ a) [] p q = cc
lt_tuple_total (x ∷ a) (y ∷ b) p q = elim (Bool-cases (lt_value x y)) [
  | inl less ↦ absurd (ground arith)
  | inr not_less ↦ elim (Bool-cases (lt_value y x)) [
    | inl more ↦ absurd (ground arith)
    | inr not_more ↦
        ap (λ z. z ∷ a) (lt_value_total x y not_less not_more)
        ∙ ap (λ zs. y ∷ zs) (lt_tuple_total a b (ground arith) (ground arith))
  ]
]

-- Both tuples are of the same kind.
pub tie : PrimaryKey → Review → List Value
unfolding ties
tie key r = (ties key r r).0

ties-tie : (key : PrimaryKey) (a b : Review) → ties key a b ≡ (tie key a, tie key b)
unfolding ties tie
ties-tie date a b = refl
ties-tie body_size a b = refl
ties-tie stars a b = refl
ties-tie title_size a b = refl

generic_review_compare-false :
    (key : PrimaryKey) (a b : Review)
    → generic_review_compare key false a b ≡ lt_tuple (tie key a) (tie key b)
unfolding generic_review_compare
generic_review_compare-false key a b =
    ap (λ (p : List Value × List Value). lt_tuple p.0 p.1) (ties-tie key a b)

generic_review_compare-true :
    (key : PrimaryKey) (a b : Review)
    → generic_review_compare key true a b ≡ lt_tuple (tie key b) (tie key a)
unfolding generic_review_compare
generic_review_compare-true key a b =
    ap (λ (p : List Value × List Value). lt_tuple p.1 p.0) (ties-tie key a b)

-- Under every key and in both directions the order is transitive and asymmetric.
pub generic_review_compare_trans :
    (key : PrimaryKey) (reversed : Bool) (a b c : Review)
    → generic_review_compare key reversed a b ≡ true
    → generic_review_compare key reversed b c ≡ true
    → (generic_review_compare key reversed a c ≡ true)
      × (generic_review_compare key reversed c a ≡ false)
generic_review_compare_trans key true a b c p q =
    let less =
      lt_tuple_trans (tie key c) (tie key b) (tie key a)
        (sym (generic_review_compare-true key b c) ∙ q)
        (sym (generic_review_compare-true key a b) ∙ p) in
    (
      generic_review_compare-true key a c ∙ less,
      generic_review_compare-true key c a ∙ lt_tuple_asymm (tie key c) (tie key a) less,
    )
generic_review_compare_trans key false a b c p q =
    let less =
      lt_tuple_trans (tie key a) (tie key b) (tie key c)
        (sym (generic_review_compare-false key a b) ∙ p)
        (sym (generic_review_compare-false key b c) ∙ q) in
    (
      generic_review_compare-false key a c ∙ less,
      generic_review_compare-false key c a ∙ lt_tuple_asymm (tie key a) (tie key c) less,
    )

-- Reviews of which neither goes before the other have the same tuple, so to be such is transitive
-- as well.
pub generic_review_compare_total :
    (key : PrimaryKey) (a b : Review)
    → generic_review_compare key false a b ≡ false
    → generic_review_compare key false b a ≡ false
    → tie key a ≡ tie key b
generic_review_compare_total key a b p q =
    lt_tuple_total (tie key a) (tie key b) (sym (generic_review_compare-false key a b) ∙ p)
      (sym (generic_review_compare-false key b a) ∙ q)

-- What a key is for: an earlier day, a shorter body, fewer stars, a shorter title.
abbrev pub is_earlier : Review → Review → Bool
is_earlier a b =
    ltb_ℤ a.review_year b.review_year
    || (not (ltb_ℤ b.review_year a.review_year)
        && (ltb_ℤ a.review_month b.review_month
            || (not (ltb_ℤ b.review_month a.review_month) && ltb_ℤ a.review_day b.review_day)))

abbrev pub is_below : PrimaryKey → Review → Review → Bool
is_below date a b = is_earlier a b
is_below body_size a b = ltb (length a.review_body) (length b.review_body)
is_below stars a b = ltb_ℤ a.star_rating b.star_rating
is_below title_size a b = ltb (length a.product_title) (length b.product_title)

below-lt_tuple :
    (key : PrimaryKey) (a b : Review)
    → is_below key a b ≡ true
    → lt_tuple (tie key a) (tie key b) ≡ true
unfolding tie ties lt_tuple lt_value
below-lt_tuple date a b e = ground (arith, e)
below-lt_tuple body_size a b e = ground (arith, e)
below-lt_tuple stars a b e = ground (arith, e)
below-lt_tuple title_size a b e = ground (arith, e)

-- A review of an earlier day, with a shorter body, fewer stars or a shorter title, as the key asks
-- for, goes before the other one, and behind it in the reversed order; never the other way round.
pub generic_review_compare_below :
    (key : PrimaryKey) (a b : Review)
    → is_below key a b ≡ true
    → (generic_review_compare key false a b ≡ true)
      × (generic_review_compare key false b a ≡ false)
      × (generic_review_compare key true b a ≡ true)
      × (generic_review_compare key true a b ≡ false)
generic_review_compare_below key a b e =
    let less = below-lt_tuple key a b e in
    let back = lt_tuple_asymm (tie key a) (tie key b) less in
    (
      generic_review_compare-false key a b ∙ less,
      generic_review_compare-false key b a ∙ back,
      generic_review_compare-true key b a ∙ less,
      generic_review_compare-true key a b ∙ back,
    )
