-- ===== src/Reviews/Keywords/Found.antt =====
-- The binary search finds what a search through the whole index would find.
use native.Mathlib.Decide.{dec_lt}
use cs.Base.{
  ℕ, zero, suc, ◌+◌, ◌-◌, ◌/◌, ◌≤◌, ◌<◌, ◌≡◌, ◌⊎◌, inl, inr, refl, ap, ◌∙◌, sym, [], ◌∷◌, none,
  some, Bool, true, false, ◌==◌, arith, Bool-cases,
}
use cs.Base.Text.{Text, lt_text, eq_text, eq_text_refl, eq_text→≡}
use cs.Base.TextOrder.{lt_text_irrefl, lt_text_total}
use cs.Reviews.Memory.{File, element_start}
use cs.Reviews.Keywords.{
  bound_loop, lower_bound, keyword_at, total, compare_keyword, keyword_offset, find_keyword,
}

module _ (before : ℕ → Bool) where
  -- Where the test is true of a position, it is true of every earlier one.
  abbrev pub IsPartitioned : ℕ → Type 0
  IsPartitioned n = (i j : ℕ) → i ≤ j → j < n → before j ≡ true → before i ≡ true

  pub record Splits (n r : ℕ) : Type 0 where
    pub within : r ≤ n
    pub below : (i : ℕ) → i < r → before i ≡ true
    pub above : (i : ℕ) → r ≤ i → i < n → before i ≡ false

  bound_loop-Splits :
      (fuel first count n : ℕ)
      → IsPartitioned n
      → count ≤ fuel
      → first + count ≤ n
      → ((i : ℕ) → i < first → before i ≡ true)
      → ((i : ℕ) → first + count ≤ i → i < n → before i ≡ false)
      → Splits n (bound_loop before fuel first count)
  unfolding bound_loop
  bound_loop-Splits zero first count n part h fits low high = record {
    within = omega arith;
    below = low;
    above = λ i p q. high i (omega arith) q;
  }
  bound_loop-Splits (suc fuel) first zero n part h fits low high = record {
    within = omega arith;
    below = low;
    above = λ i p q. high i (omega arith) q;
  }
  bound_loop-Splits (suc fuel) first (suc k) n part h fits low high =
      elim (Bool-cases (before (first + suc k / 2))) [
        | inl t ↦
            rw (bound_loop, t)
              (bound_loop-Splits fuel (suc (first + suc k / 2)) (k - suc k / 2) n part (omega arith)
                (omega arith) (λ i p. part i (first + suc k / 2) (omega arith) (omega arith) t)
                (λ i p q. high i (omega arith) q))
        | inr f ↦
            rw (bound_loop, f)
              (bound_loop-Splits fuel first (suc k / 2) n part (omega arith) (omega arith) low
                (λ i p q. not_before i p q f))
      ]
    where
      not_before :
          (i : ℕ)
          → first + suc k / 2 ≤ i
          → i < n
          → before (first + suc k / 2) ≡ false
          → before i ≡ false
      not_before i p q f = elim (Bool-cases (before i)) [
        | inr g ↦ g
        | inl g ↦ absurd (ground (arith, part (first + suc k / 2) i p q g, f))
      ]

  lower_bound-Splits : (n : ℕ) → IsPartitioned n → Splits n (lower_bound before n)
  unfolding lower_bound
  lower_bound-Splits n part =
      bound_loop-Splits n 0 n n part (omega arith) (omega arith) (λ i p. absurd (omega arith))
        (λ i p q. absurd (omega arith))

-- A text before a third one: either the first two or the last two are in order.
lt_text_cotrans : (a b c : Text) → lt_text a c ≡ true → lt_text a b ≡ false → lt_text b c ≡ true
unfolding lt_text
lt_text_cotrans [] [] [] p q = cc
lt_text_cotrans [] [] (z ∷ c) p q = refl
lt_text_cotrans [] (y ∷ b) c p q = cc
lt_text_cotrans (x ∷ a) b [] p q = cc
lt_text_cotrans (x ∷ a) [] (z ∷ c) p q = refl
lt_text_cotrans (x ∷ a) (y ∷ b) (z ∷ c) p q = ground (arith, lt_text_cotrans a b c)

module _ (f : File) where
  -- No keyword stands behind one that is greater.
  abbrev pub IsSorted : Type 0
  IsSorted = (i j : ℕ) → i ≤ j → j < total f → lt_text (keyword_at f j) (keyword_at f i) ≡ false

  -- The keyword that is looked for stands somewhere in the index.
  abbrev pub Occurs : Text → Type 0
  Occurs keyword = (i : ℕ) × (i < total f) × (keyword_at f i ≡ keyword)

  partitioned : (keyword : Text) → IsSorted → IsPartitioned (compare_keyword f keyword) (total f)
  unfolding compare_keyword
  partitioned keyword sorted i j p q e =
      lt_text_cotrans (keyword_at f j) (keyword_at f i) keyword e (sorted i j p q)

  -- A keyword that is there does not stand before the place found,
  not_earlier :
      (keyword : Text) (r i : ℕ)
      → Splits (compare_keyword f keyword) (total f) r
      → keyword_at f i ≡ keyword
      → r ≤ i
  unfolding compare_keyword
  not_earlier keyword r i v e = elim (dec_lt i r) [
    | no p ↦ omega arith
    | yes p ↦
        absurd
          (true_ne (sym (v.below i p) ∙ ap (λ x. lt_text x keyword) e ∙ lt_text_irrefl keyword))
  ]
    where
      true_ne : true ≡ false → ⊥
      true_ne q = cc

  -- and stands at it, since nothing between them is greater.
  found_at :
      (keyword : Text) (r i : ℕ)
      → IsSorted
      → Splits (compare_keyword f keyword) (total f) r
      → i < total f
      → keyword_at f i ≡ keyword
      → keyword_at f r ≡ keyword
  unfolding compare_keyword
  found_at keyword r i sorted v p e =
      let q = not_earlier keyword r i v e in
      lt_text_total (keyword_at f r) keyword (v.above r (omega arith) (omega arith))
        (sym (ap (λ x. lt_text x (keyword_at f r)) e) ∙ sorted r i q p)

  keyword_offset_lem :
      (keyword : Text) (r : ℕ)
      → IsSorted
      → Splits (compare_keyword f keyword) (total f) r
      → ((i : ℕ) × (keyword_offset f keyword r ≡ some (element_start f i))
          × (i < total f)
          × (keyword_at f i ≡ keyword))
        ⊎ ((keyword_offset f keyword r ≡ none) × ¬ (Occurs keyword))
  keyword_offset_lem keyword r sorted v = elim (Bool-cases (r == total f)) [
    | inl end ↦ inr (
      unfold keyword_offset in rw end refl,
      λ (i, p, e). ground (arith, end, not_earlier keyword r i v e),
    )
    | inr inside ↦ elim (Bool-cases (eq_text (keyword_at f r) keyword)) [
      | inl same ↦ inl (
        r,
        unfold keyword_offset in rw (inside, same) refl,
        ground (arith, inside, v.within),
        eq_text→≡ (keyword_at f r) keyword same,
      )
      | inr differs ↦ inr (
        unfold keyword_offset in rw (inside, differs) refl,
        λ (i, p, e). ne (found_at keyword r i sorted v p e) differs,
      )
    ]
  ]
    where
      ne : keyword_at f r ≡ keyword → eq_text (keyword_at f r) keyword ≡ false → ⊥
      ne q h = ground (arith, eq_text_refl keyword, ap (λ x. eq_text x keyword) q, h)

  -- On a sorted index findKeywordPtr returns the offset of a keyword in the index that is the one
  -- looked for, or nullptr if no keyword of the index is.
  pub find_keyword_lem :
      (keyword : Text)
      → IsSorted
      → ((i : ℕ) × (find_keyword f keyword ≡ some (element_start f i))
          × (i < total f)
          × (keyword_at f i ≡ keyword))
        ⊎ ((find_keyword f keyword ≡ none) × ¬ (Occurs keyword))
  find_keyword_lem keyword sorted =
      unfold find_keyword in
      keyword_offset_lem keyword (lower_bound (compare_keyword f keyword) (total f)) sorted
        (lower_bound-Splits (compare_keyword f keyword) (total f) (partitioned keyword sorted))
