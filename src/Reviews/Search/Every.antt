-- ===== src/Reviews/Search/Every.antt =====
-- The reviews that are found are those that every term finds.
use mathlib.Core.Path.{subst}
use cs.Base.{
  ℕ, zero, suc, ◌+◌, ◌≤◌, ◌<◌, ◌≡◌, refl, ap, ◌∙◌, sym, List, [], ◌∷◌, Option, none, some, Bool,
  true, false, ◌&&◌, ◌||◌, ltb, arith, length, Bool-cases, inl, inr, Option-cases,
}
use cs.Base.Text.{Text}
use cs.Base.Map.{lookup, insert, ℕ_order, same_key}
use cs.Reviews.Memory.{File}
use cs.Reviews.Keywords.{find_keyword}
use cs.Reviews.Terms.{
  IndexSet, InfoSet, is_in, review_indices, indices_of, first_infos, match_words, infos_at,
  reviews_containing_term,
}
use cs.Reviews.Search.{intersect, search_more, search_terms}
use cs.Reviews.Search.Sets.{
  Ascending, has, above_more, insert-Ascending, has-below, has-insert, has-cons,
}

-- An element below the first one of a set is not in the set.
has_skip :
    (j x y : ℕ) (v : Unit {0}) (ys : IndexSet)
    → x < y
    → Ascending ((y, v) ∷ ys)
    → (same_key x j && has j ((y, v) ∷ ys)) ≡ false
has_skip j x y v ys h a = elim (Bool-cases (same_key x j)) [
  | inl same ↦ rw same (
      has-below j ((y, v) ∷ ys)
        (ground (arith, same), above_more j y ys (ground (arith, same)) a.0))
  | inr other ↦ rw other refl
]

drop_left : (o s h t : Bool) → (s && t) ≡ false → (o || (h && t)) ≡ (o || ((s || h) && t))
drop_left o s h t e = ground arith

drop_right : (o s h t : Bool) → (s && t) ≡ false → (o || (t && h)) ≡ (o || (t && (s || h)))
drop_right o s h t e = ground arith

same_of : (x y : ℕ) → ltb x y ≡ false → ltb y x ≡ false → x ≡ y
same_of x y h k = ground arith

has_step_left :
    (j x y : ℕ) (u v : Unit {0}) (xs ys : IndexSet) (o : Bool)
    → x < y
    → Ascending ((y, v) ∷ ys)
    → (o || (has j xs && has j ((y, v) ∷ ys))) ≡ (o || (has j ((x, u) ∷ xs) && has j ((y, v) ∷ ys)))
has_step_left j x y u v xs ys o h a =
    drop_left o (same_key x j) (has j xs) (has j ((y, v) ∷ ys)) (has_skip j x y v ys h a)
    ∙ ap (λ b. o || (b && has j ((y, v) ∷ ys))) (sym (has-cons j x u xs))

has_step_right :
    (j x y : ℕ) (u v : Unit {0}) (xs ys : IndexSet) (o : Bool)
    → y < x
    → Ascending ((x, u) ∷ xs)
    → (o || (has j ((x, u) ∷ xs) && has j ys)) ≡ (o || (has j ((x, u) ∷ xs) && has j ((y, v) ∷ ys)))
has_step_right j x y u v xs ys o h a =
    drop_right o (same_key y j) (has j ys) (has j ((x, u) ∷ xs)) (has_skip j y x u xs h a)
    ∙ ap (λ b. o || (has j ((x, u) ∷ xs) && b)) (sym (has-cons j y v ys))

both_sides : (o s h t : Bool) → ((s || o) || (h && t)) ≡ (o || ((s || h) && (s || t)))
both_sides o s h t = ground arith

has_step_both :
    (j x y : ℕ) (u v : Unit {0}) (xs ys out : IndexSet)
    → ltb x y ≡ false
    → ltb y x ≡ false
    → (has j (insert x tt out) || (has j xs && has j ys))
      ≡ (has j out || (has j ((x, u) ∷ xs) && has j ((y, v) ∷ ys)))
has_step_both j x y u v xs ys out h k =
    rw (has-insert j x out, has-cons j x u xs, has-cons j y v ys, same_of x y h k)
      (both_sides (has j out) (same_key y j) (has j xs) (has j ys))

intersect-has :
    (fuel j : ℕ) (xs ys out : IndexSet)
    → length xs + length ys ≤ fuel
    → Ascending xs
    → Ascending ys
    → has j (intersect fuel xs ys out) ≡ (has j out || (has j xs && has j ys))
unfolding intersect is_in lookup
intersect-has zero j [] [] out h a b = ground arith
intersect-has zero j ((x, u) ∷ xs) ys out h a b = absurd (omega arith)
intersect-has zero j [] ((y, v) ∷ ys) out h a b = absurd (omega arith)
intersect-has (suc fuel) j [] ys out h a b = ground arith
intersect-has (suc fuel) j ((x, u) ∷ xs) [] out h a b = ground arith
intersect-has (suc fuel) j ((x, u) ∷ xs) ((y, v) ∷ ys) out h a b = elim (Bool-cases (ltb x y)) [
  | inl before ↦
      rw (intersect, before)
        (intersect-has fuel j xs ((y, v) ∷ ys) out (omega arith) a.1 b
          ∙ has_step_left j x y u v xs ys (has j out) (ground (arith, before)) b)
  | inr not_before ↦ elim (Bool-cases (ltb y x)) [
    | inl behind ↦
        rw (intersect, not_before, behind)
          (intersect-has fuel j ((x, u) ∷ xs) ys out (omega arith) a b.1
            ∙ has_step_right j x y u v xs ys (has j out) (ground (arith, behind)) a)
    | inr same ↦
        rw (intersect, not_before, same)
          (intersect-has fuel j xs ys (insert x tt out) (omega arith) a.1 b.1
            ∙ has_step_both j x y u v xs ys out not_before same)
  ]
]

review_indices-Ascending :
    (set : InfoSet) (out : IndexSet) → Ascending out → Ascending (review_indices set out)
unfolding review_indices
review_indices-Ascending [] out a = a
review_indices-Ascending ((k, x) ∷ set) out a =
    review_indices-Ascending set (insert k.review_index tt out)
      (insert-Ascending k.review_index out a)

indices_of-Ascending : (found : Option InfoSet) → Ascending (indices_of found)
unfolding indices_of
indices_of-Ascending none = tt
indices_of-Ascending (some set) = review_indices-Ascending set [] tt

term_missing :
    (f : File) (word : Text) (words : List Text)
    → find_keyword f word ≡ none
    → reviews_containing_term f (word ∷ words) ≡ []
unfolding reviews_containing_term
term_missing f word words e = rw (reviews_containing_term, e) refl

term_present :
    (f : File) (word : Text) (words : List Text) (ptr : ℕ)
    → find_keyword f word ≡ some ptr
    → reviews_containing_term f (word ∷ words)
      ≡ indices_of (match_words f words (first_infos (infos_at f ptr) []))
unfolding reviews_containing_term
term_present f word words ptr e = rw (reviews_containing_term, e) refl

reviews_containing_term-Ascending :
    (f : File) (term : List Text) → Ascending (reviews_containing_term f term)
unfolding reviews_containing_term
reviews_containing_term-Ascending f [] = tt
reviews_containing_term-Ascending f (word ∷ words) = elim (Option-cases (find_keyword f word)) [
  | inl e ↦ subst Ascending (sym (term_missing f word words e)) tt
  | inr found ↦
      subst Ascending (sym (term_present f word words found.0 found.1))
        (indices_of-Ascending (match_words f words (first_infos (infos_at f found.0) [])))
]

intersect-Ascending :
    (fuel : ℕ) (xs ys out : IndexSet) → Ascending out → Ascending (intersect fuel xs ys out)
unfolding intersect
intersect-Ascending zero xs ys out a = a
intersect-Ascending (suc fuel) [] ys out a = a
intersect-Ascending (suc fuel) ((x, u) ∷ xs) [] out a = a
intersect-Ascending (suc fuel) ((x, u) ∷ xs) ((y, v) ∷ ys) out a = elim (Bool-cases (ltb x y)) [
  | inl before ↦
      subst Ascending (rw (intersect, before) refl)
        (intersect-Ascending fuel xs ((y, v) ∷ ys) out a)
  | inr not_before ↦ elim (Bool-cases (ltb y x)) [
    | inl behind ↦
        subst Ascending (rw (intersect, not_before, behind) refl)
          (intersect-Ascending fuel ((x, u) ∷ xs) ys out a)
    | inr same ↦
        subst Ascending (rw (intersect, not_before, same) refl)
          (intersect-Ascending fuel xs ys (insert x tt out) (insert-Ascending x out a))
  ]
]

-- Is the review among those of every term?
unfoldable pub in_every : File → ℕ → List (List Text) → Bool
in_every f j [] = true
in_every f j (term ∷ terms) = has j (reviews_containing_term f term) && in_every f j terms

and_true : (b : Bool) → (b && true) ≡ b
and_true b = ground arith

and_swap : (a b c : Bool) → ((a && b) && c) ≡ (b && (a && c))
and_swap a b c = ground arith

search_more-has :
    (f : File) (j : ℕ) (terms : List (List Text)) (found : IndexSet)
    → Ascending found
    → has j (search_more f terms found) ≡ (has j found && in_every f j terms)
unfolding search_more in_every lookup is_in
search_more-has f j [] found a = sym (and_true (has j found))
search_more-has f j (term ∷ terms) found a =
    let current = reviews_containing_term f term in
    let fuel = length current + length found in
    search_more-has f j terms (intersect fuel current found [])
      (intersect-Ascending fuel current found [] tt)
    ∙ ap (λ b. b && in_every f j terms)
        (intersect-has fuel j current found [] (omega arith)
          (reviews_containing_term-Ascending f term) a)
    ∙ and_swap (has j current) (has j found) (in_every f j terms)

-- For a query of at least one term, the reviews found are those that are found for each of its
-- terms.
pub search_terms-in_every :
    (f : File) (j : ℕ) (term : List Text) (terms : List (List Text))
    → has j (search_terms f (term ∷ terms)) ≡ in_every f j (term ∷ terms)
unfolding search_terms in_every
search_terms-in_every f j term terms =
    search_more-has f j terms (reviews_containing_term f term)
      (reviews_containing_term-Ascending f term)
