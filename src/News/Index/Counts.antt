-- ===== src/News/Index/Counts.antt =====
-- What the index counts.
use mathlib.Core.Path.{subst}
use cs.Base.{
  Bool-cases, inl, inr, ℕ, suc, ◌+◌, ◌≡◌, refl, List, [], ◌∷◌, false, if◌then◌else◌, arith,
  count_by,
}
use cs.Base.Text.{Text}
use cs.Base.TextOrder.{Text_order, same_key_refl, same_key→≡}
use cs.Base.Map.{lookup, insert, lookup-insert, same_key}
use cs.News.Index.{
  Article, Article_order, Counts, RssIndex, counts_of, count_of, note_word, add_article,
}

-- The count of an article under a word, 0 if there is none.
unfoldable pub frequency : Text → Article → RssIndex → ℕ
frequency word a index = count_of (lookup a (counts_of (lookup word index)))

frequency-same :
    (a b : Article) (word : Text) (index : RssIndex)
    → frequency word b (note_word a word index)
      ≡ (if same_key a b then suc (frequency word a index) else frequency word b index)
unfolding frequency note_word count_of counts_of
frequency-same a b word index = ground (
  arith,
  lookup-insert word word (insert a (suc (count_of (lookup a m))) m) index,
  lookup-insert a b (suc (count_of (lookup a m))) m,
  same_key_refl word,
)
  where
    m : Counts
    m = counts_of (lookup word index)

frequency-other :
    (a b : Article) (word other : Text) (index : RssIndex)
    → same_key word other ≡ false
    → frequency other b (note_word a word index) ≡ frequency other b index
unfolding frequency note_word
frequency-other a b word other index e =
    rw (lookup-insert word other (insert a (suc (count_of (lookup a m))) m) index, e) refl
  where
    m : Counts
    m = counts_of (lookup word index)

-- One word changes the count of its own article only, and under that word only.
note_word-frequencies :
    (a b : Article) (word other : Text) (index : RssIndex)
    → same_key a b ≡ false
    → (frequency other a (note_word a word index)
        ≡ (if same_key word other then 1 else 0) + frequency other a index)
      × (frequency other b (note_word a word index) ≡ frequency other b index)
note_word-frequencies a b word other index apart = elim (Bool-cases (same_key word other)) [
  | inr e ↦ (
    ground (arith, e, frequency-other a a word other index e),
    frequency-other a b word other index e,
  )
  | inl e ↦
      subst
        (λ w.
          (frequency w a (note_word a word index)
            ≡ (if same_key word w then 1 else 0) + frequency w a index)
          × (frequency w b (note_word a word index) ≡ frequency w b index))
        (same_key→≡ word other e)
        (
          ground (arith, frequency-same a a word index, same_key_refl word, same_key_refl a.url),
          rw (frequency-same a b word index, apart) refl,
        )
]

-- Adding an article's words raises its count under each word by the number of times that the word
-- is among them, and changes no count of an article of another url.
pub frequency-add_article :
    (a b : Article) (words : List Text) (word : Text) (index : RssIndex)
    → same_key a b ≡ false
    → (frequency word a (add_article a words index)
        ≡ count_by (λ w. same_key w word) words + frequency word a index)
      × (frequency word b (add_article a words index) ≡ frequency word b index)
unfolding add_article
frequency-add_article a b [] word index apart = (omega arith, refl)
frequency-add_article a b (w ∷ words) word index apart = ground (
  arith,
  frequency-add_article a b words word (note_word a w index) apart,
  note_word-frequencies a b w word index apart,
)
