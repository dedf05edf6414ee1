-- ===== src/News/Text.antt =====
-- assign5/utils.h and utils.cc.
use cs.Base.Lists.{append_assoc}
use mathlib.Core.Path.{sym, ap, ◌∙◌}
use cs.Base.{
  ltb→lt, take-append_at, drop-append_at, ◌⊎◌, ℕ, ◌-◌, ◌≤◌, ◌<◌, ◌≡◌, ◌++◌, Option, none, some,
  Bool, false, ltb, length, take, drop, replicate, if◌then◌else◌, arith, Bool-cases, inl, inr,
  length-append, length-take, length-drop,
}
use cs.Base.Text.{Text, codes, contains_text, find_char}

-- Where the server's name starts. The source asks whether the prefix stands anywhere in the url.
unfoldable pub server_start : Text → ℕ
server_start url =
    if contains_text (codes "http://") url
    then 7
    else (if contains_text (codes "https://") url then 8 else 0)

-- getURLServer; a start past the end throws std::out_of_range: none
unfoldable pub up_to_slash : Text → Text
up_to_slash s = elim (find_char b'/' s) [ none ↦ s | some i ↦ take i s ]

unfoldable pub url_server : Text → Option Text
unfolding server_start up_to_slash
url_server url =
    let start = server_start url in
    if ltb (length url) start then none else some (up_to_slash (drop start url))

abbrev pub max_length : ℕ
max_length = 75

abbrev pub padding_length : ℕ
padding_length = 5

abbrev pub suffix_length : ℕ
suffix_length = 5

unfoldable pub should_truncate : Text → Bool
should_truncate s = ltb max_length (length s)

unfoldable pub truncate : Text → Text
unfolding should_truncate
truncate s =
    if should_truncate s
    then take (max_length - padding_length - suffix_length) s
      ++ (replicate padding_length b'.' ++ drop (length s - suffix_length) s)
    else s

-- A short text is kept. A long one becomes 75 characters: its first 65, five dots, its last 5.
pub truncate_bounds :
    (s : Text)
    → ((length s ≤ 75) × (truncate s ≡ s))
      ⊎ ((75 < length s)
          × (length (truncate s) ≡ 75)
          × (take 65 (truncate s) ≡ take 65 s)
          × (take 5 (drop 65 (truncate s)) ≡ codes ".....")
          × (drop 70 (truncate s) ≡ drop (length s - 5) s))
unfolding truncate should_truncate
truncate_bounds s = elim (Bool-cases (should_truncate s)) [
  | inr short ↦ inl (at_most short, rw short)
  | inl long ↦
      let h = ltb→lt 75 (length s) long in
      inr (h, rw long (sizes h), rw long (front h), rw long (middle h), rw long (back h))
]
  where
    at_most : should_truncate s ≡ false → length s ≤ 75
    at_most e = ground arith

    last : Text
    last = drop (length s - 5) s

    dots : Text
    dots = replicate 5 b'.'

    front_length : 75 < length s → length (take 65 s) ≡ 65
    front_length h = omega (arith, length-take 65 s)

    sizes : 75 < length s → length (take 65 s ++ (dots ++ last)) ≡ 75
    sizes h = omega (
      arith,
      length-append (take 65 s) (dots ++ last),
      length-append dots last,
      length-drop (length s - 5) s,
      front_length h,
    )

    front : 75 < length s → take 65 (take 65 s ++ (dots ++ last)) ≡ take 65 s
    front h = take-append_at 65 (take 65 s) (dots ++ last) (front_length h)

    middle : 75 < length s → take 5 (drop 65 (take 65 s ++ (dots ++ last))) ≡ codes "....."
    middle h =
        ap (λ x. take 5 x) (drop-append_at 65 (take 65 s) (dots ++ last) (front_length h))
        ∙ take-append_at 5 dots last (omega arith)

    back : 75 < length s → drop 70 (take 65 s ++ (dots ++ last)) ≡ last
    back h = rw (sym (append_assoc (take 65 s) dots last)) (
        drop-append_at 70 (take 65 s ++ dots) last
          (omega (arith, front_length h, length-append (take 65 s) dots)))
