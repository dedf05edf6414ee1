-- ===== src/Proxy/Cache/Names.antt =====
-- assign6/cache.cc: the times that the name of a cached file carries are read back from it.
use cs.Base.{
  ℕ, ◌≡◌, refl, sym, ap, ◌∙◌, ◌+◌, ◌-◌, ◌++◌, ◌≤◌, [], ◌∷◌, some, true, not, ◌==◌, length,
  length-append, append_assoc, take, drop, take-append_at, drop-append_at, all, arith,
}
use cs.Base.Text.{Text, codes, starts_with, find_text}
use cs.Base.Number.{show_nat, long_max}
use cs.Base.Number.Digits.{strtol-show_nat, show_nat_word, show_digits-all}
use cs.Base.Int.{ℤ, pos}
use cs.Proxy.Cache.{
  create_header, expiration_header, entry_name, structured, is_at_start, stol, entry_times,
}

starts_with-append : (p r : Text) → starts_with p (p ++ r) ≡ true
unfolding starts_with
starts_with-append [] r = refl
starts_with-append (c ∷ p) r = ground (arith, starts_with-append p r)

-- A text is found behind characters that are not its first.
find_text_past :
    (c : ℕ) (p u r : Text)
    → all (λ d. not (c == d)) u ≡ true
    → find_text (c ∷ p) (u ++ (c ∷ p ++ r)) ≡ some (length u)
unfolding find_text starts_with
find_text_past c p [] r e = ground (arith, starts_with-append p r)
find_text_past c p (d ∷ u) r e = ground (arith, find_text_past c p u r)

show_nat_digits : (n : ℕ) → all (λ d. not (b'e' == d)) (show_nat n) ≡ true
unfolding show_nat
show_nat_digits n = show_digits-all (λ d. not (b'e' == d)) (λ d h. ground arith) n n [] refl

stol-show_nat : (n : ℕ) → n ≤ long_max → stol (show_nat n) ≡ some (pos n)
unfolding stol
stol-show_nat n small =
    let (c, t, e, word) = show_nat_word n in rw (strtol-show_nat n small, e) (ground arith)

expires_found :
    (d r : Text)
    → all (λ c. not (b'e' == c)) d ≡ true
    → find_text expiration_header (create_header ++ (d ++ (expiration_header ++ r)))
      ≡ some (8 + length d)
unfolding find_text starts_with
expires_found d r e =
    let found : find_text expiration_header (d ++ (expiration_header ++ r)) ≡ some (length d) =
      find_text_past b'e' (codes "xpires@") d r e in
    ground (arith, found)

structured-entry_name :
    (created expires : ℕ)
    → structured (entry_name created expires) ≡ some (8 + length (show_nat created))
unfolding structured entry_name is_at_start
structured-entry_name created expires =
    rw (structured, expires_found (show_nat created) (show_nat expires) (show_nat_digits created))
      (unfold find_text starts_with in ground arith)

-- The number between the two headers, and the number behind the second.
created_text :
    (created expires : ℕ)
    → take (8 + length (show_nat created) - 8) (drop 8 (entry_name created expires))
      ≡ show_nat created
unfolding entry_name
created_text created expires =
    take-append_at (8 + length (show_nat created) - 8) (show_nat created)
      (expiration_header ++ show_nat expires) (omega arith)

expires_text :
    (created expires : ℕ)
    → drop (8 + length (show_nat created) + 8) (entry_name created expires) ≡ show_nat expires
unfolding entry_name
expires_text created expires =
    ap (λ x. drop (8 + length (show_nat created) + 8) (create_header ++ x))
      (sym (append_assoc (show_nat created) expiration_header (show_nat expires)))
    ∙ drop-append_at (8 + length (show_nat created) + 8)
        (create_header ++ (show_nat created ++ expiration_header)) (show_nat expires)
        (ground (arith, length-append (show_nat created) expiration_header))

entry_times_lem :
    (name : Text) (i : ℕ) {created expires : ℤ}
    → structured name ≡ some i
    → stol (take (i - 8) (drop 8 name)) ≡ some created
    → stol (drop (i + 8) name) ≡ some expires
    → entry_times name ≡ some (created, expires)
unfolding entry_times
entry_times_lem name i e f g = ground (arith, e, f, g)

pub entry_times-entry_name :
    (created expires : ℕ)
    → created ≤ long_max
    → expires ≤ long_max
    → entry_times (entry_name created expires) ≡ some (pos created, pos expires)
entry_times-entry_name created expires p q =
    entry_times_lem (entry_name created expires) (8 + length (show_nat created))
      (structured-entry_name created expires)
      (ap stol (created_text created expires) ∙ stol-show_nat created p)
      (ap stol (expires_text created expires) ∙ stol-show_nat expires q)
