-- ===== src/Proxy/Header/RoundTrip.antt =====
-- A header that is printed is read back as it is.
use mathlib.Core.List.{append-nil}
use cs.Base.{
  ℕ, zero, suc, ◌≤◌, ◌<◌, ◌≡◌, refl, sym, ap, ◌∙◌, [], ◌∷◌, ◌++◌, some, true, false, ◌==◌, arith,
  length, is_empty, All, append_assoc, length-append,
}
use cs.Base.Text.{Text}
use cs.Base.TextOrder.{Text_order}
use cs.Base.Map.{insert}
use cs.Base.Ascending.{Below, IsOrdered, Follows, insert_last, Follows-snoc, Follows-nil}
use cs.Base.Stream.Lines.{lacks, lacks-append, split_at-append, split_at_whole}
use cs.Base.Stream.{StringUtils, split_at, getline_to, getline}
use cs.Proxy.Header.{Headers, add_header, ingest_line, ingest_loop, ingest_header, show_headers}

-- Trimming drops white space: a carriage return at the end, a space at the start, and nothing
-- before the last character that it keeps.
pub record IsTrimming (u : StringUtils) : Type 0 where
  pub rtrim_return : (s : Text) → u.rtrim (s ++ (13 ∷ [])) ≡ u.rtrim s
  pub rtrim_behind : (s t : Text) → is_empty (u.rtrim t) ≡ false → u.rtrim (s ++ t) ≡ s ++ u.rtrim t
  pub trim_space : (s : Text) → u.trim (32 ∷ s) ≡ u.trim s

-- A name in lower case that begins with no space and has no colon, a value that is not blank, and
-- neither has a line feed or white space at its ends.
pub record IsField (u : StringUtils) (e : Text × Text) : Type 0 where
  pub first : ℕ
  pub others : Text
  pub name : e.0 ≡ first ∷ others
  pub starts : (first == 32) ≡ false
  pub lower : u.to_lower e.0 ≡ e.0
  pub trimmed_name : u.trim e.0 ≡ e.0
  pub no_colon : lacks 58 e.0 ≡ true
  pub one_line_name : lacks 10 e.0 ≡ true
  pub trimmed_value : u.trim e.1 ≡ e.1
  pub rtrimmed_value : u.rtrim e.1 ≡ e.1
  pub not_blank : is_empty e.1 ≡ false
  pub one_line_value : lacks 10 e.1 ≡ true

-- The line of a field, without its end.
abbrev line_of : Text → Text → Text
line_of name value = name ++ (58 ∷ 32 ∷ value)

show_headers_first :
    (name value : Text) (h : Headers) (t : Text)
    → show_headers ((name, value) ∷ h) ++ t
      ≡ (line_of name value ++ (13 ∷ [])) ++ (10 ∷ (show_headers h ++ t))
unfolding show_headers
show_headers_first name value h t =
    let behind = show_headers h ++ t in
    append_assoc name (58 ∷ 32 ∷ (value ++ (13 ∷ 10 ∷ show_headers h))) t
    ∙ ap (λ x. name ++ (58 ∷ 32 ∷ x)) (append_assoc value (13 ∷ 10 ∷ show_headers h) t)
    ∙ sym (
        append_assoc (line_of name value) (13 ∷ []) (10 ∷ behind)
        ∙ append_assoc name (58 ∷ 32 ∷ value) (13 ∷ 10 ∷ behind))

ingest_line_lem :
    (u : StringUtils) (c : ℕ) (s line previous : Text) (h : Headers)
    → line ≡ c ∷ s
    → (c == 32) ≡ false
    → ingest_line u line previous h ≡ (
      u.trim (getline_to 58 line).content,
      add_header u
          (u.trim (getline_to 58 line).content)
          (u.trim (getline (getline_to 58 line).rest).content)
          h,
    )
unfolding ingest_line
ingest_line_lem u c s line previous h e f = rw (e, f) refl

module _ (u : StringUtils) (w : IsTrimming u) (name value : Text)
    (v : IsField u (name, value)) where
  getline_field :
      (t : Text)
      → ((getline ((line_of name value ++ (13 ∷ [])) ++ (10 ∷ t))).content
          ≡ line_of name value ++ (13 ∷ []))
        × ((getline ((line_of name value ++ (13 ∷ [])) ++ (10 ∷ t))).rest ≡ t)
  unfolding getline getline_to
  getline_field t =
      let line = line_of name value ++ (13 ∷ []) in
      let clean : lacks 10 line ≡ true =
        lacks-append 10 (line_of name value) (13 ∷ [])
          (lacks-append 10 name (58 ∷ 32 ∷ value) v.one_line_name
            (ground (arith, v.one_line_value)))
          refl in
      let split = split_at-append 10 line t clean in
      (ap (λ (p : Text × Text). p.0) split, ap (λ (p : Text × Text). p.1) split)

  rtrim_field : u.rtrim (line_of name value ++ (13 ∷ [])) ≡ line_of name value
  rtrim_field =
      let before = name ++ (58 ∷ 32 ∷ []) in
      w.rtrim_return (line_of name value)
      ∙ ap u.rtrim (sym (append_assoc name (58 ∷ 32 ∷ []) value))
      ∙ w.rtrim_behind before value (ap (λ x. is_empty x) v.rtrimmed_value ∙ v.not_blank)
      ∙ ap (λ x. before ++ x) v.rtrimmed_value
      ∙ append_assoc name (58 ∷ 32 ∷ []) value

  name_of_field : u.trim (getline_to 58 (line_of name value)).content ≡ name
  unfolding getline_to
  name_of_field =
      ap (λ (p : Text × Text). u.trim p.0) (split_at-append 58 name (32 ∷ value) v.no_colon)
      ∙ v.trimmed_name

  value_of_field : u.trim (getline (getline_to 58 (line_of name value)).rest).content ≡ value
  unfolding getline getline_to
  value_of_field =
      ap (λ (p : Text × Text). u.trim (split_at 10 p.1).0)
        (split_at-append 58 name (32 ∷ value) v.no_colon)
      ∙ ap (λ (p : Text × Text). u.trim p.0)
          (split_at_whole 10 (32 ∷ value) (ground (arith, v.one_line_value)))
      ∙ w.trim_space value
      ∙ v.trimmed_value

  ingest_line_field :
      (previous : Text) (h : Headers)
      → Below h name
      → ingest_line u (line_of name value) previous h ≡ (name, h ++ ((name, value) ∷ []))
  unfolding add_header
  ingest_line_field previous h b =
      ingest_line_lem u v.first (v.others ++ (58 ∷ 32 ∷ value)) (line_of name value) previous h
        (ap (λ x. x ++ (58 ∷ 32 ∷ value)) v.name) v.starts
      ∙ ap
          (λ x. (
            x,
            add_header u x (u.trim (getline (getline_to 58 (line_of name value)).rest).content) h,
          ))
          name_of_field
      ∙ ap (λ x. (name, add_header u name x h)) value_of_field
      ∙ ap (λ x. (name, insert x value h)) v.lower
      ∙ ap (λ x. (name, x)) (insert_last name value h b)

module _ (u : StringUtils) (w : IsTrimming u) where
  ingest_loop_next :
      (fuel : ℕ) (previous line : Text) (h : Headers) (s : Text) {name t : Text} {h' : Headers}
      → u.rtrim (getline s).content ≡ line
      → (getline s).rest ≡ t
      → is_empty line ≡ false
      → ingest_line u line previous h ≡ (name, h')
      → ingest_loop u (suc fuel) previous h s ≡ ingest_loop u fuel name h' t
  unfolding ingest_loop
  ingest_loop_next fuel previous line h s {t = t} e f g i =
      rw (ingest_loop, e, g, f)
        (ap (λ (q : Text × Headers). ingest_loop u fuel q.0 q.1 t)
          (ap (λ x. ingest_line u x previous h) e ∙ i))

  return_blank : is_empty (u.rtrim (13 ∷ [])) ≡ true
  return_blank = ap (λ x. is_empty x) (w.rtrim_return []) ∙ short (u.rtrim []) (u.length-rtrim [])
    where
      short : (t : Text) → length t ≤ 0 → is_empty t ≡ true
      short [] p = refl
      short (c ∷ t) p = absurd (omega arith)

  ingest_loop_stop :
      (fuel : ℕ) (previous body : Text) (h : Headers)
      → ingest_loop u (suc fuel) previous h (13 ∷ 10 ∷ body)
        ≡ some (record { name = previous; headers = h; rest = body })
  unfolding ingest_loop getline getline_to split_at
  ingest_loop_stop fuel previous body h = rw (ingest_loop, return_blank) refl

  ingest_loop-show_headers :
      (rest h : Headers) (fuel : ℕ) (previous body : Text)
      → length rest < fuel
      → Follows h rest
      → IsOrdered rest
      → All (IsField u) rest
      → (name : Text) × (ingest_loop u fuel previous h (show_headers rest ++ (13 ∷ 10 ∷ body))
          ≡ some (record { name = name; headers = h ++ rest; rest = body }))
  ingest_loop-show_headers rest h zero previous body p f o v = absurd (omega arith)
  ingest_loop-show_headers [] h (suc fuel) previous body p f o v = (
    previous,
    unfold show_headers in
        ingest_loop_stop fuel previous body h
        ∙ ap (λ x. some (record { name = previous; headers = x; rest = body }))
            (sym (append-nil h)),
  )
  ingest_loop-show_headers ((n, x) ∷ rest) h (suc fuel) previous body p f o v =
      let tail = show_headers rest ++ (13 ∷ 10 ∷ body) in
      let c = v.0 in
      let (line, next) = getline_field u w n x c tail in
      let (last, e) =
        ingest_loop-show_headers rest (h ++ ((n, x) ∷ [])) fuel n body (omega arith)
          (Follows-snoc h n x rest f.1 o.0) o.1 v.1 in
      (
        last,
        ap (λ s. ingest_loop u (suc fuel) previous h s)
              (show_headers_first n x rest (13 ∷ 10 ∷ body))
            ∙ ingest_loop_next fuel previous (line_of n x) h
                ((line_of n x ++ (13 ∷ [])) ++ (10 ∷ tail))
                (ap u.rtrim line ∙ rtrim_field u w n x c) next
                (ap (λ y. is_empty (y ++ (58 ∷ 32 ∷ x))) c.name)
                (ingest_line_field u w n x c previous h f.0)
            ∙ e
            ∙ ap (λ y. some (record { name = last; headers = y; rest = body }))
                (append_assoc h ((n, x) ∷ []) rest),
      )

  entries-length : (h : Headers) (t : Text) → length h ≤ length (show_headers h ++ t)
  entries-length [] t = omega arith
  entries-length ((n, x) ∷ h) t = ground (
    arith,
    ap (λ s. length s) (show_headers_first n x h t),
    length-append (line_of n x ++ (13 ∷ [])) (10 ∷ (show_headers h ++ t)),
    entries-length h t,
  )

  -- If the string functions trim white space, a header whose names ascend, with fields as IsField
  -- says, is read back as it is from what operator<< prints of it and a blank line, and the
  -- stream is left at what follows.
  pub ingest_header-show_headers :
      (h : Headers) (body : Text)
      → IsOrdered h
      → All (IsField u) h
      → (name : Text) × (ingest_header u [] (show_headers h ++ (13 ∷ 10 ∷ body))
          ≡ some (record { name = name; headers = h; rest = body }))
  unfolding ingest_header
  ingest_header-show_headers h body o v =
      let s = show_headers h ++ (13 ∷ 10 ∷ body) in
      ingest_loop-show_headers h [] (suc (length s)) [] body
        (omega (arith, entries-length h (13 ∷ 10 ∷ body))) (Follows-nil h) o v
