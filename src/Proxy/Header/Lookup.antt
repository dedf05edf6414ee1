-- ===== src/Proxy/Header/Lookup.antt =====
-- Reading a header always ends, and its operations find what they set, whatever the case of names.
use cs.Base.{
  ℕ, zero, suc, ◌≤◌, ◌<◌, ◌≡◌, refl, [], ◌∷◌, some, true, false, arith, length, is_empty,
  if◌then◌else◌, Bool-cases, inl, inr,
}
use cs.Base.Text.{Text}
use cs.Base.TextOrder.{Text_order}
use cs.Base.Map.{lookup-insert, lookup-erase, same_key}
use cs.Base.Stream.{StringUtils, getline, getline-length}
use cs.Proxy.Header.{
  Headers, Ingested, add_header, remove_header, value_as_string, value_or_empty, ingest_line,
  ingest_loop, ingest_header,
}

module _ (u : StringUtils) where
  -- A line that is not blank was taken from a stream that is not empty.
  line-shortens :
      (s : Text)
      → is_empty (u.rtrim (getline s).content) ≡ false
      → length (getline s).rest < length s
  line-shortens [] e = absurd (ground (arith, blank))
    where
      is_empty-short : (t : Text) → length t ≤ 0 → is_empty t ≡ true
      is_empty-short [] p = refl
      is_empty-short (c ∷ t) p = absurd (omega arith)

      blank : is_empty (u.rtrim (getline []).content) ≡ true
      blank =
          is_empty-short (u.rtrim (getline []).content)
            (omega (arith, u.length-rtrim (getline []).content, (getline-length []).0))
  line-shortens (c ∷ s) e = (getline-length (c ∷ s)).1 (omega arith)

  ingest_loop-total :
      (fuel : ℕ) (name : Text) (h : Headers) (s : Text)
      → length s < fuel
      → (g : Ingested) × (ingest_loop u fuel name h s ≡ some g)
  unfolding ingest_loop
  ingest_loop-total zero name h s p = absurd (omega arith)
  ingest_loop-total (suc fuel) name h s p =
      elim (Bool-cases (is_empty (u.rtrim (getline s).content))) [
        | inl blank ↦ (
          record { name = name; headers = h; rest = (getline s).rest },
          rw (ingest_loop, blank) refl,
        )
        | inr text ↦
            let (name', h') = ingest_line u (u.rtrim (getline s).content) name h in
            let (g, e) =
              ingest_loop-total fuel name' h' (getline s).rest
                (omega (arith, line-shortens s text)) in
            (g, rw (ingest_loop, text) e)
      ]

  -- ingestHeader always ends with a header, on every stream: the loop's fuel is enough.
  pub ingest_header-total :
      (h : Headers) (s : Text) → (g : Ingested) × (ingest_header u h s ≡ some g)
  unfolding ingest_header
  ingest_header-total h s = ingest_loop-total (suc (length s)) [] h s (omega arith)

  -- After a header is added under a name, a name with the same lower case has its value, and
  -- every other name has the value it had; after a header is removed, a name with the same lower
  -- case has no value, and every other name has the value it had.
  pub value_as_string-add_remove :
      (name other value : Text) (h : Headers)
      → (value_as_string u other (add_header u name value h) ≡ (
          if same_key (u.to_lower name) (u.to_lower other)
          then value
          else value_as_string u other h))
        × (value_as_string u other (remove_header u name h) ≡ (
            if same_key (u.to_lower name) (u.to_lower other)
            then []
            else value_as_string u other h))
  unfolding value_as_string value_or_empty add_header remove_header
  value_as_string-add_remove name other value h = (
    ground (arith, lookup-insert (u.to_lower name) (u.to_lower other) value h),
    ground (arith, lookup-erase (u.to_lower name) (u.to_lower other) h),
  )
