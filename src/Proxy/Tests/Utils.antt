-- ===== src/Proxy/Tests/Utils.antt =====
-- String functions as the proxy relies on them.
use cs.Base.{
  ℕ, ◌+◌, ◌≤◌, ◌≡◌, refl, [], ◌∷◌, ◌++◌, false, ◌&&◌, arith, if◌then◌else◌, length, is_empty,
}
use cs.Base.Tests.{leb}
use cs.Base.Text.{Text}
use cs.Base.Number.{is_space, skip_spaces}
use cs.Base.Int.{pos}
use cs.Base.Stream.{StringUtils}
use cs.Proxy.Header.RoundTrip.{IsTrimming}

-- Trimming on the right.
unfoldable pub drop_end : Text → Text
unfolding is_space
drop_end [] = []
drop_end (c ∷ s) = let rest = drop_end s in if is_empty rest && is_space c then [] else c ∷ rest

pub length-drop_end : (s : Text) → length (drop_end s) ≤ length s
unfolding drop_end
length-drop_end [] = omega arith
length-drop_end (c ∷ s) = ground (arith, length-drop_end s)

unfoldable pub lower : ℕ → ℕ
lower c = if leb 65 c && leb c 90 then c + 32 else c

lower_idem : (c : ℕ) → lower (lower c) ≡ lower c
unfolding lower
lower_idem c = ground arith

unfoldable pub lower_all : Text → Text
unfolding lower
lower_all [] = []
lower_all (c ∷ s) = lower c ∷ lower_all s

pub lower_all_idem : (s : Text) → lower_all (lower_all s) ≡ lower_all s
unfolding lower_all
lower_all_idem [] = refl
lower_all_idem (c ∷ s) = rw (lower_idem c, lower_all_idem s)

abbrev pub utils : StringUtils
utils = record {
  trim = λ s. drop_end (skip_spaces s);
  rtrim = drop_end;
  to_lower = lower_all;
  unset_int = pos 0;
  length-rtrim = length-drop_end;
  to_lower_idem = lower_all_idem;
}

drop_end_return : (s : Text) → drop_end (s ++ (13 ∷ [])) ≡ drop_end s
unfolding drop_end is_space
drop_end_return [] = refl
drop_end_return (c ∷ s) = rw (drop_end_return s) refl

is_empty_behind : (s t : Text) → is_empty t ≡ false → is_empty (s ++ t) ≡ false
is_empty_behind [] t e = e
is_empty_behind (c ∷ s) t e = refl

drop_end_behind : (s t : Text) → is_empty (drop_end t) ≡ false → drop_end (s ++ t) ≡ s ++ drop_end t
unfolding drop_end
drop_end_behind [] t e = refl
drop_end_behind (c ∷ s) t e = rw (drop_end_behind s t e, is_empty_behind s (drop_end t) e) refl

pub utils-IsTrimming : IsTrimming utils
unfolding is_space skip_spaces
utils-IsTrimming = record {
  rtrim_return = drop_end_return;
  rtrim_behind = drop_end_behind;
  trim_space = λ s. refl;
}
