-- ===== src/Proxy/StrikeSet.antt =====
-- assign6/strikeset.h and strikeset.cc. std::regex is a parameter: how a line of the file matches
-- a whole server name.
use cs.Base.{ℕ, zero, suc, length, ◌++◌, List, [], ◌∷◌, Bool, true, false}
use cs.Base.Text.{Text}
use cs.Base.Stream.{getline}

-- addToStrikeSet: the lines of the file, each a regular expression. A round reads a line, so the
-- length of the file is fuel enough.
unfoldable pub read_lines : ℕ → Text → List Text
read_lines zero s = []
read_lines (suc fuel) s = elim (getline s).failed [
  | true ↦ []
  | false ↦ (getline s).content ∷ read_lines fuel (getline s).rest
]

unfoldable pub add_to_strike_set : Text → List Text → List Text
unfolding read_lines
add_to_strike_set file blocked = blocked ++ read_lines (length file) file

module _ (matches : Text → Text → Bool) where
  unfoldable pub server_is_allowed : List Text → Text → Bool
  server_is_allowed [] server = true
  server_is_allowed (re ∷ blocked) server = elim (matches re server) [
    | true ↦ false
    | false ↦ server_is_allowed blocked server
  ]
