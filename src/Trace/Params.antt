-- ===== src/Trace/Params.antt =====
-- assign3/trace-system-calls.h, and how trace-system-calls.cc writes, reads and infers the types of
-- parameters.
use cs.Base.{ℕ, List, none, some, Bool, true, false, ◌||◌, if◌then◌else◌}
use cs.Base.Text.{Text, codes, eq_text, find_char}
use cs.Base.Stream.{read_word}

-- scParamType
pub data ParamType : Type 0 where
  integer string pointer unknown_type : ParamType

-- systemCallSignature
abbrev pub Signature : Type 0
Signature = List ParamType

-- operator<<
unfoldable pub show_param : ParamType → Text
show_param integer = codes "SYSCALL_INTEGER"
show_param string = codes "SYSCALL_STRING"
show_param pointer = codes "SYSCALL_POINTER"
show_param unknown_type = codes "SYSCALL_UNKNOWN_TYPE"

unfoldable pub param_of : Text → ParamType
param_of s =
    if eq_text s (codes "SYSCALL_INTEGER")
    then integer
    else (if eq_text s (codes "SYSCALL_STRING")
        then string
        else (if eq_text s (codes "SYSCALL_POINTER") then pointer else unknown_type))

-- operator>>, with the rest of the stream
unfoldable pub read_param : Text → ParamType × Text
unfolding param_of read_word
read_param s = let (w, rest) = read_word s in (param_of w, rest)

unfoldable pub has_char : ℕ → Text → Bool
has_char c s = elim (find_char c s) [ none ↦ false | some i ↦ true ]

-- normalizeType
unfoldable pub normalize_type : Text → ParamType
unfolding has_char
normalize_type s =
    if eq_text s (codes "const char __user *") || eq_text s (codes "const char *")
    then string
    else (if eq_text s (codes "unsigned long") || has_char b'*' s then pointer else integer)
