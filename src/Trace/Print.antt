-- ===== src/Trace/Print.antt =====
-- assign3/trace.cc. The traced program is a parameter, as the changes of its state that waitpid
-- reports, in order. So are the text of an address and of an error number, which the libraries make.
pub mod Strings
use cs.Base.{
  ℕ, zero, suc, ◌+◌, ◌*◌, List, [], ◌∷◌, ◌++◌, Option, none, some, Bool, true, false, ◌&&◌, ◌||◌,
  ◌==◌, if◌then◌else◌, take,
}
use cs.Base.Text.{Text, codes, eq_text, find_char}
use cs.Base.TextOrder.{Text_order}
use cs.Base.Map.{Order, lookup, ℤ_order}
use cs.Base.Int.{ℤ, pos, negsuc, to_int, to_size, neg_part, leb_ℤ}
use cs.Base.Number.{show_int}
use cs.Trace.Params.{Signature, ParamType, integer, string, pointer, unknown_type}

-- The bytes from an address on.
unfoldable pub bytes_at : (ℕ → ℕ) → ℕ → ℕ → Text
bytes_at memory addr zero = []
bytes_at memory addr (suc n) = memory addr ∷ bytes_at memory (suc addr) n

-- The eight bytes of a long that PTRACE_PEEKDATA reads at an address.
unfoldable pub peek : (ℕ → ℕ) → ℕ → Text
unfolding bytes_at
peek memory addr = bytes_at memory addr 8

-- readString; none where the fuel has run out
unfoldable pub read_string : ℕ → (ℕ → ℕ) → ℕ → Option Text
unfolding peek
read_string zero memory addr = none
read_string (suc fuel) memory addr = elim (find_char 0 (peek memory addr)) [
  | some n ↦ some (take n (peek memory addr))
  | none ↦ elim (read_string fuel memory (addr + 8)) [
    | none ↦ none
    | some s ↦ some (peek memory addr ++ s)
  ]
]

-- The registers of the traced program: those of the six arguments, and its memory.
pub record Registers : Type 0 where
  pub orig_rax : ℤ
  pub rax : ℤ
  pub argument : ℕ → ℤ
  pub memory : ℕ → ℕ

-- A change of state: a stop, with the signal and whether bit 0x80 marks a system call; the exit; the
-- death by a signal.
pub data Change : Type 0 where
  stopped : ℕ → Bool → Registers → Change
  exited killed : ℕ → Change

-- What continueAndGetRegister comes to: a register, with the changes that follow; -1 at the exit;
-- or no return at all, since no change is left to report.
pub data Continued : Type 0 where
  at_call : Registers → List Change → Continued
  ended : ℕ → Continued
  stuck : Continued

-- continueAndGetRegister. After a death by a signal waitpid fails and leaves the status as it is, so
-- the loop goes on for ever.
unfoldable pub continue_to_call : List Change → Continued
continue_to_call [] = stuck
continue_to_call (stopped sig marked r ∷ cs) =
    let rest = continue_to_call cs in if marked && (sig == 5) then at_call r cs else rest
continue_to_call (exited status ∷ cs) = ended status
continue_to_call (killed sig ∷ cs) = stuck

-- What ptrace gives for a program that has ended.
unfoldable pub no_registers : Registers
no_registers = record {
  orig_rax = pos 0;
  rax = negsuc 0;
  argument = λ i. negsuc 0;
  memory = λ addr. 255;
}

-- The tables of the full mode.
pub record Names : Type 0 where
  pub numbers : List (ℤ × Text)
  pub signatures : List (Text × Signature)
  pub errors : List (ℤ × Text)

module _ (show_address : ℤ → Text) (strerror : ℤ → Text) (fuel : ℕ) where
  -- One argument; none where a string in memory has no end.
  unfoldable pub show_string : Option Text → Option Text
  show_string none = none
  show_string (some s) = some (b'"' ∷ (s ++ (b'"' ∷ [])))

  unfoldable pub is_null : ℤ → Bool
  is_null (pos zero) = true
  is_null (pos (suc n)) = false
  is_null (negsuc n) = false

  unfoldable pub show_argument : ParamType → ℤ → (ℕ → ℕ) → Option Text
  unfolding show_string read_string is_null show_int
  show_argument integer v memory = some (show_int (to_int v))
  show_argument string v memory = show_string (read_string fuel memory (to_size v))
  show_argument pointer v memory = some (if is_null v then codes "NULL" else show_address v)
  show_argument unknown_type v memory = some (codes "<unknown_type>")

  unfoldable pub show_more : Text → Option Text → Option Text
  show_more s none = none
  show_more s (some more) = some (s ++ (codes ", " ++ more))

  -- The loop over the parameters, from number i.
  unfoldable pub show_arguments : ℕ → Signature → Registers → Option Text
  unfolding show_argument show_more
  show_arguments i [] r = some []
  show_arguments i (t ∷ []) r = show_argument t (r.argument i) r.memory
  show_arguments i (t ∷ u ∷ sig) r = elim (show_argument t (r.argument i) r.memory) [
    | none ↦ none
    | some s ↦ show_more s (show_arguments (suc i) (u ∷ sig) r)
  ]

  -- The call as it is entered, with the name; none where it cannot be printed, since map::at throws
  -- or a string has no end.
  unfoldable pub show_named : Names → Text → Registers → Option Text
  unfolding show_arguments
  show_named names name r = elim (lookup name names.signatures) [
    | none ↦ some (codes "<signature_information_missing>")
    | some sig ↦ show_arguments 0 sig r
  ]

  unfoldable pub show_call : Names → Registers → Option (Text × Text)
  unfolding show_named
  show_call names r = elim (lookup r.orig_rax names.numbers) [
    | none ↦ none
    | some name ↦ elim (show_named names name r) [
      | none ↦ none
      | some args ↦ some (name, name ++ (b'(' ∷ (args ++ codes ") = ")))
    ]
  ]

  -- The value that a call returns; none where map::at throws. An error is printed as -1, the name
  -- of the constant and the message.
  unfoldable pub show_error : Names → ℤ → Option Text
  show_error names number = elim (lookup number names.errors) [
    | none ↦ none
    | some constant ↦
        some (codes "-1 " ++ (constant ++ (codes " (" ++ (strerror number ++ codes ")"))))
  ]

  unfoldable pub show_value : Names → Text → ℤ → Option Text
  unfolding show_error show_int
  show_value names name v =
      if eq_text name (codes "brk") || eq_text name (codes "mmap")
      then some (show_address v)
      else (if leb_ℤ (pos 0) v
          then some (show_int (to_int v))
          else show_error names (to_int (pos (neg_part v))))

  -- A line of output, and whether the program is at its end: the status, or the changes to come.
  pub data Printed : Type 0 where
    line : Text → List Change → Printed
    last : Text → ℕ → Printed
    hangs : Text → Printed
    throws : Text → Printed

  unfoldable pub print_value : Text → Option Text → List Change → Printed
  print_value s none cs = throws s
  print_value s (some v) cs = line (s ++ (v ++ (10 ∷ []))) cs

  unfoldable pub print_return : (ℤ → Option Text) → Text → Continued → Printed
  unfolding print_value
  print_return value s (at_call r cs) = print_value s (value r.rax) cs
  print_return value s (ended status) = last (s ++ (codes "<no return>" ++ (10 ∷ []))) status
  print_return value s stuck = hangs s

  -- printSyscallInfo in the simple mode
  unfoldable pub print_simple : Continued → Printed
  unfolding print_return continue_to_call show_int
  print_simple (at_call r cs) =
      print_return (λ v. some (show_int v))
        (codes "syscall(" ++ (show_int r.orig_rax ++ codes ") = ")) (continue_to_call cs)
  print_simple (ended status) = last (codes "syscall(0) = <no return>" ++ (10 ∷ [])) status
  print_simple stuck = hangs []

  unfoldable pub print_named : Names → Option (Text × Text) → Continued → Printed
  unfolding print_return show_value
  print_named names none next = throws []
  print_named names (some (name, s)) next = print_return (show_value names name) s next

  -- printSyscallInfo in the full mode. That the program has ended is not looked at: the number is 0
  -- then, and what ptrace reads is -1.
  unfoldable pub print_full : Names → Continued → Printed
  unfolding print_named show_call continue_to_call
  print_full names (at_call r cs) = print_named names (show_call names r) (continue_to_call cs)
  print_full names (ended status) = print_named names (show_call names no_registers) (ended status)
  print_full names stuck = hangs []

  -- The loop of main: the lines printed, and the last line; a round takes a change, so the number
  -- of changes is fuel enough.
  unfoldable pub print_all : (Continued → Printed) → ℕ → List Change → List Text × Printed
  unfolding continue_to_call
  print_all print zero cs = ([], hangs [])
  print_all print (suc rounds) cs = elim (print (continue_to_call cs)) [
    | line s cs' ↦ let (lines, end) = print_all print rounds cs' in (s ∷ lines, end)
    | last s status ↦ ([], last s status)
    | hangs s ↦ ([], hangs s)
    | throws s ↦ ([], throws s)
  ]
