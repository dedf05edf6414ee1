-- ===== src/Processes/Descriptors/Rewire.antt =====
-- What a sequence of calls makes of the descriptors, where they are open.
use cs.Base.{
  ℕ, ◌≡◌, refl, sym, ap, ◌∙◌, List, ◌∷◌, Option, none, some, Bool, true, false, ◌==◌, arith,
  Bool-cases, inl, inr,
}
use cs.Processes.Descriptors.{
  OpenFile, read_end, write_end, Pipe, open_pipe, Descriptor, Table, assign, Action, close_fd,
  dup_fd, kept_open, dup_from, close_from, act, perform, attempt,
}

act-close :
    (fd : ℕ) (t : Table) {d : Descriptor}
    → t fd ≡ some d
    → act (close_fd fd) t ≡ some (assign fd none t)
unfolding act close_from
act-close fd t e = rw (act, e) refl

act-dup :
    (old new : ℕ) (t : Table) {d : Descriptor}
    → t old ≡ some d
    → (old == new) ≡ false
    → act (dup_fd old new) t ≡ some (assign new (some (kept_open d)) t)
unfolding act dup_from
act-dup old new t e f = rw (act, e, f) refl

perform_next :
    (a : Action) (rest : List Action) (t : Table) {u : Table}
    → act a t ≡ some u
    → perform (a ∷ rest) t ≡ perform rest u
unfolding perform
perform_next a rest t e = rw (perform, e) refl

pub perform-close :
    (fd : ℕ) (rest : List Action) (t : Table) {d : Descriptor}
    → t fd ≡ some d
    → perform (close_fd fd ∷ rest) t ≡ perform rest (assign fd none t)
perform-close fd rest t e = perform_next (close_fd fd) rest t (act-close fd t e)

pub assign_other :
    (fd k : ℕ) (o : Option Descriptor) (t : Table) → (k == fd) ≡ false → assign fd o t k ≡ t k
assign_other fd k o t e = rw e refl

-- A pipe's end takes the place of a standard descriptor, and the other end is closed.
unfoldable pub rewired : ℕ → ℕ → ℕ → Descriptor → Table → Table
rewired mine theirs standard d t =
    assign mine none (assign standard (some (kept_open d)) (assign theirs none t))

pub perform-rewire :
    (mine theirs standard : ℕ) (rest : List Action) (t : Table) {d e : Descriptor}
    → t mine ≡ some d
    → t theirs ≡ some e
    → (mine == theirs) ≡ false
    → (mine == standard) ≡ false
    → perform (close_fd theirs ∷ dup_fd mine standard ∷ close_fd mine ∷ rest) t
      ≡ perform rest (rewired mine theirs standard d t)
unfolding rewired
perform-rewire mine theirs standard rest t {d} p q f g =
    let closed = assign theirs none t in
    let still : closed mine ≡ some d = assign_other theirs mine none t f ∙ p in
    let copied = assign standard (some (kept_open d)) closed in
    perform-close theirs (dup_fd mine standard ∷ close_fd mine ∷ rest) t q
    ∙ perform_next (dup_fd mine standard) (close_fd mine ∷ rest) closed
        (act-dup mine standard closed still g)
    ∙ perform-close mine rest copied
        (assign_other standard mine (some (kept_open d)) closed g ∙ still)

pub rewired_other :
    (mine theirs standard k : ℕ) (d : Descriptor) (t : Table)
    → (k == mine) ≡ false
    → (k == theirs) ≡ false
    → (k == standard) ≡ false
    → rewired mine theirs standard d t k ≡ t k
unfolding rewired
rewired_other mine theirs standard k d t e f g = rw (e, g, f) refl

abbrev pub end_of : Bool → OpenFile → Option Descriptor
end_of closes file = some (record { file = file; cloexec = closes })

pub open_pipe_read :
    (p : Pipe) (t : Table)
    → (p.read_fd == p.write_fd) ≡ false
    → open_pipe p t p.read_fd ≡ end_of true (read_end p.number)
unfolding open_pipe
open_pipe_read p t e = ground (arith, e)

pub open_pipe_write :
    (p : Pipe) (t : Table) → open_pipe p t p.write_fd ≡ end_of true (write_end p.number)
unfolding open_pipe
open_pipe_write p t = ground arith

pub open_pipe_other :
    (p : Pipe) (t : Table) (k : ℕ)
    → (k == p.read_fd) ≡ false
    → (k == p.write_fd) ≡ false
    → open_pipe p t k ≡ t k
unfolding open_pipe
open_pipe_other p t k e f = rw (e, f) refl

attempt_next :
    (a : Action) (rest : List Action) (t : Table) {u : Table}
    → act a t ≡ some u
    → attempt (a ∷ rest) t ≡ attempt rest u
unfolding attempt
attempt_next a rest t e = rw (attempt, e) refl

pub attempt-close :
    (fd : ℕ) (rest : List Action) (t : Table) {d : Descriptor}
    → t fd ≡ some d
    → attempt (close_fd fd ∷ rest) t ≡ attempt rest (assign fd none t)
attempt-close fd rest t e = attempt_next (close_fd fd) rest t (act-close fd t e)

pub attempt-dup :
    (old new : ℕ) (rest : List Action) (t : Table) {d : Descriptor}
    → t old ≡ some d
    → (old == new) ≡ false
    → attempt (dup_fd old new ∷ rest) t ≡ attempt rest (assign new (some (kept_open d)) t)
attempt-dup old new rest t e f = attempt_next (dup_fd old new) rest t (act-dup old new t e f)

pub flipped : (a b : ℕ) → (a == b) ≡ false → (b == a) ≡ false
flipped a b e = ground (arith, e)

-- A descriptor that is not open is not one that is.
pub not_standard :
    (t : Table) (a b : ℕ) {d : Descriptor} → t a ≡ none → t b ≡ some d → (a == b) ≡ false
not_standard t a b {d} p q = elim (Bool-cases (a == b)) [
  | inr other ↦ other
  | inl same ↦
      let at_b : a ≡ b = ground (arith, same) in
      let met : none ≡ some d = sym p ∙ ap t at_b ∙ q in cc
]
