-- ===== src/Trace/Store/RoundTrip.antt =====
-- The signatures that are written to the file are the ones read from it.
use mathlib.Core.List.{append-nil}
use cs.Base.{
  ℕ, zero, suc, ◌+◌, ◌≤◌, ◌<◌, ◌≡◌, refl, sym, ap, ◌∙◌, List, [], ◌∷◌, ◌++◌, Option, none, some,
  Bool, true, false, not, ◌&&◌, length, all, if◌then◌else◌, arith, is_empty, append_assoc,
  length-append, All,
}
use cs.Base.Text.{Text, lt_text}
use cs.Base.TextOrder.{Text_order, lt_text_asymm, lt_text_irrefl}
use cs.Base.Map.{lookup, insert}
use cs.Base.Ascending.{Below, IsOrdered, Follows, insert_last, Follows-snoc, Follows-nil}
use cs.Base.Int.{pos}
use cs.Base.Number.{show_nat, is_space, stoi, skip_spaces}
use cs.Base.Number.Digits.{stoi-show_nat, show_nat_word}
use cs.Base.Stream.{read_word, take_word}
use cs.Base.Stream.Words.{is_word, read_word-append, read_word-space}
use cs.Trace.Params.{
  Signature, ParamType, integer, string, pointer, unknown_type, show_param, param_of, read_param,
}
use cs.Trace.Signatures.{Signatures}
use cs.Trace.Store.{
  show_params, show_signatures, signature_of, push_param, read_params, touch, load_counted,
  load_entry, load_loop, load_signatures,
}

insert_over :
    (name : Text) (sig old : Signature) (m : Signatures)
    → Below m name
    → insert name sig (m ++ ((name, old) ∷ [])) ≡ m ++ ((name, sig) ∷ [])
unfolding insert
insert_over name sig old [] b = ground (arith, lt_text_irrefl name)
insert_over name sig old ((k, s) ∷ m) b =
    ground (arith, lt_text_asymm k name, insert_over name sig old m)

lookup_last :
    (name : Text) (sig : Signature) (m : Signatures)
    → Below m name
    → (lookup name m ≡ none) × (lookup name (m ++ ((name, sig) ∷ [])) ≡ some sig)
unfolding lookup
lookup_last name sig [] b = (refl, ground (arith, lt_text_irrefl name))
lookup_last name sig ((k, s) ∷ m) b = ground (arith, lt_text_asymm k name, lookup_last name sig m)

push_param_last :
    (name : Text) (t : ParamType) (sig : Signature) (m : Signatures)
    → Below m name
    → push_param name t (m ++ ((name, sig) ∷ [])) ≡ m ++ ((name, sig ++ (t ∷ [])) ∷ [])
unfolding push_param signature_of
push_param_last name t sig m b =
    rw ((lookup_last name sig m b).1) (insert_over name (sig ++ (t ∷ [])) sig m b)

param_of-show_param : (t : ParamType) → param_of (show_param t) ≡ t
unfolding param_of show_param cs.Base.Text.eq_text
param_of-show_param integer = refl
param_of-show_param string = refl
param_of-show_param pointer = refl
param_of-show_param unknown_type = refl

show_param_word : (t : ParamType) → is_word (show_param t) ≡ true
unfolding show_param is_space
show_param_word integer = refl
show_param_word string = refl
show_param_word pointer = refl
show_param_word unknown_type = refl

read_param_one :
    (t : ParamType) (c : ℕ) (rest : Text)
    → is_space c ≡ true
    → read_param (32 ∷ (show_param t ++ (c ∷ rest))) ≡ (t, c ∷ rest)
unfolding read_param
read_param_one t c rest e =
    ap (λ (p : Text × Text). (param_of p.0, p.1))
      (read_word-space 32 (show_param t ++ (c ∷ rest)) (unfold is_space in refl)
        ∙ read_word-append (show_param t) c rest (show_param_word t) e)
    ∙ ap (λ x. (x, c ∷ rest)) (param_of-show_param t)

-- What follows a parameter starts with white space.
show_params_head :
    (sig : Signature) (rest : Text)
    → (c : ℕ) × (r : Text) × (show_params sig ++ (10 ∷ rest) ≡ c ∷ r) × (is_space c ≡ true)
unfolding show_params is_space
show_params_head [] rest = (10, rest, refl, refl)
show_params_head (t ∷ sig) rest = (32, (show_param t ++ show_params sig) ++ (10 ∷ rest), refl, refl)

read_param_next :
    (t : ParamType) (sig : Signature) (rest : Text)
    → read_param (show_params (t ∷ sig) ++ (10 ∷ rest)) ≡ (t, show_params sig ++ (10 ∷ rest))
unfolding show_params
read_param_next t sig rest =
    let (c, r, e, space) = show_params_head sig rest in
    ap (λ x. read_param (32 ∷ x))
      (append_assoc (show_param t) (show_params sig) (10 ∷ rest) ∙ ap (λ x. show_param t ++ x) e)
    ∙ read_param_one t c r space
    ∙ ap (λ x. (t, x)) (sym e)

read_params_step :
    (n : ℕ) (name s : Text) (m : Signatures) (t : ParamType) (rest : Text)
    → read_param s ≡ (t, rest)
    → read_params (suc n) name s m ≡ read_params n name rest (push_param name t m)
unfolding read_params
read_params_step n name s m t rest e =
    ap (λ (p : ParamType × Text). read_params n name p.1 (push_param name p.0 m)) e

-- Reading the parameters appends them to the entry that stands last.
read_params_last :
    (sig : Signature) (name : Text) (have : Signature) (m : Signatures) (rest : Text)
    → Below m name
    → read_params (length sig) name (show_params sig ++ (10 ∷ rest)) (m ++ ((name, have) ∷ []))
      ≡ (10 ∷ rest, m ++ ((name, have ++ sig) ∷ []))
read_params_last [] name have m rest b = unfold read_params show_params in rw append-nil refl
read_params_last (t ∷ sig) name have m rest b =
    read_params_step (length sig) name (show_params (t ∷ sig) ++ (10 ∷ rest))
      (m ++ ((name, have) ∷ [])) t (show_params sig ++ (10 ∷ rest)) (read_param_next t sig rest)
    ∙ ap (read_params (length sig) name (show_params sig ++ (10 ∷ rest)))
        (push_param_last name t have m b)
    ∙ read_params_last sig name (have ++ (t ∷ [])) m rest b
    ∙ ap (λ x. (10 ∷ rest, m ++ ((name, x) ∷ []))) (append_assoc have (t ∷ []) sig)

load_entry_step :
    (name s w rest : Text) (n : ℕ) (m : Signatures)
    → read_word s ≡ (w, rest)
    → stoi w ≡ some (pos n)
    → load_entry name s m ≡ some (read_params n name rest (touch name m))
unfolding load_entry load_counted
load_entry_step name s w rest n m e f =
    ap (λ (p : Text × Text). load_counted (stoi p.0) name p.1 m) e
    ∙ ap (λ o. load_counted o name rest m) f

touch_last : (name : Text) (m : Signatures) → Below m name → touch name m ≡ m ++ ((name, []) ∷ [])
unfolding touch signature_of
touch_last name m b = rw ((lookup_last name [] m b).0) (insert_last name [] m b)

read_count :
    (n : ℕ) (sig : Signature) (rest : Text)
    → read_word (32 ∷ (show_nat n ++ (show_params sig ++ (10 ∷ rest))))
      ≡ (show_nat n, show_params sig ++ (10 ∷ rest))
read_count n sig rest =
    let (c, r, e, space) = show_params_head sig rest in
    let (d, t, f, word) = show_nat_word n in
    read_word-space 32 (show_nat n ++ (show_params sig ++ (10 ∷ rest))) (unfold is_space in refl)
    ∙ rw (e, f) (read_word-append (d ∷ t) c r word space)

-- One entry, behind its name.
load_entry_last :
    (name : Text) (sig : Signature) (m : Signatures) (rest : Text)
    → Below m name
    → length sig ≤ 2147483647
    → load_entry name (32 ∷ (show_nat (length sig) ++ (show_params sig ++ (10 ∷ rest)))) m
      ≡ some (10 ∷ rest, m ++ ((name, sig) ∷ []))
load_entry_last name sig m rest b small =
    load_entry_step name _ (show_nat (length sig)) (show_params sig ++ (10 ∷ rest)) (length sig) m
      (read_count (length sig) sig rest) (stoi-show_nat (length sig) small)
    ∙ ap (λ x. some (read_params (length sig) name (show_params sig ++ (10 ∷ rest)) x))
        (touch_last name m b)
    ∙ ap some (read_params_last sig name [] m rest b)

-- What can be written: names are words, and a count is an int.
abbrev pub IsStorable : Text × Signature → Type 0
IsStorable e = (is_word e.0 ≡ true) × (length e.1 ≤ 2147483647)

load_loop_step :
    (fuel : ℕ) (s name rest rest' : Text) (m m' : Signatures)
    → read_word s ≡ (name, rest)
    → is_empty name ≡ false
    → load_entry name rest m ≡ some (rest', m')
    → load_loop (suc fuel) s m ≡ load_loop fuel rest' m'
unfolding load_loop
load_loop_step fuel s name rest rest' m m' e f g = rw (load_loop, named, entry) refl
  where
    named : is_empty (read_word s).0 ≡ false
    named = ap (λ (p : Text × Text). is_empty p.0) e ∙ f

    entry : load_entry (read_word s).0 (read_word s).1 m ≡ some (rest', m')
    entry = ap (λ (p : Text × Text). load_entry p.0 p.1 m) e ∙ g

load_loop_end :
    (fuel : ℕ) (s : Text) (m : Signatures)
    → read_word s ≡ ([], [])
    → load_loop (suc fuel) s m ≡ some m
unfolding load_loop
load_loop_end fuel s m e = rw (load_loop, e) refl

load_loop-show_signatures :
    (rest m : Signatures) (fuel : ℕ) (s : Text)
    → length rest < fuel
    → read_word s ≡ read_word (show_signatures rest)
    → Follows m rest
    → IsOrdered rest
    → All IsStorable rest
    → load_loop fuel s m ≡ some (m ++ rest)
load_loop-show_signatures [] m zero s h e f o w = absurd (omega arith)
load_loop-show_signatures [] m (suc fuel) s h e f o w =
    load_loop_end fuel s m (e ∙ unfold show_signatures read_word skip_spaces take_word in refl)
    ∙ ap some (sym (append-nil m))
load_loop-show_signatures ((name, sig) ∷ rest) m zero s h e f o w = absurd (omega arith)
load_loop-show_signatures ((name, sig) ∷ rest) m (suc fuel) s h e f o w =
    load_loop_step fuel s name _ _ m _ (e ∙ first) (nonempty name w.0.0)
      (load_entry_last name sig m (show_signatures rest) f.0 w.0.1)
    ∙ load_loop-show_signatures rest (m ++ ((name, sig) ∷ [])) fuel (10 ∷ show_signatures rest)
        (omega arith) (read_word-space 10 (show_signatures rest) newline)
        (Follows-snoc m name sig rest f.1 o.0) o.1 w.1
    ∙ ap some (append_assoc m ((name, sig) ∷ []) rest)
  where
    newline : is_space 10 ≡ true
    newline = unfold is_space in refl

    first :
        read_word (show_signatures ((name, sig) ∷ rest))
        ≡ (name, 32 ∷ (show_nat (length sig) ++ (show_params sig ++ (10 ∷ show_signatures rest))))
    first = unfold show_signatures in read_word-append name 32 _ w.0.0 (unfold is_space in refl)

    nonempty : (x : Text) → is_word x ≡ true → is_empty x ≡ false
    nonempty [] q = cc
    nonempty (c ∷ x) q = refl

entries-length : (m : Signatures) → length m ≤ length (show_signatures m)
unfolding show_signatures
entries-length [] = omega arith
entries-length ((name, sig) ∷ m) =
    let count = show_nat (length sig) in
    let params = show_params sig in
    let behind = show_signatures m in
    omega (
      arith,
      entries-length m,
      length-append name (32 ∷ (count ++ (params ++ (10 ∷ behind)))),
      length-append count (params ++ (10 ∷ behind)),
      length-append params (10 ∷ behind),
    )

-- A map of signatures in the order of its keys, whose names are words and which have at most
-- 2147483647 parameters each, is read back as it is from the file that cacheSignatures writes, into
-- an empty map.
pub load_signatures-show_signatures :
    (m : Signatures)
    → IsOrdered m
    → All IsStorable m
    → load_signatures (show_signatures m) [] ≡ some m
unfolding load_signatures
load_signatures-show_signatures m o w =
    load_loop-show_signatures m [] (suc (length (show_signatures m))) (show_signatures m)
      (omega (arith, entries-length m)) refl (Follows-nil m) o w
