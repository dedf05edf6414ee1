-- ===== src/Proxy/Options/Configured.antt =====
-- What the settings satisfy once the arguments have been accepted.
use mathlib.Core.Path.{subst}
use cs.Base.Tests.{Bool-cases, if◌then◌else◌, ◌==◌}
use cs.Base.{
  ℕ, zero, suc, ◌⊎◌, ◌≤◌, ◌≡◌, refl, List, [], ◌∷◌, Option, none, some, Bool, true, false, arith,
  inl, inr,
}
use cs.Base.Text.{Text}
use cs.Base.Number.{Parsed, strtol}
use cs.Base.Int.{ℤ}
use cs.Proxy.Options.{
  Settings, valid_port, port_number_of, with_port, with_server, with_proxy_port, with_max_age,
  configure_flag, configure_flags, check_settings, configure,
}

-- Ports that a socket can use, and the flag of the handler as the specific port sets it.
pub record IsSound (s : Settings) : Type 0 where
  pub port : (1 ≤ s.port_number) × (s.port_number ≤ 65535)
  pub proxy_port : (1 ≤ s.proxy_port_number) × (s.proxy_port_number ≤ 65535)
  pub flagged : s.forward_to_proxy ≡ s.using_specific_proxy_port_number

valid_port-range : (p : Parsed) {n : ℕ} → valid_port p ≡ some n → (1 ≤ n) × (n ≤ 65535)
unfolding valid_port
valid_port-range p {n} e = ground arith

port_number_of-range : (o : Option Text) {n : ℕ} → port_number_of o ≡ some n → (1 ≤ n) × (n ≤ 65535)
unfolding port_number_of
port_number_of-range none e = cc
port_number_of-range (some s) e = valid_port-range (strtol 0 s) e

-- The settings are sound if there are any.
abbrev AllSound : Option Settings → Type 0
AllSound none = Unit
AllSound (some s) = IsSound s

with_port-IsSound :
    (s : Settings) (o : Option ℕ)
    → IsSound s
    → ((n : ℕ) → o ≡ some n → (1 ≤ n) × (n ≤ 65535))
    → AllSound (with_port s o)
unfolding with_port
with_port-IsSound s none v h = tt
with_port-IsSound s (some n) v h = record {
  port = h n refl;
  proxy_port = v.proxy_port;
  flagged = v.flagged;
}

with_proxy_port-IsSound :
    (s : Settings) (o : Option ℕ)
    → IsSound s
    → ((n : ℕ) → o ≡ some n → (1 ≤ n) × (n ≤ 65535))
    → AllSound (with_proxy_port s o)
unfolding with_proxy_port
with_proxy_port-IsSound s none v h = tt
with_proxy_port-IsSound s (some n) v h = record {
  port = v.port;
  proxy_port = h n refl;
  flagged = refl;
}

with_server-IsSound : (s : Settings) (o : Option Text) → IsSound s → AllSound (with_server s o)
unfolding with_server
with_server-IsSound s none v = tt
with_server-IsSound s (some n) v = record {
  port = v.port;
  proxy_port = v.proxy_port;
  flagged = v.flagged;
}

with_max_age-IsSound : (s : Settings) (o : Option ℤ) → IsSound s → AllSound (with_max_age s o)
unfolding with_max_age
with_max_age-IsSound s none v = tt
with_max_age-IsSound s (some n) v = record {
  port = v.port;
  proxy_port = v.proxy_port;
  flagged = v.flagged;
}

AllSound-if :
    (b : Bool) (x y : Option Settings) → AllSound x → AllSound y → AllSound (if b then x else y)
AllSound-if true x y p q = p
AllSound-if false x y p q = q

configure_flag-IsSound :
    (ch : ℕ) (arg : Option Text) (s : Settings) → IsSound s → AllSound (configure_flag ch arg s)
unfolding configure_flag
configure_flag-IsSound ch arg s v =
    AllSound-if (ch == b'p') _ _ (with_port-IsSound s _ v (λ n e. port_number_of-range arg e)) (
      AllSound-if (ch == b's') _ _ (with_server-IsSound s _ v) (
        AllSound-if (ch == b'r') _ _
          (with_proxy_port-IsSound s _ v (λ n e. port_number_of-range arg e))
          (AllSound-if (ch == b'c') _ _
            (record { port = v.port; proxy_port = v.proxy_port; flagged = v.flagged })
            (AllSound-if (ch == b'm') _ _ (with_max_age-IsSound s _ v) tt))))

AllSound-bind :
    (o : Option Settings) (f : Settings → Option Settings)
    → AllSound o
    → ((s : Settings) → IsSound s → AllSound (f s))
    → AllSound (elim o [ none ↦ none | some s ↦ f s ])
AllSound-bind none f h k = tt
AllSound-bind (some s) f h k = k s h

configure_flags-IsSound :
    (flags : List (ℕ × Option Text)) (s : Settings) → IsSound s → AllSound (configure_flags flags s)
unfolding configure_flags
configure_flags-IsSound [] s v = v
configure_flags-IsSound ((ch, arg) ∷ flags) s v =
    AllSound-bind (configure_flag ch arg s) (configure_flags flags)
      (configure_flag-IsSound ch arg s v) (λ s' h. configure_flags-IsSound flags s' h)

pub record Accepted (remaining : ℕ) (s : Settings) : Type 0 where
  pub sound : IsSound s
  pub complete : s.using_proxy ≡ true ⊎ s.using_specific_proxy_port_number ≡ false
  pub defaulted : s.using_specific_proxy_port_number ≡ true ⊎ s.proxy_port_number ≡ s.port_number
  pub used_up : remaining ≡ 0

check_settings-Accepted :
    (remaining : ℕ) (t : Settings) {s' : Settings}
    → IsSound t
    → check_settings remaining t ≡ some s'
    → Accepted remaining s'
unfolding check_settings
check_settings-Accepted (suc n) t {s'} w f = absurd (ground (arith, f))
check_settings-Accepted zero t {s'} w f = elim (Bool-cases t.using_specific_proxy_port_number) [
  | inl specific ↦ elim (Bool-cases t.using_proxy) [
    | inl proxied ↦
        subst (Accepted 0) (kept specific proxied)
          (record { sound = w; complete = inl proxied; defaulted = inl specific; used_up = refl })
    | inr direct ↦ absurd (ground (arith, specific, direct, f))
  ]
  | inr default ↦ subst (Accepted 0) (filled default) (record {
    sound = record { port = w.port; proxy_port = w.port; flagged = w.flagged };
    complete = inr default;
    defaulted = inr refl;
    used_up = refl;
  })
]
  where
    kept : t.using_specific_proxy_port_number ≡ true → t.using_proxy ≡ true → t ≡ s'
    kept specific proxied = cc

    filled :
        t.using_specific_proxy_port_number ≡ false
        → record t { proxy_port_number = t.port_number } ≡ s'
    filled default = ground (arith, default, f)

-- Whatever the arguments, if the configuration succeeds from sound settings then both ports are
-- between 1 and 65535, the handler's flag says whether a proxy port was given, a proxy port
-- is given only with a proxy server, without one the proxy port is the port of the proxy itself,
-- and no argument was left over.
pub configure-IsSound :
    (flags : List (ℕ × Option Text)) (remaining : ℕ) (s : Settings) {s' : Settings}
    → IsSound s
    → configure flags remaining s ≡ some s'
    → Accepted remaining s'
unfolding configure
configure-IsSound flags remaining s {s'} v e =
    final (configure_flags flags s) (configure_flags-IsSound flags s v) e
  where
    final :
        (o : Option Settings)
        → AllSound o
        → elim o [ none ↦ none | some t ↦ check_settings remaining t ] ≡ some s'
        → Accepted remaining s'
    final none h f = cc
    final (some t) h f = check_settings-Accepted remaining t h f
