-- ===== src/Proxy/Options.antt =====
-- assign6/proxy-options.cc and the configuration of assign6/proxy.cc. What getopt_long makes of
-- the arguments is a parameter: the flags in order with their arguments, and how many arguments
-- are left over.
pub mod Configured
use cs.Base.{
  ℕ, suc, ◌+◌, ◌-◌, ◌%◌, List, [], ◌∷◌, Option, none, some, Bool, true, false, not, ◌&&◌, ◌||◌,
  ◌==◌, if◌then◌else◌, is_empty, ltb,
}
use cs.Base.Text.{Text}
use cs.Base.Number.{Parsed, strtol, long_max}
use cs.Base.Int.{ℤ, pos, negsuc, ltb_ℤ, signed, pos_part}
use cs.Proxy.Cache.{Cache, clear, set_max_age}

-- The members of HTTPProxy that the arguments set, and of the handler behind its scheduler.
pub record Settings : Type 0 where
  pub port_number : ℕ
  pub using_proxy : Bool
  pub using_specific_proxy_port_number : Bool
  pub proxy_server : Text
  pub proxy_port_number : ℕ
  pub forward_to_proxy : Bool
  pub cache : Cache

-- computeDefaultPortForUser: none where the user has no name
unfoldable pub default_port : (Text → ℕ) → Option Text → Option ℕ
default_port hash none = none
default_port hash (some username) = some (hash username % (49150 - 2000) + 2000)

-- extractLongInRange: none where it throws
unfoldable pub in_range : ℤ → ℤ → Parsed → Option ℤ
in_range low high p =
    let n = signed p.negative p.value in
    if not (is_empty p.rest) then none else (if ltb_ℤ n low || ltb_ℤ high n then none else some n)

unfoldable pub long_in_range : Option Text → ℤ → ℤ → Option ℤ
unfolding in_range
long_in_range none low high = none
long_in_range (some s) low high = in_range low high (strtol 0 s)

-- extractPortNumber: none where it throws
unfoldable pub valid_port : Parsed → Option ℕ
valid_port p =
    let n = signed p.negative p.value in
    if not (is_empty p.rest)
    then none
    else (if ltb_ℤ n (pos 1) || ltb_ℤ (pos 65535) n then none else some (pos_part n))

unfoldable pub port_number_of : Option Text → Option ℕ
unfolding valid_port
port_number_of none = none
port_number_of (some s) = valid_port (strtol 0 s)

-- extractProxyServer
unfoldable pub proxy_server_of : Option Text → Option Text
proxy_server_of none = none
proxy_server_of (some s) = if is_empty s then none else some s

-- The cases of the switch, given what each extracts.
unfoldable pub with_port : Settings → Option ℕ → Option Settings
with_port s none = none
with_port s (some n) = some (record s { port_number = n })

unfoldable pub with_server : Settings → Option Text → Option Settings
with_server s none = none
with_server s (some name) = some (record s { proxy_server = name; using_proxy = true })

unfoldable pub with_proxy_port : Settings → Option ℕ → Option Settings
with_proxy_port s none = none
with_proxy_port s (some n) = some (record s {
  proxy_port_number = n;
  using_specific_proxy_port_number = true;
  forward_to_proxy = true;
})

unfoldable pub with_max_age : Settings → Option ℤ → Option Settings
with_max_age s none = none
with_max_age s (some n) = some (record s { cache = set_max_age n s.cache })

unfoldable pub configure_flag : ℕ → Option Text → Settings → Option Settings
unfolding with_port with_server with_proxy_port with_max_age
configure_flag ch arg s =
    if ch == b'p'
    then with_port s (port_number_of arg)
    else (if ch == b's'
        then with_server s (proxy_server_of arg)
        else (if ch == b'r'
            then with_proxy_port s (port_number_of arg)
            else (if ch == b'c'
                then some (record s { cache = clear s.cache })
                else (if ch == b'm'
                    then with_max_age s (long_in_range arg (negsuc 0) (pos long_max))
                    else none))))

unfoldable pub configure_flags : List (ℕ × Option Text) → Settings → Option Settings
unfolding configure_flag
configure_flags [] s = some s
configure_flags ((ch, arg) ∷ flags) s = elim (configure_flag ch arg s) [
  | none ↦ none
  | some s' ↦ configure_flags flags s'
]

-- The checks after the loop.
unfoldable pub check_settings : ℕ → Settings → Option Settings
check_settings remaining s =
    if ltb 0 remaining
    then none
    else (if not s.using_proxy && s.using_specific_proxy_port_number
        then none
        else (if s.using_specific_proxy_port_number
            then some s
            else some (record s { proxy_port_number = s.port_number })))

-- configureFromArgumentList: none where HTTPProxyException is thrown
unfoldable pub configure : List (ℕ × Option Text) → ℕ → Settings → Option Settings
unfolding configure_flags check_settings
configure flags remaining s = elim (configure_flags flags s) [
  | none ↦ none
  | some s' ↦ check_settings remaining s'
]

-- The members as the constructor sets them before it reads the arguments.
unfoldable pub initial_settings : ℕ → Cache → Settings
initial_settings port c = record {
  port_number = port;
  using_proxy = false;
  using_specific_proxy_port_number = false;
  proxy_server = [];
  proxy_port_number = port;
  forward_to_proxy = false;
  cache = c;
}
