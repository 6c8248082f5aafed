-- ===== src/Mcp/Transport.antt =====
-- packages/simgadget-mcp/src/transport.ts.
pub mod Laws
use simgadget.Prelude.{
  if◌then◌else◌, Bool, true, false, ◌||◌, ◌&&◌, ◌==◌, not, List, [], ◌∷◌, ◌++◌, Option, none, some,
  map,
}
use simgadget.Prelude.Text.{Text, text, text_eq, is_empty, non_empty, member}

-- `CliArgs`
pub record CliArgs : Type 0 where
  pub transport : Option Text
  pub host : Option Text
  pub port : Option Text
  pub verbose : Bool

abbrev pub no_args : CliArgs
no_args = record { transport = none; host = none; port = none; verbose = false }

-- `arg.slice(0, eq)` and `arg.slice(eq + 1)`, the latter where there is a `=`.
abbrev pub key_of : Text → Text
key_of [] = []
key_of (c ∷ s) = if c == b'=' then [] else c ∷ key_of s

abbrev pub value_of : Text → Option Text
value_of [] = none
value_of (c ∷ s) = if c == b'=' then some s else value_of s

-- What the switch does with a key.
pub data Flag : Type 0 where
  sets_transport : Text → Flag
  takes_transport takes_host takes_port sets_verbose unknown : Flag

unfoldable pub flag_of : Text → Flag
flag_of key =
    if text_eq key (text "--http")
    then sets_transport (text "http")
    else if text_eq key (text "--stdio")
    then sets_transport (text "stdio")
    else if text_eq key (text "--transport")
    then takes_transport
    else if text_eq key (text "--host")
    then takes_host
    else if text_eq key (text "--port")
    then takes_port
    else if text_eq key (text "--verbose") || text_eq key (text "-v")
    then sets_verbose
    else unknown

-- Whether a flag asks for its value.
abbrev pub takes_value : Flag → Bool
takes_value takes_transport = true
takes_value takes_host = true
takes_value takes_port = true
takes_value _ = false

-- `out.… = …`, where a value that is missing is undefined.
abbrev assigned : Flag → Option Text → CliArgs → CliArgs
assigned (sets_transport name) value out = record out { transport = some name }
assigned takes_transport value out = record out { transport = value }
assigned takes_host value out = record out { host = value }
assigned takes_port value out = record out { port = value }
assigned sets_verbose value out = record out { verbose = true }
assigned unknown value out = out

-- The loop of `parseArgs`. The flag that waits for its value in the next argument is carried along.
unfoldable pub parse_from : Option Flag → CliArgs → List Text → CliArgs
unfolding flag_of
parse_from none out [] = out
parse_from (some flag) out [] = assigned flag none out
parse_from (some flag) out (arg ∷ argv) = parse_from none (assigned flag (some arg) out) argv
parse_from none out (arg ∷ argv) =
    let flag = flag_of (key_of arg) in
    let waits = parse_from (some flag) out argv in
    let goes_on = parse_from none (assigned flag (value_of arg) out) argv in
    elim (value_of arg) [
      | none ↦ if takes_value flag then waits else goes_on
      | some value ↦ goes_on
    ]

-- `parseArgs`
unfoldable pub parse_args : List Text → CliArgs
unfolding parse_from
parse_args = parse_from none no_args

-- `TransportConfig`; `N` is what `Number` gives.
pub record TransportConfig {ℓ} (N : Type ℓ) : Type ℓ where
  pub transport : Text
  pub host : Text
  pub port : N
  pub verbose : Bool

-- `cli || env`, where the empty string is as good as none.
abbrev given_or {ℓ} : {A : Type ℓ} → Option Text → (Text → A) → A → A
given_or none use_it fallback = fallback
given_or (some value) use_it fallback = if is_empty value then fallback else use_it value

-- `resolveConfig`; the environment's half comes with its defaults.
unfoldable pub resolve_config {ℓ} :
    {N : Type ℓ} → (Text → Text) → (Text → N) → TransportConfig N → CliArgs → TransportConfig N
resolve_config lower number env cli = record {
  transport = lower (given_or cli.transport (λ t. t) env.transport);
  host = given_or cli.host (λ h. h) env.host;
  port = given_or cli.port number env.port;
  verbose = cli.verbose || env.verbose;
}

-- `CONTAINER_HOST_NAMES`
abbrev container_host_names : List Text
container_host_names =
    text "host.docker.internal"
    ∷ text "gateway.docker.internal"
    ∷ text "host.containers.internal"
    ∷ []

abbrev fixed_names : List Text
fixed_names = text "127.0.0.1" ∷ text "localhost" ∷ text "[::1]" ∷ container_host_names

-- `names.add(host)`
abbrev add : Text → List Text → List Text
add name names = if member name names then names else names ++ name ∷ []

abbrev explicit : Text → Bool
explicit host =
    non_empty host && not (text_eq host (text "0.0.0.0")) && not (text_eq host (text "::"))

-- `allowedHostHeaders`; the port is written as `String` writes it.
unfoldable pub allowed_host_headers : Text → Text → List Text → List Text
allowed_host_headers host port allowed_hosts =
    map (λ name. name ++ text ":" ++ port)
      (if explicit host then add host fixed_names else fixed_names)
    ++ allowed_hosts

-- `url.split("?")[0]`
abbrev pub path_of : Text → Text
path_of [] = []
path_of (c ∷ s) = if c == b'?' then [] else c ∷ path_of s

-- What is answered to a request of the listener.
pub data Answer : Type 0 where
  not_found method_not_allowed host_rejected served : Answer

-- `runHttp`: where a request goes, by its URL, its method and its Host header.
unfoldable pub route : List Text → Text → Text → Option Text → Answer
route allowed url method host =
    if not (text_eq (path_of url) (text "/mcp"))
    then not_found
    else if not (text_eq method (text "POST"))
    then method_not_allowed
    else if not (member (elim host [ none ↦ [] | some h ↦ h ]) allowed)
    then host_rejected
    else served
