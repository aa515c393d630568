-- ===== src/Nova/Options.antt =====
-- The command line of nova_client/nova.c: from the options that getopt hands over to `globalArgs`. A result
-- none is the end of the program with a usage message. What cJSON makes of a text (nothing, unless it is a
-- JSON object) and atoi are arguments; the timeout is left out.
use wee.Base.{
  ℕ, ◌≤◌, ◌≡◌, sym, ap, Bool, false, ◌||◌, ◌&&◌, not, Option, none, some, List, [], ◌∷◌, ◌++◌, leb,
  ◌==◌, ==_iff, if◌then◌else◌, if_ind, ◌>>=◌, ◌>>◌, guard, arith,
}
use wee.Base.Memory.{Bytes}
use wee.Base.Word.{sle32}
use wee.Base.Text.{codes}
use wee.Nova.Client.{Args}

-- isspace
abbrev pub is_space : ℕ → Bool
is_space c = c == 32 || (leb 9 c && leb c 13)

-- the loop of `trim_opt` from the start
abbrev pub trim_front : Bytes → Bytes
trim_front [] = []
trim_front (c ∷ s) = let rest = trim_front s in if is_space c || c == b'=' then rest else c ∷ s

-- and that from the end
abbrev pub unless_blank : ℕ → Bytes → Bytes
unless_blank c [] = if is_space c then [] else c ∷ []
unless_blank c (d ∷ s) = c ∷ d ∷ s

abbrev pub trim_back : Bytes → Bytes
trim_back [] = []
trim_back (c ∷ s) = unless_blank c (trim_back s)

-- the first byte is never cut off
abbrev pub trim_end : Bytes → Bytes
trim_end [] = []
trim_end (c ∷ s) = c ∷ trim_back s

unfoldable pub trim_opt : Bytes → Bytes
trim_opt s = trim_end (trim_front s)

-- the option -m, split where strrchr finds the last dot
abbrev pub split_further : ℕ → Bytes → Option (Bytes × Bytes) → Option (Bytes × Bytes)
split_further c s (some (service, method)) = some (c ∷ service, method)
split_further c s none = if c == b'.' then some ([], s) else none

abbrev pub split_method : Bytes → Option (Bytes × Bytes)
split_method [] = none
split_method (c ∷ s) = split_further c s (split_method s)

-- `globalArgs` before the tests; a NULL is none
pub record Given : Type 0 where
  pub host : Option Bytes
  pub port : Option Bytes
  pub service : Option Bytes
  pub method : Option Bytes
  pub call_args : Option Bytes
  pub attach : Bytes

abbrev pub given_first : Given
given_first = record {
  host = none;
  port = none;
  service = none;
  method = none;
  call_args = none;
  attach = codes "{}";
}

-- an option of getopt that the program knows
pub data CliOption : Type 0 where
  opt_s : CliOption
  opt_h : Bytes → CliOption
  opt_p : Bytes → CliOption
  opt_m : Bytes → CliOption
  opt_a : Bytes → CliOption
  opt_e : Bytes → CliOption
  opt_usage : CliOption

abbrev pub or_default : Option Bytes → Bytes → Option Bytes
or_default none d = some d
or_default (some s) d = some s

abbrev pub with_method : Given → Option (Bytes × Bytes) → Option Given
with_method g none = none
with_method g (some (service, method)) =
    some (record g { service = some service; method = some method })

unfoldable pub take_option : Given → CliOption → Option Given
take_option g opt_s = some (record g {
  host = or_default g.host (codes "127.0.0.1");
  service = some (codes "com.youzan.service.test");
  method = some (codes "stats");
  call_args = some (codes "{}");
})
take_option g (opt_h s) = some (record g { host = some (trim_opt s) })
take_option g (opt_p s) = some (record g { port = some (trim_opt s) })
take_option g (opt_m s) = with_method g (split_method (trim_opt s))
take_option g (opt_a s) = some (record g { call_args = some (trim_opt s) })
take_option g (opt_e s) = some (record g { attach = trim_opt s })
take_option g opt_usage = none

unfoldable pub take_options : Given → List CliOption → Option Given
take_options g [] = some g
take_options g (o ∷ rest) = take_option g o >>= λ g. take_options g rest

-- The tests behind the options. `atoi` gives an int, and `object` a JSON object as it is sent.
unfoldable pub check_given : (Bytes → ℕ) → (Bytes → Option Bytes) → Given → Option Args
check_given atoi object g = do
  host ← g.host
  port ← g.port
  guard (not (sle32 (atoi port) 0))
  service ← g.service
  method ← g.method
  given ← g.call_args
  call_args ← object given
  seen ← object g.attach
  some (record {
    host = host;
    port = port;
    service = service;
    method = method;
    call_args = call_args;
    attach = g.attach;
  })

-- `main`, up to the call of `nova_invoke`
abbrev pub main_args : (Bytes → ℕ) → (Bytes → Option Bytes) → List CliOption → Option Args
main_args atoi object opts = take_options given_first opts >>= λ g. check_given atoi object g

-- A text without a dot.
abbrev HasNoDot : Bytes → Type 0
HasNoDot [] = 0 ≤ 0
HasNoDot (c ∷ s) = ((c == b'.') ≡ false) × HasNoDot s

abbrev SplitsAtLastDot : Bytes → Option (Bytes × Bytes) → Type 0
SplitsAtLastDot s none = HasNoDot s
SplitsAtLastDot s (some (service, method)) = (service ++ (b'.' ∷ method) ≡ s) × HasNoDot method

split_further-SplitsAtLastDot :
    (c : ℕ) (s : Bytes) (r : Option (Bytes × Bytes))
    → SplitsAtLastDot s r
    → SplitsAtLastDot (c ∷ s) (split_further c s r)
split_further-SplitsAtLastDot c s (some (service, method)) (e, rest) = (ap (λ t. c ∷ t) e, rest)
split_further-SplitsAtLastDot c s none rest =
    if_ind {A = Option (Bytes × Bytes)} (SplitsAtLastDot (c ∷ s)) (c == b'.')
      (λ dot. (ap (λ d. d ∷ s) (sym ((==_iff c b'.').0 dot)), rest)) (λ other. (other, rest))

-- The option -m is split at its last dot into the service and the method, or has no dot.
split_method-SplitsAtLastDot : (s : Bytes) → SplitsAtLastDot s (split_method s)
split_method-SplitsAtLastDot [] = omega arith
split_method-SplitsAtLastDot (c ∷ s) =
    split_further-SplitsAtLastDot c s (split_method s) (split_method-SplitsAtLastDot s)
