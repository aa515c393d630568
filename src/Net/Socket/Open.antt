-- ===== src/Net/Socket/Open.antt =====
-- `socket_ctor` of net/socket.c: a socket for a server or a client. Messages, signals and the freeing of the
-- addresses are left out; `nonblock` goes to the system with the call of socket.
pub mod Ledger
use wee.Base.{ℕ, ◌≡◌, Bool, true, false, Option, none, some, List, [], ◌∷◌, if◌then◌else◌, ◌==◌}
use wee.Base.Memory.{Bytes}
use wee.ThreadPool.Nodes.{erase, first}

-- The system calls, over a state W of the world; an address of getaddrinfo is a number. `opened` is what
-- the process has open: the code does not read it.
pub record Opening (W : Type 0) : Type 0 where
  pub getaddrinfo : Option Bytes → Bytes → W → Option (List ℕ) × W
  pub socket : Bool → ℕ → W → Option ℕ × W
  pub setsockopt : ℕ → ℕ → W → Bool × W
  pub bind : ℕ → ℕ → W → Bool × W
  pub connect : ℕ → ℕ → W → Bool × W
  pub close : ℕ → W → W
  pub opened : W → List ℕ
  pub getaddrinfo-opened :
      (host : Option Bytes) (port : Bytes) (w : W) → opened (getaddrinfo host port w).1 ≡ opened w
  pub socket_fails :
      (nonblock : Bool) (a : ℕ) (w : W)
      → (socket nonblock a w).0 ≡ none
      → opened (socket nonblock a w).1 ≡ opened w
  pub socket_opens :
      (nonblock : Bool) (a fd : ℕ) (w : W)
      → (socket nonblock a w).0 ≡ some fd
      → opened (socket nonblock a w).1 ≡ fd ∷ opened w
  pub setsockopt-opened : (fd option : ℕ) (w : W) → opened (setsockopt fd option w).1 ≡ opened w
  pub bind-opened : (fd a : ℕ) (w : W) → opened (bind fd a w).1 ≡ opened w
  pub connect-opened : (fd a : ℕ) (w : W) → opened (connect fd a w).1 ≡ opened w
  pub close-opened : (fd : ℕ) (w : W) → opened (close fd w) ≡ erase fd (opened w)

-- How the loop over the addresses ends: with a socket, with a socket that was closed for an option, or
-- behind the last address with what `sockfd` is then.
pub data Found : Type 0 where
  socket_for : ℕ → Found
  gave_up : Found
  exhausted : Option ℕ → Found

abbrev pub so_reuseaddr : ℕ
so_reuseaddr = 2

abbrev pub so_reuseport : ℕ
so_reuseport = 15

abbrev pub so_keepalive : ℕ
so_keepalive = 9

abbrev pub tcp_nodelay : ℕ
tcp_nodelay = 1

-- the options in the order in which they are set
abbrev pub socket_options : Bool → List ℕ
socket_options is_server =
    if is_server
    then so_reuseaddr ∷ so_reuseport ∷ so_keepalive ∷ tcp_nodelay ∷ []
    else tcp_nodelay ∷ []

-- a server has no host
abbrev pub no_host : Option Bytes → Bool
no_host none = true
no_host (some host) = false

module _ {W : Type 0} (os : Opening W) where
  open os use {getaddrinfo, socket, setsockopt, bind, connect, close}

  unfoldable pub set_options : ℕ → List ℕ → W → Bool × W
  set_options fd [] w = (true, w)
  set_options fd (o ∷ rest) w =
      let (good, v) = setsockopt fd o w in
      let further = set_options fd rest v in if good then further else (false, v)

  -- what follows a call of bind, or the lack of one
  abbrev pub after_bind : (Option ℕ → W → Found × W) → ℕ → Bool × W → Found × W
  after_bind next fd (true, w) = (socket_for fd, w)
  after_bind next fd (false, w) = next (some fd) w

  abbrev pub after_options : Bool → (Option ℕ → W → Found × W) → ℕ → ℕ → Bool × W → Found × W
  after_options is_server next a fd (false, w) = (gave_up, close fd w)
  after_options is_server next a fd (true, w) =
      after_bind next fd (if is_server then bind fd a w else (true, w))

  abbrev pub after_socket : Bool → (Option ℕ → W → Found × W) → ℕ → Option ℕ × W → Found × W
  after_socket is_server next a (none, w) = next none w
  after_socket is_server next a (some fd, w) =
      after_options is_server next a fd (set_options fd (socket_options is_server) w)

  -- the loop over the addresses
  unfoldable pub try_addresses : Bool → Bool → Option ℕ → List ℕ → W → Found × W
  try_addresses is_server nonblock last [] w = (exhausted last, w)
  try_addresses is_server nonblock last (a ∷ rest) w =
      after_socket is_server (λ last w. try_addresses is_server nonblock last rest w) a
        (socket nonblock a w)

  abbrev pub close_some : Option ℕ → W → W
  close_some none w = w
  close_some (some fd) w = close fd w

  abbrev pub after_connect : ℕ → Bool × W → Option ℕ × W
  after_connect fd (true, w) = (some fd, w)
  after_connect fd (false, w) = (none, close fd w)

  -- What follows the loop. A client is connected to the first address.
  abbrev pub after_search : Bool → List ℕ → Found × W → Option ℕ × W
  after_search is_server addresses (socket_for fd, w) =
      if is_server then (some fd, w) else after_connect fd (connect fd (first addresses) w)
  after_search is_server addresses (gave_up, w) = (none, w)
  after_search is_server addresses (exhausted last, w) = (none, close_some last w)

  abbrev pub after_resolve : Bool → Bool → Option (List ℕ) × W → Option ℕ × W
  after_resolve is_server nonblock (none, w) = (none, w)
  after_resolve is_server nonblock (some addresses, w) =
      after_search is_server addresses (try_addresses is_server nonblock none addresses w)

  unfoldable pub socket_ctor : Option Bytes → Bytes → Bool → W → Option ℕ × W
  socket_ctor host port nonblock w = after_resolve (no_host host) nonblock (getaddrinfo host port w)

  abbrev pub socket_client : Bytes → Bytes → W → Option ℕ × W
  socket_client host port w = socket_ctor (some host) port true w

  abbrev pub socket_client_sync : Bytes → Bytes → W → Option ℕ × W
  socket_client_sync host port w = socket_ctor (some host) port false w

  abbrev pub socket_server : Bytes → W → Option ℕ × W
  socket_server port w = socket_ctor none port true w

  abbrev pub socket_server_sync : Bytes → W → Option ℕ × W
  socket_server_sync port w = socket_ctor none port false w
