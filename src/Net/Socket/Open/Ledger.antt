-- ===== src/Net/Socket/Open/Ledger.antt =====
-- `socket_ctor` of net/socket.c opens the socket that it returns, and leaves no other open, where no bind
-- fails.
use wee.Base.{
  ℕ, ◌≡◌, refl, sym, ap, ◌∙◌, Bool, true, false, Option, none, some, List, [], ◌∷◌, if◌then◌else◌,
  if_ind, arith,
}
use wee.Base.Memory.{Bytes}
use wee.ThreadPool.Nodes.{erase, first}
use wee.Net.Socket.Open.{
  Opening, Found, socket_for, gave_up, exhausted, socket_options, set_options, after_bind,
  after_options, after_socket, try_addresses, after_connect, after_search, after_resolve, no_host,
  socket_ctor,
}

erase-first : (fd : ℕ) (xs : List ℕ) → erase fd (fd ∷ xs) ≡ xs
erase-first fd xs = ground arith

-- the descriptors that a result adds to those that were open
abbrev pub with_result : Option ℕ → List ℕ → List ℕ
with_result none xs = xs
with_result (some fd) xs = fd ∷ xs

-- what the loop holds open when it ends
abbrev with_found : Found → List ℕ → List ℕ
with_found (socket_for fd) xs = fd ∷ xs
with_found gave_up xs = xs
with_found (exhausted last) xs = with_result last xs

module _ {W : Type 0} (os : Opening W) where
  open os use {
    opened, socket, setsockopt, bind, connect, close, socket_fails, socket_opens, setsockopt-opened,
    bind-opened, connect-opened, close-opened, getaddrinfo, getaddrinfo-opened,
  }

  set_options-opened :
      (fd : ℕ) (os' : List ℕ) (w : W) → opened (set_options os fd os' w).1 ≡ opened w
  unfolding set_options
  set_options-opened fd [] w = refl
  set_options-opened fd (o ∷ rest) w =
      if_ind {A = Bool × W} (λ r. opened r.1 ≡ opened w) (setsockopt fd o w).0
        (λ _. set_options-opened fd rest (setsockopt fd o w).1 ∙ setsockopt-opened fd o w)
        (λ _. setsockopt-opened fd o w)

  module _ (is_server nonblock : Bool) (held : List ℕ)
      (binds : (fd a : ℕ) (w : W) → is_server ≡ true → (bind fd a w).0 ≡ true) where
    bound :
        (next : Option ℕ → W → Found × W) (fd : ℕ) (r : Bool × W)
        → r.0 ≡ true
        → opened r.1 ≡ fd ∷ held
        → opened (after_bind os next fd r).1 ≡ with_found (after_bind os next fd r).0 held
    bound next fd (true, w) e o = o
    bound next fd (false, w) e o = absurd (cc)

    with_options :
        (next : Option ℕ → W → Found × W) (a fd : ℕ) (r : Bool × W)
        → opened r.1 ≡ fd ∷ held
        → opened (after_options os is_server next a fd r).1
          ≡ with_found (after_options os is_server next a fd r).0 held
    with_options next a fd (false, w) o = close-opened fd w ∙ ap (erase fd) o ∙ erase-first fd held
    with_options next a fd (true, w) o =
        bound next fd (if is_server then bind fd a w else (true, w))
          (if_ind {A = Bool × W} (λ r. r.0 ≡ true) is_server (λ e. binds fd a w e) (λ _. refl))
          (if_ind {A = Bool × W} (λ r. opened r.1 ≡ fd ∷ held) is_server
            (λ _. bind-opened fd a w ∙ o) (λ _. o))

    with_socket :
        (next : Option ℕ → W → Found × W)
        → ((w : W) → opened w ≡ held → opened (next none w).1 ≡ with_found (next none w).0 held)
        → (a : ℕ) (r : Option ℕ × W) → opened r.1 ≡ with_result r.0 held
        → opened (after_socket os is_server next a r).1
          ≡ with_found (after_socket os is_server next a r).0 held
    with_socket next further a (none, w) o = further w o
    with_socket next further a (some fd, w) o =
        with_options next a fd (set_options os fd (socket_options is_server) w)
          (set_options-opened fd (socket_options is_server) w ∙ o)

    searched :
        (last : Option ℕ) (addresses : List ℕ) (w : W)
        → opened w ≡ with_result last held
        → last ≡ none
        → opened (try_addresses os is_server nonblock last addresses w).1
          ≡ with_found (try_addresses os is_server nonblock last addresses w).0 held
    unfolding try_addresses
    searched last [] w o e = o
    searched last (a ∷ rest) w o e =
        with_socket (λ last w. try_addresses os is_server nonblock last rest w)
          (λ w o. searched none rest w o refl) a (socket nonblock a w)
          (made (socket nonblock a w).0 refl)
      where
        clear : opened w ≡ held
        clear = o ∙ ap (λ l. with_result l held) e

        made :
            (fd : Option ℕ)
            → (socket nonblock a w).0 ≡ fd
            → opened (socket nonblock a w).1 ≡ with_result (socket nonblock a w).0 held
        made none q = socket_fails nonblock a w q ∙ clear ∙ ap (λ l. with_result l held) (sym q)
        made (some fd) q =
            socket_opens nonblock a fd w q
            ∙ ap (λ xs. fd ∷ xs) clear
            ∙ ap (λ l. with_result l held) (sym q)

    connected :
        (fd : ℕ) (r : Bool × W)
        → opened r.1 ≡ fd ∷ held
        → opened (after_connect os fd r).1 ≡ with_result (after_connect os fd r).0 held
    connected fd (true, w) o = o
    connected fd (false, w) o = close-opened fd w ∙ ap (erase fd) o ∙ erase-first fd held

    chosen :
        (addresses : List ℕ) (r : Found × W)
        → opened r.1 ≡ with_found r.0 held
        → opened (after_search os is_server addresses r).1
          ≡ with_result (after_search os is_server addresses r).0 held
    chosen addresses (socket_for fd, w) o =
        if_ind {A = Option ℕ × W} (λ r. opened r.1 ≡ with_result r.0 held) is_server (λ _. o)
          (λ _.
            connected fd (connect fd (first addresses) w)
              (connect-opened fd (first addresses) w ∙ o))
    chosen addresses (gave_up, w) o = o
    chosen addresses (exhausted none, w) o = o
    chosen addresses (exhausted (some fd), w) o =
        close-opened fd w ∙ ap (erase fd) o ∙ erase-first fd held

    resolved :
        (r : Option (List ℕ) × W)
        → opened r.1 ≡ held
        → opened (after_resolve os is_server nonblock r).1
          ≡ with_result (after_resolve os is_server nonblock r).0 held
    resolved (none, w) o = o
    resolved (some addresses, w) o =
        chosen addresses (try_addresses os is_server nonblock none addresses w)
          (searched none addresses w o refl)

  -- `socket_ctor`, where no bind of a server fails: it leaves open what was open, and the descriptor that
  -- it returns where it returns one, whichever of its calls of getaddrinfo, socket, setsockopt and connect
  -- fail.
  pub socket_ctor-opened :
      (host : Option Bytes) (port : Bytes) (nonblock : Bool) (w : W)
      → ((fd a : ℕ) (w : W) → no_host host ≡ true → (bind fd a w).0 ≡ true)
      → opened (socket_ctor os host port nonblock w).1
        ≡ with_result (socket_ctor os host port nonblock w).0 (opened w)
  unfolding socket_ctor
  socket_ctor-opened host port nonblock w binds =
      resolved (no_host host) nonblock (opened w) binds (getaddrinfo host port w)
        (getaddrinfo-opened host port w)
