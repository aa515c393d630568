-- ===== src/Dubbo/Client/Counts.antt =====
-- The numbers that dubbo_client/dubbo_client.c counts by, through what it does below its handlers.
use wee.Base.{
  ℕ, ◌-◌, ◌≡◌, Bool, true, false, Option, some, none, zero, suc, ◌==◌, ==_iff, if_ind, ◌>>=◌,
}
use wee.Base.Memory.{Bytes}
use wee.Buffer.{Buffer, append, readable}
use wee.Dubbo.Client.{
  DubboClient, Ending, emptied, blocked, broken, Left, after_loop, write_loop, cli_write,
  cli_clear_timer, cli_reset, cli_close, cli_connected, close_unless, timer_made, connect_ends,
  socket_made, cli_connect, cli_reconnect, or_reconnect, request_made, cli_send_req, cli_pipe_send,
}
use wee.Dubbo.Client.System.{Os, Connecting, done, in_progress, refused}

-- A property of the result, if there is one.
abbrev pub IfSome {ℓ} : {A : Type ℓ} → (A → Type 0) → Option A → Type 0
IfSome P none = Unit {0}
IfSome P (some a) = P a

pub IfSome-bind {ℓ κ} :
    {A : Type ℓ} {B : Type κ} (P : A → Type 0) (Q : B → Type 0) (m : Option A) (f : A → Option B)
    → IfSome P m
    → ((a : A) → P a → IfSome Q (f a))
    → IfSome Q (m >>= f)
IfSome-bind P Q none f h k = tt
IfSome-bind P Q (some a) f h k = k a h

pub IfSome-weaken {ℓ} :
    {A : Type ℓ} {P : A → Type 0} (m : Option A) (Q : A → Type 0)
    → IfSome P m
    → ((a : A) → P a → Q a)
    → IfSome Q m
IfSome-weaken none Q h k = tt
IfSome-weaken (some a) Q h k = k a h

pub whatever {ℓ} : {A : Type ℓ} (m : Option A) → IfSome (λ _. Unit {0}) m
whatever none = tt
whatever (some a) = tt

-- the numbers of a client, and whether it runs
abbrev pub Counts : Type 0
Counts = ℕ × ℕ × ℕ × ℕ × Bool

abbrev pub counts : DubboClient → Counts
counts c = (c.req_n, c.req_left, c.ok_n, c.ko_n, c.run)

module _ (os : Os) (k : Counts) where
  open os use {W, socket_create, socket_connect, watch_connect, watch_read, add_timer, make_request}

  abbrev pub KeptBool : Bool × DubboClient × W → Type 0
  KeptBool r = counts r.1 ≡ k

  abbrev pub Kept : DubboClient × W → Type 0
  Kept r = counts r.0 ≡ k

  after_loop-Kept :
      (c : DubboClient) → counts c ≡ k → (r : Ending × Buffer × W) → KeptBool (after_loop os c r)
  after_loop-Kept c e (emptied, b, w) = e
  after_loop-Kept c e (blocked, b, w) = e
  after_loop-Kept c e (broken, b, w) = e

  pub cli_write-Kept :
      (fuel : ℕ) (c : DubboClient) (w : W) → counts c ≡ k → IfSome KeptBool (cli_write os fuel c w)
  unfolding cli_write
  cli_write-Kept fuel c w e =
      if_ind (IfSome KeptBool) (readable c.snd_buf == 0) (λ _. e)
        (λ _.
          IfSome-bind (λ _. Unit {0}) KeptBool (write_loop os fuel c.fd c.snd_buf w)
            (λ r. some (after_loop os c r)) (whatever (write_loop os fuel c.fd c.snd_buf w))
            (λ r _. after_loop-Kept c e r))

  module _ (send : DubboClient → W → Left os)
      (keeps : (c : DubboClient) (w : W) → counts c ≡ k → IfSome Kept (send c w)) where
    pub cli_connected-Kept :
        (c : DubboClient) (w : W) → counts c ≡ k → IfSome KeptBool (cli_connected os send c w)
    unfolding cli_connected cli_clear_timer
    cli_connected-Kept c w e =
        if_ind (IfSome KeptBool) (watch_read c.fd (cli_clear_timer os c w).1).0
          (λ _.
            IfSome-bind Kept KeptBool (send _ _) (λ r. some (true, r.0, r.1)) (keeps _ _ e)
              (λ r h. h))
          (λ _. e)

    close_unless-Kept :
        (fd : ℕ) (r : Bool × DubboClient × W) → KeptBool r → KeptBool (close_unless os send fd r)
    close_unless-Kept fd (true, c, w) e = e
    close_unless-Kept fd (false, c, w) e = e

    timer_made-Kept :
        (c : DubboClient) (r : Option ℕ × W) → counts c ≡ k → KeptBool (timer_made os send c r)
    timer_made-Kept c (none, w) e = e
    timer_made-Kept c (some t, w) e = e

    connect_ends-Kept :
        (c : DubboClient) (r : Connecting × W)
        → counts c ≡ k
        → IfSome KeptBool (connect_ends os send c r)
    connect_ends-Kept c (done, w) e = cli_connected-Kept c w e
    connect_ends-Kept c (in_progress, w) e =
        if_ind KeptBool (watch_connect c.fd w).0
          (λ _. timer_made-Kept c (add_timer (watch_connect c.fd w).1) e) (λ _. e)
    connect_ends-Kept c (refused, w) e = e

    pub socket_made-Kept :
        (c : DubboClient) (r : Option ℕ × W)
        → counts c ≡ k
        → IfSome KeptBool (socket_made os send c r)
    socket_made-Kept c (none, w) e = e
    socket_made-Kept c (some fd, w) e =
        IfSome-bind KeptBool KeptBool
          (connect_ends os send (record c { fd = fd }) (socket_connect fd w))
          (λ r. some (close_unless os send fd r))
          (connect_ends-Kept (record c { fd = fd }) (socket_connect fd w) e)
          (λ r h. close_unless-Kept fd r h)

    pub cli_connect-Kept :
        (c : DubboClient) (w : W) → counts c ≡ k → IfSome KeptBool (cli_connect os send c w)
    unfolding cli_connect
    cli_connect-Kept c w e = socket_made-Kept c (socket_create w) e

    pub cli_reconnect-Kept :
        (c : DubboClient) (w : W) → counts c ≡ k → IfSome Kept (cli_reconnect os send c w)
    unfolding cli_reconnect cli_connect cli_close cli_reset cli_clear_timer
    cli_reconnect-Kept c w e =
        IfSome-bind KeptBool Kept (socket_made os send _ (socket_create _)) (λ r. some (r.1, r.2))
          (socket_made-Kept _ (socket_create _) e) (λ r h. h)

    or_reconnect-Kept :
        (r : Bool × DubboClient × W) → KeptBool r → IfSome Kept (or_reconnect os send r)
    or_reconnect-Kept (true, c, w) e = e
    or_reconnect-Kept (false, c, w) e = cli_reconnect-Kept c w e

    request_made-Kept :
        (fuel : ℕ) (c : DubboClient) (r : Option Bytes × W)
        → counts c ≡ k
        → IfSome Kept (request_made os send fuel c r)
    request_made-Kept fuel c (none, w) e = tt
    request_made-Kept fuel c (some d, w) e =
        IfSome-bind (λ _. Unit {0}) Kept (append c.snd_buf d) _ (whatever (append c.snd_buf d))
          (λ b _.
            IfSome-bind KeptBool Kept (cli_write os fuel (record c { snd_buf = b }) w)
              (or_reconnect os send) (cli_write-Kept fuel (record c { snd_buf = b }) w e)
              or_reconnect-Kept)

  abbrev pub Drained : DubboClient × W → Type 0
  Drained r = Kept r × (r.0.pipe_left ≡ 0)

  -- Requests that are sent change none of the numbers, and leave nothing of the pipeline unused.
  pub cli_pipe_send-Kept :
      (fuel : ℕ) (c : DubboClient) (w : W)
      → counts c ≡ k
      → IfSome Drained (cli_pipe_send os fuel c w)
  unfolding cli_pipe_send cli_send_req
  cli_pipe_send-Kept zero c w e = tt
  cli_pipe_send-Kept (suc fuel) c w e =
      if_ind (IfSome Drained) (c.pipe_left == 0) (λ h. (e, (==_iff c.pipe_left 0).0 h))
        (λ _.
          IfSome-bind Kept Drained _ _
            (request_made-Kept (cli_pipe_send os fuel)
              (λ c w e.
                IfSome-weaken {P = Drained} (cli_pipe_send os fuel c w) Kept
                  (cli_pipe_send-Kept fuel c w e) (λ r h. h.0))
              fuel (record c { pipe_left = c.pipe_left - 1 }) (make_request w) e)
            (λ r h. cli_pipe_send-Kept fuel r.0 r.1 h))

  pub cli_pipe_send-keeps :
      (fuel : ℕ) (c : DubboClient) (w : W) → counts c ≡ k → IfSome Kept (cli_pipe_send os fuel c w)
  cli_pipe_send-keeps fuel c w e =
      IfSome-weaken {P = Drained} (cli_pipe_send os fuel c w) Kept (cli_pipe_send-Kept fuel c w e)
        (λ r h. h.0)
