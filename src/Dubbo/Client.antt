-- ===== src/Dubbo/Client.antt =====
-- The pipelining client of dubbo_client/dubbo_client.c: its state, and its functions over an operating
-- system and event loop `Os`. A result none is a failed assertion, a PANIC, or fuel that ran out; the fuel
-- bounds the calls of write in one cli_write, and the requests sent in one handler. Logging is left out.
pub mod System
pub mod Handlers
pub mod Write
pub mod Counts
pub mod Budget
pub mod Runs
pub mod Steady
pub mod Pipeline
pub mod Answer
use wee.Base.{
  ℕ, ◌+◌, ◌-◌, ◌*◌, ◌%◌, ◌^◌, Bool, true, false, not, Option, none, some, zero, suc, ltb, ◌==◌,
  if◌then◌else◌, ◌>>=◌, ◌>>◌, guard, is_some,
}
use wee.Base.Memory.{Bytes, slice}
use wee.Base.Word.{sle32}
use wee.Buffer.{Buffer, readable, peek, append, retrieve, retrieve_all}
use wee.Buffer.ReadFd.{read_fd, offered}
use wee.Dubbo.Codec.{DubboRes, is_dubbo_pkt, is_completed_dubbo_pkt}
use wee.Dubbo.Codec.Response.{dubbo_decode}
use wee.Dubbo.Client.System.{
  Os, Wrote, Connecting, wrote, interrupted, again, failed, done, in_progress, refused,
}

-- `struct dubbo_client`. `timerid` is none for AE_NOMORE.
pub record DubboClient : Type 0 where
  pub rcv_buf : Buffer
  pub snd_buf : Buffer
  pub pipe_n : ℕ
  pub pipe_left : ℕ
  pub req_n : ℕ
  pub req_left : ℕ
  pub ok_n : ℕ
  pub ko_n : ℕ
  pub fd : ℕ
  pub timerid : Option ℕ
  pub connected : Bool
  pub run : Bool

abbrev pub no_fd : ℕ
no_fd = 2 ^ 32 - 1

-- How the loop of `cli_write` ends: with nothing left, or with EAGAIN or another errno.
pub data Ending : Type 0 where
  emptied : Ending
  blocked : Ending
  broken : Ending

-- `cli_create`, on its two new buffers
unfoldable pub cli_create : ℕ → ℕ → Buffer → Buffer → DubboClient
cli_create req_n pipe_n rcv snd = record {
  rcv_buf = retrieve_all rcv;
  snd_buf = retrieve_all snd;
  pipe_n = if ltb req_n pipe_n then req_n else pipe_n;
  pipe_left = if ltb req_n pipe_n then req_n else pipe_n;
  req_n = req_n;
  req_left = req_n;
  ok_n = 0;
  ko_n = 0;
  fd = no_fd;
  timerid = none;
  connected = false;
  run = false;
}

module _ (os : Os) where
  open os use {
    W, make_request, socket_create, socket_connect, close, write, readv, watch_read, watch_connect,
    watch_write, unwatch_write, unwatch, add_timer, delete_timer, stop,
  }

  -- what a function that may fail leaves, with the bool that it returns
  abbrev pub Answer : Type 0
  Answer = Option (Bool × DubboClient × W)

  abbrev pub Left : Type 0
  Left = Option (DubboClient × W)

  abbrev delete_some : Option ℕ → W → W
  delete_some none w = w
  delete_some (some t) w = delete_timer t w

  unfoldable pub cli_clear_timer : DubboClient → W → DubboClient × W
  cli_clear_timer c w = (record c { timerid = none }, delete_some c.timerid w)

  unfoldable pub cli_reset : DubboClient → W → DubboClient × W
  unfolding cli_clear_timer
  cli_reset c w =
      let (c, w) = cli_clear_timer (record c { connected = false }) w in
      (
        record c {
          fd = no_fd;
          pipe_left = c.pipe_n;
          rcv_buf = retrieve_all c.rcv_buf;
          snd_buf = retrieve_all c.snd_buf;
        },
        w,
      )

  unfoldable pub cli_close : DubboClient → W → DubboClient × W
  unfolding cli_reset
  cli_close c w = cli_reset c (close c.fd (unwatch c.fd w))

  -- one round of the loop of `cli_write`, behind its call of write
  abbrev pub after_write :
      (Buffer → W → Option (Ending × Buffer × W))
      → Buffer
      → Wrote × W
      → Option (Ending × Buffer × W)
  after_write next b (wrote n, w) = retrieve b n >>= λ b. next b w
  after_write next b (interrupted, w) = next b w
  after_write next b (again, w) = some (blocked, b, w)
  after_write next b (failed, w) = some (broken, b, w)

  unfoldable pub write_loop : ℕ → ℕ → Buffer → W → Option (Ending × Buffer × W)
  write_loop zero fd b w = none
  write_loop (suc fuel) fd b w =
      let held = slice b.buf (peek b) (readable b) in
      let round = after_write (write_loop fuel fd) b (write fd held w) in
      if readable b == 0 then some (emptied, b, w) else round

  -- `cli_write` behind its loop
  abbrev pub after_loop : DubboClient → Ending × Buffer × W → Bool × DubboClient × W
  after_loop c (emptied, b, w) = (true, record c { snd_buf = b }, unwatch_write c.fd w)
  after_loop c (blocked, b, w) =
      ((watch_write c.fd w).0, record c { snd_buf = b }, (watch_write c.fd w).1)
  after_loop c (broken, b, w) = (false, record c { snd_buf = b }, w)

  unfoldable pub cli_write : ℕ → DubboClient → W → Answer
  cli_write fuel c w =
      if readable c.snd_buf == 0
      then some (true, c, unwatch_write c.fd w)
      else (write_loop fuel c.fd c.snd_buf w >>= λ r. some (after_loop c r))

  -- The functions between a connection and the sending of requests; `send` is `cli_pipe_send`.
  module _ (send : DubboClient → W → Left) where
    unfoldable pub cli_connected : DubboClient → W → Answer
    unfolding cli_clear_timer
    cli_connected c w =
        let (c, w) = cli_clear_timer (record c { connected = true }) w in
        let (good, w) = watch_read c.fd w in
        if good then (send c w >>= λ r. some (true, r.0, r.1)) else some (false, c, w)

    -- the end of `cli_connect`: on failure the socket is closed
    abbrev close_unless : ℕ → Bool × DubboClient × W → Bool × DubboClient × W
    close_unless fd (true, c, w) = (true, c, w)
    close_unless fd (false, c, w) = (false, c, close fd w)

    abbrev timer_made : DubboClient → Option ℕ × W → Bool × DubboClient × W
    timer_made c (none, w) = (false, record c { timerid = none }, w)
    timer_made c (some t, w) = (true, record c { timerid = some t }, w)

    -- `cli_connect` behind socket_connect
    abbrev connect_ends : DubboClient → Connecting × W → Answer
    connect_ends c (done, w) = cli_connected c w
    connect_ends c (in_progress, w) =
        let (good, w) = watch_connect c.fd w in
        some (if good then timer_made c (add_timer w) else (false, c, w))
    connect_ends c (refused, w) = some (false, c, w)

    abbrev socket_made : DubboClient → Option ℕ × W → Answer
    socket_made c (none, w) = some (false, c, w)
    socket_made c (some fd, w) =
        connect_ends (record c { fd = fd }) (socket_connect fd w) >>= λ r. some (close_unless fd r)

    unfoldable pub cli_connect : DubboClient → W → Answer
    cli_connect c w = socket_made c (socket_create w)

    unfoldable pub cli_reconnect : DubboClient → W → Left
    unfolding cli_close
    cli_reconnect c w = let (c, w) = cli_close c w in cli_connect c w >>= λ r. some (r.1, r.2)

    -- a handler that reconnects when the call in it fails
    abbrev or_reconnect : Bool × DubboClient × W → Left
    or_reconnect (true, c, w) = some (c, w)
    or_reconnect (false, c, w) = cli_reconnect c w

    -- `cli_send_req` behind `cli_encode_req`
    abbrev request_made : ℕ → DubboClient → Option Bytes × W → Left
    request_made fuel c (none, w) = none
    request_made fuel c (some d, w) = do
      b ← append c.snd_buf d
      r ← cli_write fuel (record c { snd_buf = b }) w
      or_reconnect r

    unfoldable pub cli_send_req : ℕ → DubboClient → W → Left
    cli_send_req fuel c w = request_made fuel c (make_request w)

  unfoldable pub cli_pipe_send : ℕ → DubboClient → W → Left
  cli_pipe_send zero c w = none
  cli_pipe_send (suc fuel) c w =
      let one =
        cli_send_req (cli_pipe_send fuel) fuel (record c { pipe_left = c.pipe_left - 1 }) w in
      let rest = one >>= λ r. cli_pipe_send fuel r.0 r.1 in
      if c.pipe_left == 0 then some (c, w) else rest
