-- ===== src/Dubbo/Client/Handlers.antt =====
-- The handlers of dubbo_client/dubbo_client.c: what it does on a connection, a timeout, a socket that can
-- be read or written. Logging is left out.
use wee.Base.{
  ℕ, ◌+◌, ◌-◌, ◌%◌, ◌^◌, Bool, true, false, not, Option, none, some, zero, suc, ◌==◌, if◌then◌else◌,
  ◌>>=◌, ◌>>◌, guard, is_some,
}
use wee.Base.Word.{sle32}
use wee.Buffer.{Buffer}
use wee.Buffer.ReadFd.{read_fd, offered}
use wee.Dubbo.Codec.{DubboRes, is_dubbo_pkt, is_completed_dubbo_pkt}
use wee.Dubbo.Codec.Response.{dubbo_decode}
use wee.Dubbo.Client.{
  DubboClient, Answer, Left, cli_clear_timer, cli_close, cli_write, cli_connected, cli_connect,
  cli_reconnect, cli_pipe_send,
}
use wee.Dubbo.Client.System.{Os}

abbrev pub eintr : ℕ
eintr = 4

abbrev pub eagain : ℕ
eagain = 11

-- what `cli_decode_resp` makes of what dubbo_decode returns
abbrev pub answered : Option DubboRes → DubboClient → Bool × DubboClient
answered none c = (false, c)
answered (some res) c =
    (true, if res.is_ok then record c { ok_n = c.ok_n + 1 } else record c { ok_n = c.ok_n + 1 })

module _ (os : Os) where
  open os use {W, readv, unwatch_write, stop}

  -- `cli_pipe_send` on that fuel, as the handlers call it through `cli_connected`
  abbrev pub reconnect : ℕ → DubboClient → W → Left os
  reconnect fuel = cli_reconnect os (cli_pipe_send os fuel)

  -- `cli_decode_resp`; what it prints of the response is left out
  unfoldable pub cli_decode_resp : ℕ → DubboClient → Option (Bool × DubboClient)
  cli_decode_resp fuel c =
      dubbo_decode fuel c.rcv_buf >>= λ r. some (answered r.0 (record c { rcv_buf = r.1 }))

  -- `cli_end`; the client is freed behind it
  unfoldable pub cli_end : DubboClient → W → DubboClient × W
  unfolding cli_close cli_clear_timer
  cli_end c w =
      let (d, v) = cli_close os c w in
      let (d, v) = cli_clear_timer os d v in
      if c.run then (record d { run = false }, stop v) else (c, w)

  unfoldable pub cli_connect_timeout : ℕ → DubboClient → W → Left os
  cli_connect_timeout fuel c w = reconnect fuel c w

  -- `writable` is the bit AE_WRITABLE of the mask.
  unfoldable pub cli_on_connect : ℕ → Bool → DubboClient → W → Left os
  cli_on_connect fuel writable c w =
      if writable
      then (cli_connected os (cli_pipe_send os fuel) c (unwatch_write c.fd w) >>= λ r.
          some (r.1, r.2))
      else reconnect fuel c w

  unfoldable pub cli_on_write : ℕ → DubboClient → W → Left os
  cli_on_write fuel c w = do
    guard c.connected
    (good, c, w) ← cli_write os fuel c w
    if good then some (c, w) else reconnect fuel c w

  -- The loop of `cli_on_read`: whether the handler goes on, and with what. This is one round behind its
  -- call of buf_readFd.
  abbrev pub after_read :
      ℕ → (DubboClient → W → Answer os) → DubboClient → W → Option ℕ × ℕ × Buffer → Answer os
  after_read fuel next c w (none, errno, b) =
      let stops = reconnect fuel c w >>= λ r. some (false, r.0, r.1) in
      let retry = next c w in
      if errno == eintr then retry else if errno == eagain then some (true, c, w) else stops
  after_read fuel next c w (some n, errno, b) =
      let stops = reconnect fuel (record c { rcv_buf = b }) w >>= λ r. some (false, r.0, r.1) in
      if n == 0 then stops else some (true, record c { rcv_buf = b }, w)

  unfoldable pub cli_read : ℕ → DubboClient → W → Answer os
  cli_read zero c w = none
  cli_read (suc fuel) c w =
      let (got, v) = readv c.fd (offered c.rcv_buf) w in
      read_fd got 0 c.rcv_buf >>= λ r. after_read fuel (cli_read fuel) c v r

  -- `cli_on_read` behind its loop, from the counting of a response on
  unfoldable pub on_response : ℕ → DubboClient → W → Left os
  on_response fuel c w = do
    let counted = record c {
      pipe_left = c.pipe_left + 1;
      req_left = (c.req_left + 2 ^ 32 - 1) % 2 ^ 32;
    }
    (good, c) ← cli_decode_resp fuel counted
    if sle32 c.req_left 0
        then some (cli_end c w)
        else if good
        then cli_pipe_send os fuel c w
        else reconnect fuel c w

  -- the tests of a packet that stand before it
  unfoldable pub on_packet : ℕ → DubboClient → W → Left os
  on_packet fuel c w = do
    is_pkt ← is_dubbo_pkt c.rcv_buf
    let foreign = reconnect fuel c w
    (c, w) ← if is_pkt then some (c, w) else foreign
    complete ← is_completed_dubbo_pkt c.rcv_buf
    if not (is_some complete) then some (c, w) else on_response fuel c w

  unfoldable pub cli_on_read : ℕ → DubboClient → W → Left os
  cli_on_read fuel c w = do
    guard c.connected
    (go_on, c, w) ← cli_read fuel c w
    if go_on then on_packet fuel c w else some (c, w)

  -- `cli_start`; the handlers of exit and signals are left out
  unfoldable pub cli_start : ℕ → DubboClient → W → Answer os
  cli_start fuel c w =
      if c.run
      then some (false, c, w)
      else cli_connect os (cli_pipe_send os fuel) (record c { run = true }) w
