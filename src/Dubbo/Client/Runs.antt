-- ===== src/Dubbo/Client/Runs.antt =====
-- The runs of dubbo_client/dubbo_client.c: from its start, one event after the other.
use wee.Base.{
  ℕ, ◌<◌, ◌^◌, ◌≡◌, refl, subst, Bool, true, Option, some, none, not, if_ind, if◌then◌else◌,
  is_some, guard, arith,
}
use wee.Buffer.{Buffer}
use wee.Dubbo.Codec.{is_dubbo_pkt, is_completed_dubbo_pkt}
use wee.Dubbo.Client.{DubboClient, cli_create, cli_connected, cli_connect, cli_pipe_send, cli_write}
use wee.Dubbo.Client.Handlers.{
  reconnect, cli_connect_timeout, cli_on_connect, cli_on_write, cli_read, on_packet, cli_on_read,
  cli_start,
}
use wee.Dubbo.Client.System.{Os}
use wee.Dubbo.Client.Counts.{
  IfSome, IfSome-bind, IfSome-weaken, whatever, counts, Kept, KeptBool, cli_write-Kept,
  cli_connected-Kept, cli_connect-Kept, cli_pipe_send-keeps,
}
use wee.Dubbo.Client.Budget.{
  InBudget, counts-InBudget, After, reconnect-Kept, reconnect-InBudget, cli_read-Kept,
  on_response-InBudget,
}

of_some : {A : Type 0} (P : A → Type 0) (m : Option A) {a : A} → m ≡ some a → IfSome P m → P a
of_some P none e h = absurd (cc)
of_some P (some b) e h = subst P (cc) h

module _ (os : Os) where
  open os use {W, unwatch_write}

  -- One event of a client that runs, on any fuel with which the handler returns.
  pub data Event : DubboClient → W → DubboClient → W → Type 0 where
    on_timeout :
        {c d : DubboClient} {w v : W} (fuel : ℕ)
        → c.run ≡ true
        → cli_connect_timeout os fuel c w ≡ some (d, v)
        → Event c w d v
    on_connect :
        {c d : DubboClient} {w v : W} (fuel : ℕ) (writable : Bool)
        → c.run ≡ true
        → cli_on_connect os fuel writable c w ≡ some (d, v)
        → Event c w d v
    on_write :
        {c d : DubboClient} {w v : W} (fuel : ℕ)
        → c.run ≡ true
        → cli_on_write os fuel c w ≡ some (d, v)
        → Event c w d v
    on_read :
        {c d : DubboClient} {w v : W} (fuel : ℕ)
        → c.run ≡ true
        → cli_on_read os fuel c w ≡ some (d, v)
        → Event c w d v

  -- What is reached from a client that is made for req_n requests and started. Between two events the
  -- world may change as it likes.
  pub data Run (req_n pipe_n : ℕ) (rcv snd : Buffer) : DubboClient → W → Type 0 where
    start :
        {c : DubboClient} {v : W} (w : W) (fuel : ℕ) (good : Bool)
        → cli_start os fuel (cli_create req_n pipe_n rcv snd) w ≡ some (good, c, v)
        → Run req_n pipe_n rcv snd c v
    event :
        {c d : DubboClient} {w v : W}
        → Run req_n pipe_n rcv snd c w
        → Event c w d v
        → Run req_n pipe_n rcv snd d v
    pass :
        {c : DubboClient} {v : W} (w : W)
        → Run req_n pipe_n rcv snd c v
        → Run req_n pipe_n rcv snd c w

  on_packet-InBudget :
      (fuel : ℕ) (c : DubboClient) (w : W)
      → InBudget c
      → c.run ≡ true
      → IfSome (After os) (on_packet os fuel c w)
  unfolding on_packet
  on_packet-InBudget fuel c w i run =
      IfSome-bind (λ _. Unit {0}) (After os) (is_dubbo_pkt c.rcv_buf) _
        (whatever (is_dubbo_pkt c.rcv_buf))
        (λ is_pkt _.
          IfSome-bind (Kept os (counts c)) (After os)
            (if is_pkt then some (c, w) else reconnect os fuel c w) _
            (if_ind (IfSome (Kept os (counts c))) is_pkt (λ _. refl)
              (λ _. reconnect-Kept os fuel c w))
            (λ r e.
              IfSome-bind (λ _. Unit {0}) (After os) (is_completed_dubbo_pkt r.0.rcv_buf) _
                (whatever (is_completed_dubbo_pkt r.0.rcv_buf))
                (λ complete _.
                  if_ind (IfSome (After os)) (not (is_some complete))
                    (λ _. counts-InBudget c r.0 e i)
                    (λ _.
                      on_response-InBudget os fuel r.0 r.1 (counts-InBudget c r.0 e i)
                        (ground arith)))))

  cli_on_read-InBudget :
      (fuel : ℕ) (c : DubboClient) (w : W)
      → InBudget c
      → c.run ≡ true
      → IfSome (After os) (cli_on_read os fuel c w)
  unfolding cli_on_read
  cli_on_read-InBudget fuel c w i run =
      IfSome-bind (λ _. Unit {0}) (After os) (guard c.connected) _ (whatever (guard c.connected))
        (λ _ _.
          IfSome-bind (KeptBool os (counts c)) (After os) (cli_read os fuel c w) _
            (cli_read-Kept os fuel c w)
            (λ r e.
              if_ind (IfSome (After os)) r.0
                (λ _. on_packet-InBudget fuel r.1 r.2 (counts-InBudget c r.1 e i) (ground arith))
                (λ _. counts-InBudget c r.1 e i)))

  cli_on_write-InBudget :
      (fuel : ℕ) (c : DubboClient) (w : W)
      → InBudget c
      → IfSome (After os) (cli_on_write os fuel c w)
  unfolding cli_on_write
  cli_on_write-InBudget fuel c w i =
      IfSome-bind (λ _. Unit {0}) (After os) (guard c.connected) _ (whatever (guard c.connected))
        (λ _ _.
          IfSome-bind (KeptBool os (counts c)) (After os) (cli_write os fuel c w) _
            (cli_write-Kept os (counts c) fuel c w refl)
            (λ r e.
              if_ind (IfSome (After os)) r.0 (λ _. counts-InBudget c r.1 e i)
                (λ _. reconnect-InBudget os fuel r.1 r.2 (counts-InBudget c r.1 e i))))

  cli_on_connect-InBudget :
      (fuel : ℕ) (writable : Bool) (c : DubboClient) (w : W)
      → InBudget c
      → IfSome (After os) (cli_on_connect os fuel writable c w)
  unfolding cli_on_connect
  cli_on_connect-InBudget fuel writable c w i =
      if_ind (IfSome (After os)) writable
        (λ _.
          IfSome-bind (KeptBool os (counts c)) (After os)
            (cli_connected os (cli_pipe_send os fuel) c (unwatch_write c.fd w)) _
            (cli_connected-Kept os (counts c) (cli_pipe_send os fuel)
              (cli_pipe_send-keeps os (counts c) fuel) c (unwatch_write c.fd w) refl)
            (λ r e. counts-InBudget c r.1 e i))
        (λ _. reconnect-InBudget os fuel c w i)

  Event-InBudget : {c d : DubboClient} {w v : W} → Event c w d v → InBudget c → InBudget d
  unfolding cli_connect_timeout
  Event-InBudget {c} {d} {w} {v} (on_timeout fuel r e) i =
      of_some (After os) _ e (reconnect-InBudget os fuel c w i)
  Event-InBudget {c} {d} {w} {v} (on_connect fuel writable r e) i =
      of_some (After os) _ e (cli_on_connect-InBudget fuel writable c w i)
  Event-InBudget {c} {d} {w} {v} (on_write fuel r e) i =
      of_some (After os) _ e (cli_on_write-InBudget fuel c w i)
  Event-InBudget {c} {d} {w} {v} (on_read fuel r e) i =
      of_some (After os) _ e (cli_on_read-InBudget fuel c w i r)

  start-InBudget :
      (req_n pipe_n : ℕ) (rcv snd : Buffer) (fuel : ℕ) (w : W)
      → 0 < req_n
      → req_n < 2 ^ 31
      → IfSome (λ r. InBudget r.1) (cli_start os fuel (cli_create req_n pipe_n rcv snd) w)
  unfolding cli_start cli_create
  start-InBudget req_n pipe_n rcv snd fuel w pos small =
      IfSome-weaken {P = KeptBool os (counts started)}
        (cli_connect os (cli_pipe_send os fuel) started w) (λ r. InBudget r.1)
        (cli_connect-Kept os (counts started) (cli_pipe_send os fuel)
          (cli_pipe_send-keeps os (counts started) fuel) started w refl)
        (λ r e. counts-InBudget started r.1 e first)
    where
      started : DubboClient
      started = record (cli_create req_n pipe_n rcv snd) { run = true }

      first : InBudget started
      first = record { small = small; answers = omega arith; failures = refl; pending = λ _. pos }

  -- In every run for more than 0 and less than 2 ^ 31 requests: the client has counted no more
  -- answers than requests were asked for (its req_n), less those that are left; it has counted no failure; and as
  -- long as it runs, requests are left.
  pub Run-InBudget :
      (req_n pipe_n : ℕ) (rcv snd : Buffer) (c : DubboClient) (w : W)
      → 0 < req_n
      → req_n < 2 ^ 31
      → Run req_n pipe_n rcv snd c w
      → InBudget c
  Run-InBudget req_n pipe_n rcv snd c w pos small (start u fuel good e) =
      of_some (λ r. InBudget r.1) _ e (start-InBudget req_n pipe_n rcv snd fuel u pos small)
  Run-InBudget req_n pipe_n rcv snd c w pos small (event {c = b} {w = u} r e) =
      Event-InBudget e (Run-InBudget req_n pipe_n rcv snd b u pos small r)
  Run-InBudget req_n pipe_n rcv snd c w pos small (pass {v = u} w' r) =
      Run-InBudget req_n pipe_n rcv snd c u pos small r
