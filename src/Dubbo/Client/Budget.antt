-- ===== src/Dubbo/Client/Budget.antt =====
-- The requests of dubbo_client/dubbo_client.c, answered and left, through every run of its handlers.
use wee.Base.{
  ℕ, ◌+◌, ◌-◌, ◌%◌, ◌^◌, ◌≤◌, ◌<◌, ◌≡◌, refl, Bool, true, false, Option, some, none, zero, suc,
  ◌==◌, if_ind, arith,
}
use wee.Base.Word.{sle32}
use wee.Buffer.{Buffer}
use wee.Buffer.ReadFd.{read_fd, offered}
use wee.Dubbo.Codec.{DubboRes}
use wee.Dubbo.Codec.Response.{dubbo_decode}
use wee.Dubbo.Client.{DubboClient, cli_pipe_send, cli_close, cli_reset, cli_clear_timer}
use wee.Dubbo.Client.Handlers.{
  reconnect, answered, cli_decode_resp, cli_end, after_read, cli_read, on_response, eintr, eagain,
}
use wee.Dubbo.Client.System.{Os}
use wee.Dubbo.Client.Counts.{
  IfSome, IfSome-bind, IfSome-weaken, whatever, counts, Kept, KeptBool, cli_reconnect-Kept,
  cli_pipe_send-keeps,
}

-- Every answer was asked for, no failure was counted, and a client that runs has requests left.
pub record InBudget (c : DubboClient) : Type 0 where
  pub small : c.req_n < 2 ^ 31
  pub answers : c.ok_n + c.req_left ≤ c.req_n
  pub failures : c.ko_n ≡ 0
  pub pending : c.run ≡ true → 0 < c.req_left

pub counts-InBudget : (c d : DubboClient) → counts d ≡ counts c → InBudget c → InBudget d
counts-InBudget c d e i = record {
  small = ground (arith, i.small);
  answers = ground (arith, i.answers);
  failures = ground (arith, i.failures);
  pending = λ h. ground (arith, i.pending);
}

-- The same without the last: what the handler of a response leaves before its tests.
record Spent (c : DubboClient) : Type 0 where
  pub small : c.req_n < 2 ^ 31
  pub answers : c.ok_n + c.req_left ≤ c.req_n
  pub failures : c.ko_n ≡ 0

answered-Spent :
    (c d : DubboClient) (res : Option DubboRes) (b : Buffer)
    → InBudget c
    → c.run ≡ true
    → d ≡ record c {
      pipe_left = c.pipe_left + 1;
      req_left = (c.req_left + 2 ^ 32 - 1) % 2 ^ 32;
      rcv_buf = b;
    }
    → Spent (answered res d).1 × ((answered res d).1.run ≡ true)
answered-Spent c d none b i r e = (
  record {
    small = ground (arith, i.small);
    answers = ground (arith, i.answers, i.pending r, i.small);
    failures = ground (arith, i.failures);
  },
  ground arith,
)
answered-Spent c d (some res) b i r e = (
  record {
    small = ground (arith, i.small);
    answers = ground (arith, i.answers, i.pending r, i.small);
    failures = ground (arith, i.failures);
  },
  ground arith,
)

Spent-InBudget : (c : DubboClient) → Spent c → sle32 c.req_left 0 ≡ false → InBudget c
Spent-InBudget c s e = record {
  small = s.small;
  answers = s.answers;
  failures = s.failures;
  pending = λ _. ground (arith, s.small, s.answers);
}

module _ (os : Os) where
  open os use {W, watch_read, unwatch_write, readv, unwatch, close}

  abbrev pub After : DubboClient × W → Type 0
  After r = InBudget r.0

  -- what keeps the numbers keeps the budget
  pub After-of_Kept :
      (c : DubboClient) (m : Option (DubboClient × W))
      → InBudget c
      → IfSome (Kept os (counts c)) m
      → IfSome After m
  After-of_Kept c m i h =
      IfSome-weaken {P = Kept os (counts c)} m After h (λ r e. counts-InBudget c r.0 e i)

  pub reconnect-Kept :
      (fuel : ℕ) (c : DubboClient) (w : W) → IfSome (Kept os (counts c)) (reconnect os fuel c w)
  reconnect-Kept fuel c w =
      cli_reconnect-Kept os (counts c) (cli_pipe_send os fuel)
        (cli_pipe_send-keeps os (counts c) fuel) c w refl

  pub reconnect-InBudget :
      (fuel : ℕ) (c : DubboClient) (w : W) → InBudget c → IfSome After (reconnect os fuel c w)
  reconnect-InBudget fuel c w i =
      After-of_Kept c (reconnect os fuel c w) i (reconnect-Kept fuel c w)

  after_read-Kept :
      (fuel : ℕ) (next : DubboClient → W → Option (Bool × DubboClient × W)) (c : DubboClient)
      (w : W)
      → IfSome (KeptBool os (counts c)) (next c w)
      → (r : Option ℕ × ℕ × Buffer)
      → IfSome (KeptBool os (counts c)) (after_read os fuel next c w r)
  after_read-Kept fuel next c w h (none, errno, b) =
      if_ind (IfSome (KeptBool os (counts c))) (errno == eintr) (λ _. h)
        (λ _.
          if_ind (IfSome (KeptBool os (counts c))) (errno == eagain) (λ _. refl)
            (λ _.
              IfSome-bind (Kept os (counts c)) (KeptBool os (counts c)) (reconnect os fuel c w) _
                (reconnect-Kept fuel c w) (λ r e. e)))
  after_read-Kept fuel next c w h (some n, errno, b) =
      if_ind (IfSome (KeptBool os (counts c))) (n == 0)
        (λ _.
          IfSome-bind (Kept os (counts c)) (KeptBool os (counts c))
            (reconnect os fuel (record c { rcv_buf = b }) w) _
            (reconnect-Kept fuel (record c { rcv_buf = b }) w) (λ r e. e))
        (λ _. refl)

  pub cli_read-Kept :
      (fuel : ℕ) (c : DubboClient) (w : W) → IfSome (KeptBool os (counts c)) (cli_read os fuel c w)
  unfolding cli_read
  cli_read-Kept zero c w = tt
  cli_read-Kept (suc fuel) c w =
      IfSome-bind (λ _. Unit {0}) (KeptBool os (counts c))
        (read_fd (readv c.fd (offered c.rcv_buf) w).0 0 c.rcv_buf) _
        (whatever (read_fd (readv c.fd (offered c.rcv_buf) w).0 0 c.rcv_buf))
        (λ r _.
          after_read-Kept fuel (cli_read os fuel) c (readv c.fd (offered c.rcv_buf) w).1
            (cli_read-Kept fuel c (readv c.fd (offered c.rcv_buf) w).1) r)

  cli_end-InBudget :
      (c : DubboClient) (w : W) → Spent c → c.run ≡ true → InBudget (cli_end os c w).0
  unfolding cli_end cli_close cli_reset cli_clear_timer
  cli_end-InBudget c w s r = record {
    small = ground (arith, s.small);
    answers = ground (arith, s.answers);
    failures = ground (arith, s.failures);
    pending = λ h. ground arith;
  }

  pub on_response-InBudget :
      (fuel : ℕ) (c : DubboClient) (w : W)
      → InBudget c
      → c.run ≡ true
      → IfSome After (on_response os fuel c w)
  unfolding on_response cli_decode_resp
  on_response-InBudget fuel c w i run =
      IfSome-bind (λ r. Spent r.1 × (r.1.run ≡ true)) After _ _
        (IfSome-bind (λ _. Unit {0}) (λ r. Spent r.1 × (r.1.run ≡ true))
          (dubbo_decode fuel c.rcv_buf) _ (whatever (dubbo_decode fuel c.rcv_buf))
          (λ r _. answered-Spent c _ r.0 r.1 i run refl))
        (λ r s.
          if_ind (IfSome After) (sle32 r.1.req_left 0) (λ _. cli_end-InBudget r.1 w s.0 s.1)
            (λ more.
              if_ind (IfSome After) r.0
                (λ _.
                  After-of_Kept r.1 (cli_pipe_send os fuel r.1 w) (Spent-InBudget r.1 s.0 more)
                    (cli_pipe_send-keeps os (counts r.1) fuel r.1 w refl))
                (λ _. reconnect-InBudget fuel r.1 w (Spent-InBudget r.1 s.0 more))))
