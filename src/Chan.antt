-- ===== src/Chan.antt =====
-- The channel of base/chan.c over the message queue. Each call holds the lock of the channel from
-- its test to its end, and gives it away only while it waits; so a call that does not wait is one
-- step, and a call that finds its test unmet waits: it changes nothing and tests again later.
-- Which waiting thread is woken is left to the scheduler.
pub mod Runs
pub mod Answers
mod Tests
use wee.Base.{
  ℕ, ◌+◌, ◌-◌, Bool, true, false, not, ◌&&◌, Option, none, some, ltb, leb, ◌==◌, if◌then◌else◌,
  ◌>>=◌, ◌>>◌, guard,
}
use wee.Mq.{Msg, Mq, mq_create, mq_count, mq_push, mq_pop}

-- `struct chan`, without its lock and conditions
pub record Chan : Type 0 where
  pub q : Mq
  pub cap : ℕ

unfoldable pub ch_create : ℕ → Option Chan
ch_create n = mq_create (n + 1) >>= λ q. some (record { q = q; cap = n })

-- `ch_send`: none inside where it waits
unfoldable pub ch_send : Chan → Msg → Option (Option Chan)
ch_send c msg =
    if ltb 0 c.cap && leb c.cap (mq_count c.q)
    then some none
    else (mq_push c.q msg >>= λ q. some (some (record c { q = q })))

-- `ch_recv`: none where it waits, else what `mq_pop` hands over
unfoldable pub ch_recv : Chan → Option (Option Msg × Chan)
ch_recv c =
    if mq_count c.q == 0
    then none
    else (let (msg, q) = mq_pop c.q in some (msg, record c { q = q }))
