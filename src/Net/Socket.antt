-- ===== src/Net/Socket.antt =====
-- The loops of net/socket.c: sending and receiving all of a block, and opening a socket on the first of
-- several addresses that allows it. A result none is fuel that ran out. Messages are left out.
pub mod System
pub mod Open
pub mod Transfer
use wee.Base.{
  ℕ, ◌+◌, ◌-◌, ◌^◌, Bool, true, false, Option, none, some, zero, suc, List, [], ◌∷◌, ◌++◌, length,
  drop, ltb, if◌then◌else◌,
}
use wee.Base.Memory.{Bytes}
use wee.Net.Socket.System.{Sockets, Io, moved, Received, got}

module _ {W : Type 0} (sockets : Sockets W) where
  open sockets use {send, recv}

  -- one round of the loop of `socket_sendAllSync` behind its call of send
  abbrev pub after_send : (ℕ → W → Option (ℕ × W)) → ℕ → Io × W → Option (ℕ × W)
  after_send next sent (moved n, w) = next (sent + n) w
  after_send next sent (Io.interrupted, w) = next sent w
  after_send next sent (Io.failed, w) = some (sent, w)

  unfoldable pub send_all_sync : ℕ → ℕ → Bytes → ℕ → W → Option (ℕ × W)
  send_all_sync zero fd buf sent w = none
  send_all_sync (suc fuel) fd buf sent w =
      let round = after_send (send_all_sync fuel fd buf) sent (send fd (drop sent buf) w) in
      if ltb sent (length buf) then round else some (sent, w)

  -- The same of `socket_recvAllSync`, with the bytes that stand in `buf`; size_t(-1) is an error.
  abbrev pub after_recv :
      (Bytes → W → Option (ℕ × Bytes × W)) → Bytes → Received × W → Option (ℕ × Bytes × W)
  after_recv next recved (got [], w) = some (length recved, recved, w)
  after_recv next recved (got (x ∷ d), w) = next (recved ++ (x ∷ d)) w
  after_recv next recved (Received.interrupted, w) = next recved w
  after_recv next recved (Received.failed, w) = some (2 ^ 64 - 1, recved, w)

  unfoldable pub recv_all_sync : ℕ → ℕ → ℕ → Bytes → W → Option (ℕ × Bytes × W)
  recv_all_sync zero fd size recved w = none
  recv_all_sync (suc fuel) fd size recved w =
      let round =
        after_recv (recv_all_sync fuel fd size) recved (recv fd (size - length recved) w) in
      if ltb (length recved) size then round else some (length recved, recved, w)
