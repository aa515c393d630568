-- ===== src/Net/Tests.antt =====
-- The theorems about net/ on one small connection.
use wee.Base.{ℕ, ◌≡◌, refl, Bool, true, not, none, some, [], ◌∷◌, ◌==◌, Returns, arith}
use wee.Net.Socket.{send_all_sync, recv_all_sync}
use wee.Net.Socket.Transfer.{
  SendEnds, send_all_sync-SendEnds, ReceiveEnds, recv_all_sync-ReceiveEnds,
}
use wee.Net.Socket.Open.{socket_ctor, so_keepalive}
use wee.Net.Socket.Open.Ledger.{socket_ctor-opened, with_result}
use wee.Net.Sample.{Link, link, host}

-- Two calls are interrupted; the descriptor 0 is open.
abbrev fresh_link : Link
fresh_link = record { sent = []; heard = []; noise = 2; opens = 0 ∷ [] }

send_all_sync-SendEnds_example :
    Returns
      (send_all_sync (link []) 6 3 (7 ∷ 8 ∷ 9 ∷ []) 0 fresh_link)
      (SendEnds (link []) 3 (7 ∷ 8 ∷ 9 ∷ []) [] [])
send_all_sync-SendEnds_example =
    send_all_sync-SendEnds (link []) 3 6 (7 ∷ 8 ∷ 9 ∷ []) fresh_link (omega arith)

sends_all :
    send_all_sync (link []) 6 3 (7 ∷ 8 ∷ 9 ∷ []) 0 fresh_link
    ≡ some (3, record fresh_link { sent = 7 ∷ 8 ∷ 9 ∷ []; noise = 0 })
unfolding send_all_sync
sends_all = refl

-- The peer answers with three bytes.
abbrev talking : Link
talking = record fresh_link {
  sent =
      0 ∷ 1 ∷ 2 ∷ 3 ∷ 4 ∷ 5 ∷ 6 ∷ 7 ∷ 8 ∷ 9 ∷ 0 ∷ 1 ∷ 2 ∷ 3 ∷ 4 ∷ 5 ∷ 6 ∷ 7 ∷ 8 ∷ 9 ∷ 0 ∷ 1 ∷ 2 ∷ 3
      ∷ 4 ∷ 5 ∷ 6 ∷ 7 ∷ 8 ∷ 9 ∷ 0 ∷ 1 ∷ 2 ∷ 3 ∷ 4 ∷ 5 ∷ 6 ∷ [];
}

recv_all_sync-ReceiveEnds_example :
    Returns
      (recv_all_sync (link (7 ∷ 8 ∷ 9 ∷ [])) 7 3 4 [] talking)
      (ReceiveEnds (link (7 ∷ 8 ∷ 9 ∷ [])) 3 4 (7 ∷ 8 ∷ 9 ∷ []) [])
recv_all_sync-ReceiveEnds_example =
    recv_all_sync-ReceiveEnds (link (7 ∷ 8 ∷ 9 ∷ [])) 3 7 4 talking (omega arith) (omega arith)

receives_three :
    recv_all_sync (link (7 ∷ 8 ∷ 9 ∷ [])) 7 3 4 [] talking
    ≡ some (3, 7 ∷ 8 ∷ 9 ∷ [], record talking { heard = 7 ∷ 8 ∷ 9 ∷ []; noise = 0 })
unfolding recv_all_sync
receives_three = refl

-- A server for which keep-alive cannot be set closes its socket.
abbrev no_keepalive : ℕ → Bool
no_keepalive o = not (o == so_keepalive)

socket_ctor-opened_example :
    (socket_ctor (host no_keepalive) none (b'8' ∷ b'0' ∷ []) true fresh_link).1.opens
    ≡ with_result
        (socket_ctor (host no_keepalive) none (b'8' ∷ b'0' ∷ []) true fresh_link).0
        (0 ∷ [])
socket_ctor-opened_example =
    socket_ctor-opened (host no_keepalive) none (b'8' ∷ b'0' ∷ []) true fresh_link
      (λ fd a w e. refl)
