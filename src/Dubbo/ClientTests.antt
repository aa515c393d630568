-- ===== src/Dubbo/ClientTests.antt =====
-- The theorems about dubbo_client/dubbo_client.c, on a small system with one socket.
mod Socket
use wee.Base.{
  ℕ, ◌-◌, ◌≡◌, refl, Bool, true, false, Option, some, none, [], ◌∷◌, ◌++◌, length, take, zero, suc,
  append-nil, Returns, arith, ltb, if◌then◌else◌,
}
use wee.Base.Memory.{Bytes}
use wee.Base.Memory.{slice, blit}
use wee.Base.Endian.{be_bytes, le_bytes}
use wee.Buffer.{
  readable, append, ensure_writable, has_written, fill, write_locked, retrieve, retrieve_all,
}
use wee.Samples.{holding, holding-Holds, fresh}
use wee.Dubbo.Codec.Header.{packet}
use wee.Dubbo.ResponseTests.{ok_hdr}
use wee.Dubbo.Client.Handlers.{cli_start}
use wee.Dubbo.Client.{
  cli_connect, cli_connected, cli_clear_timer, cli_pipe_send, cli_send_req, write_loop,
}
use wee.Dubbo.Client.Handlers.{cli_on_read, cli_read, on_packet, on_response, cli_decode_resp}
use wee.Dubbo.Codec.{is_dubbo_pkt, is_completed_dubbo_pkt, decode_res_hdr}
use wee.Dubbo.Codec.Response.{dubbo_decode, decode_body, decode_res, decode_res_data}
use wee.Buffer.{create_ex, make_space, make_room, swap, writable, prependable, peek, begin_write}
use wee.Buffer.ReadFd.{read_fd, offered}
use wee.Buffer.Words.{read_int8, read_int16, read_int32, read_int64, peek_int16, peek_word}
use wee.Dubbo.Client.Budget.{InBudget}
use wee.Dubbo.Client.Runs.{Run-InBudget, start, event, on_read}
use wee.Base.Endian.{of_be, of_le}
use wee.Dubbo.Client.{DubboClient, cli_create, cli_write}
use wee.Dubbo.Client.System.{Os, Wrote, wrote, interrupted, again, taken, WithinData, Patient, done}
use wee.Dubbo.Client.Steady.{IsSteady, Unfailed}
use wee.Dubbo.Client.Pipeline.{Filled, cli_pipe_send-Filled}
use wee.Dubbo.Client.Write.{WriteEnds, cli_write-WriteEnds}
use wee.Dubbo.ClientTests.Socket.{Wire, wire, quiet, quiet-IsSteady}

abbrev calm : Wire
calm = record {
  out = [];
  room = 9;
  noise = 0;
  waits = false;
  incoming = some (packet ok_hdr (0x92 ∷ []));
}

-- The first write is interrupted, and the second finds room for two of three bytes.
abbrev noisy : Wire
noisy = record calm { room = 2; noise = 1 }

abbrev client : DubboClient
client = record (cli_create 2 1 fresh fresh) { snd_buf = holding (1 ∷ 2 ∷ 3 ∷ []); fd = 3 }

cli_write-WriteEnds_example :
    Returns (cli_write wire 5 client noisy) (WriteEnds wire 3 (1 ∷ 2 ∷ 3 ∷ []))
unfolding slice cli_create readable
cli_write-WriteEnds_example =
    cli_write-WriteEnds wire 5 client noisy (holding-Holds (1 ∷ 2 ∷ 3 ∷ []) (omega arith)).valid
      (omega arith)

-- The client for two requests, one at a time, when its first request is sent.
abbrev waiting : DubboClient
waiting = record {
  rcv_buf = fresh;
  snd_buf = record fresh { buf = 0 ∷ 0 ∷ 0 ∷ 0 ∷ 0 ∷ 0 ∷ 0 ∷ 0 ∷ 0xda ∷ 0xbb ∷ 0 ∷ 0 ∷ [] };
  pipe_n = 1;
  pipe_left = 0;
  req_n = 2;
  req_left = 2;
  ok_n = 0;
  ko_n = 0;
  fd = 3;
  timerid = none;
  connected = true;
  run = true;
}

abbrev sent_one : Wire
sent_one = record calm { out = 0xda ∷ 0xbb ∷ []; room = 7 }

starts : cli_start wire 3 (cli_create 2 1 fresh fresh) calm ≡ some (true, waiting, sent_one)
unfolding cli_create cli_start cli_connect cli_connected cli_clear_timer cli_pipe_send cli_send_req
    cli_write write_loop append ensure_writable has_written fill blit slice write_locked readable
    retrieve retrieve_all peek
starts = refl

-- The client when the answer was read, and the second request sent.
abbrev answered_one : DubboClient
answered_one = record waiting {
  rcv_buf = record fresh {
    sz = 25;
    buf =
        0 ∷ 0 ∷ 0 ∷ 0 ∷ 0 ∷ 0 ∷ 0 ∷ 0 ∷ 0xda ∷ 0xbb ∷ 2 ∷ 20 ∷ 0 ∷ 0 ∷ 0 ∷ 0 ∷ 0 ∷ 0 ∷ 0 ∷ 7 ∷ 0 ∷ 0
        ∷ 0 ∷ 1 ∷ 0x92 ∷ [];
  };
  req_left = 1;
  ok_n = 1;
}

abbrev sent_two : Wire
sent_two = record calm { out = 0xda ∷ 0xbb ∷ 0xda ∷ 0xbb ∷ []; room = 5 }

reads : cli_on_read wire 3 waiting sent_one ≡ some (answered_one, sent_two)
unfolding cli_on_read cli_read on_packet on_response cli_decode_resp read_fd offered is_dubbo_pkt
    is_completed_dubbo_pkt dubbo_decode decode_body decode_res decode_res_data decode_res_hdr
    create_ex make_space make_room swap writable prependable peek begin_write of_be of_le
    cli_pipe_send cli_send_req cli_write write_loop append ensure_writable has_written fill blit
    slice write_locked readable retrieve retrieve_all be_bytes le_bytes peek_int16 peek_word
    read_int16 read_int8 read_int64 read_int32
reads = refl

Run-InBudget_example : InBudget answered_one
Run-InBudget_example =
    Run-InBudget wire 2 1 fresh fresh answered_one sent_two (omega arith) (omega arith)
      (event (start calm 3 true starts) (on_read 3 refl reads))

-- two places, and room in the socket for three of the four bytes
abbrev two_places : DubboClient
two_places = record waiting { pipe_left = 2 }

cli_pipe_send-Filled_example :
    Returns (cli_pipe_send quiet 17 two_places (record calm { room = 3 })) (
      Filled quiet
        (λ d. d ≡ 0xda ∷ 0xbb ∷ [])
        2
        quiet-IsSteady
        two_places
        (record calm { room = 3 })
        2)
unfolding write_locked
cli_pipe_send-Filled_example =
    cli_pipe_send-Filled quiet (λ d. d ≡ 0xda ∷ 0xbb ∷ []) 2 quiet-IsSteady 17 two_places
      (record calm { room = 3 })
      (record {
        valid = omega arith;
        front = omega arith;
        free = refl;
        space = omega arith;
        block = omega arith;
      })
      (omega arith)
