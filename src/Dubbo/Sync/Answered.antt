-- ===== src/Dubbo/Sync/Answered.antt =====
-- A whole call of `dubbo_invoke_sync` in dubbo_client/dubbo_client.c, where the answer comes at once.
use wee.Base.{ℕ, ◌^◌, ◌<◌, ◌≤◌, ◌≡◌, true, false, Option, some, ◌++◌, arith}
use wee.Base.Memory.{Bytes}
use wee.Buffer.{Buffer}
use wee.Buffer.Valid.{IsValid, writable_lem}
use wee.Buffer.ReadFd.{offered, extrabuf_size}
use wee.Net.Socket.Open.{Opening}
use wee.Net.Socket.System.{Sockets}
use wee.Dubbo.Codec.{DubboReq, DubboHdr}
use wee.Dubbo.Codec.Header.{packet}
use wee.Dubbo.Codec.Encode.{req_body}
use wee.Dubbo.Codec.Request.{req_hdr}
use wee.Dubbo.Codec.Response.Decode.{Reply, answer}
use wee.Base.Printing.{Json}
use wee.Dubbo.Sync.Shown.{Prints}
use wee.Dubbo.Sync.{Ended, show_res}

pub offered_block : {b : Buffer} → IsValid b → b.sz < 2 ^ 32 → extrabuf_size ≤ offered b
unfolding offered
offered_block {b} v h = ground (arith, writable_lem v)

-- What a call ends with that gets this response: it is printed, the socket is closed, and `ret` is false
-- all the same.
pub record Shows (json : Json) (h : DubboHdr) (r : Reply) (e : Ended) : Type 0 where
  pub lines : Prints json h r e.lines
  pub closed : e.closed ≡ true
  pub ret : e.ret ≡ false

-- the end of a call that gets this response
abbrev ended : Json → DubboHdr → Reply → Ended
ended json h r = record { lines = show_res json (answer h r); closed = true; ret = false }

module _ {W : Type 0} (sockets : Sockets W) (opening : Opening W)
    (readv : ℕ → ℕ → W → Option Bytes × W) (json : Json) where
  open sockets use {out, received, broken, interruptions}

  -- A connection `fd` that is made at v and that no call fails on, to a server whose answer to the request
  -- is there, whole and alone, at the first reading.
  pub record AnswersAtOnce (q : DubboReq) (reply : Bytes) (fd : ℕ) (v : W) : Type 0 where
    pub sound : (w : W) → broken w fd ≡ false
    pub replies :
        (n : ℕ) (w : W)
        → out w fd ≡ out v fd ++ packet (req_hdr q) (req_body q)
        → received w fd ≡ received v fd
        → extrabuf_size ≤ n
        → (readv fd n w).0 ≡ some reply
