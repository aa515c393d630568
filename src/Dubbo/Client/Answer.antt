-- ===== src/Dubbo/Client/Answer.antt =====
-- From an answer that dubbo_client/dubbo_client.c reads to the requests that it sends for it.
use Prim.Native.Nat.{bit_and}
use wee.Base.{ℕ, ◌+◌, ◌-◌, ◌^◌, ◌≤◌, ◌<◌, ◌≡◌, true, false, [], ◌++◌, length}
use wee.Base.Memory.{Bytes}
use wee.Base.Word.{max_size}
use wee.Buffer.{Buffer, write_locked}
use wee.Buffer.Valid.{IsValid}
use wee.Buffer.Content.{contents}
use wee.Buffer.ReadFd.{extrabuf_size}
use wee.Dubbo.Codec.{DubboHdr, seri_mask, hessian2_seri_id, flag_req, flag_evt, max_pkt_sz}
use wee.Dubbo.Codec.Header.{packet, HdrInRange}
use wee.Dubbo.Codec.Response.Decode.{Reply, reply_body, IsReply}
use wee.Dubbo.Client.{DubboClient}
use wee.Dubbo.Client.System.{Os}
use wee.Dubbo.Client.Steady.{IsSteady}
use wee.Dubbo.Client.Pipeline.{Requests}

-- the client when an answer was counted, with the buffer that is left
abbrev pub credited : DubboClient → Buffer → DubboClient
credited c b = record c {
  pipe_left = c.pipe_left + 1;
  req_left = c.req_left - 1;
  ok_n = c.ok_n + 1;
  rcv_buf = b;
}

-- A connected client that has read nothing yet, with more than one request left.
pub record IsReady (c : DubboClient) : Type 0 where
  pub connected : c.connected ≡ true
  pub valid : IsValid c.rcv_buf
  pub front : c.rcv_buf.p_sz ≤ c.rcv_buf.read_idx
  pub free : write_locked c.rcv_buf ≡ false
  pub empty : contents c.rcv_buf ≡ []
  pub small : c.rcv_buf.sz + extrabuf_size < max_size
  pub more : 1 < c.req_left
  pub few : c.req_left < 2 ^ 31

-- A response of at most n bytes that dubbo_decode takes, with its header.
pub record IsResponse (h : DubboHdr) (r : Reply) (n : ℕ) : Type 0 where
  pub in_range : HdrInRange h
  pub is_reply : IsReply h r
  pub seri : bit_and h.flag seri_mask ≡ hessian2_seri_id
  pub response : bit_and h.flag flag_req ≡ 0
  pub no_event : bit_and h.flag flag_evt ≡ 0
  pub size : h.body_sz ≡ length (reply_body r)
  pub positive : 0 < h.body_sz
  pub limited : h.body_sz ≤ max_pkt_sz
  pub fits : length (packet h (reply_body r)) ≤ n

module _ (os : Os) (IsRequest : Bytes → Type 0) (m : ℕ) (steady : IsSteady os IsRequest m) where
  open os use {W, sent, readv}

  -- What the handler leaves that reads the answer at v.
  pub record Answered (c : DubboClient) (v : W) (s : DubboClient × W) : Type 0 where
    pub counted : s.0.ok_n ≡ c.ok_n + 1
    pub one_less : s.0.req_left + 1 ≡ c.req_left
    pub none_left : s.0.pipe_left ≡ 0
    pub queued : Bytes
    pub requests : Requests IsRequest (c.pipe_left + 1) queued
    pub bytes :
        sent s.1 c.fd ++ contents s.0.snd_buf ≡ (sent v c.fd ++ contents c.snd_buf) ++ queued
