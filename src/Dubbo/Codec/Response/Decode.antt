-- ===== src/Dubbo/Codec/Response/Decode.antt =====
-- `dubbo_decode` of dubbo_client/dubbo_codec.c on the responses that a server sends.
use wee.Base.{ℕ, ◌-◌, ◌^◌, ◌≤◌, ◌≡◌, ◌≢◌, false, Option, none, some, [], ◌∷◌, length, ◌==◌}
use wee.Base.Memory.{Bytes}
use wee.Buffer.{Buffer}
use wee.Dubbo.Hessian.Strings.{IsAscii}
use wee.Dubbo.Codec.{DubboHdr, DubboRes, get_res_status_desc, res_t_ok, res_ex, res_val, res_null}
use wee.Dubbo.Codec.Encode.{hs_text}

-- a text in one piece
pub record IsShort (s : Bytes) : Type 0 where
  pub ascii : IsAscii s
  pub size : length s ≤ 0x8000

-- The responses to a call that is no event: the result is null, a text or an exception, or the status
-- is not OK and a text says why.
pub data Reply : Type 0 where
  null : Reply
  value : Bytes → Reply
  exception : Bytes → Reply
  failure : Bytes → Reply

abbrev pub reply_body : Reply → Bytes
reply_body null = 0x92 ∷ []
reply_body (value s) = 0x91 ∷ hs_text s
reply_body (exception s) = 0x90 ∷ hs_text s
reply_body (failure s) = hs_text s

abbrev pub IsReply : DubboHdr → Reply → Type 0
IsReply h null = h.status ≡ res_t_ok
IsReply h (value s) = (h.status ≡ res_t_ok) × IsShort s
IsReply h (exception s) = (h.status ≡ res_t_ok) × IsShort s
IsReply h (failure s) = (h.status ≢ res_t_ok) × IsShort s

abbrev pub reply_type : Reply → ℕ
reply_type null = res_null
reply_type (value s) = res_val
reply_type (exception s) = res_ex
reply_type (failure s) = 2 ^ 32 - 1

abbrev pub reply_text : Reply → Option Bytes
reply_text null = none
reply_text (value s) = some s
reply_text (exception s) = some s
reply_text (failure s) = some s

-- what the caller gets
abbrev pub answer : DubboHdr → Reply → DubboRes
answer h r = record {
  reqid = h.reqid;
  is_evt = false;
  is_ok = h.status == res_t_ok;
  type = reply_type r;
  desc = get_res_status_desc h.status;
  payload = reply_text r;
}

-- what `decode_res` fills in first
abbrev begun : DubboHdr → DubboRes
begun h = record {
  reqid = h.reqid;
  is_evt = false;
  is_ok = h.status == res_t_ok;
  type = 2 ^ 32 - 1;
  desc = get_res_status_desc h.status;
  payload = none;
}
