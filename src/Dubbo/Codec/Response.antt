-- ===== src/Dubbo/Codec/Response.antt =====
-- The decoding of responses in dubbo_client/dubbo_codec.c. The outer option of a result is a failed
-- assertion, or a string that hs_decode_string never ends on; the inner one is false or NULL.
pub mod Decode
pub mod Incomplete
use Prim.Native.Nat.{bit_and}
use wee.Base.{
  ℕ, ◌+◌, ◌-◌, ◌%◌, ◌^◌, Bool, true, false, not, ◌||◌, Option, none, some, List, [], length, ltb,
  ◌==◌, if◌then◌else◌, ◌>>=◌,
}
use wee.Base.Memory.{Bytes, slice}
use wee.Base.Word.{size_of_int32}
use wee.Buffer.{Buffer, create_ex, readable, peek, append, retrieve}
use wee.Buffer.Words.{read_int8}
use wee.Dubbo.Hessian.{Decoded, text, refused, looping, decode_string}
use wee.Dubbo.Codec.{
  DubboHdr, DubboRes, decode_res_hdr, get_res_status_desc, flag_evt, res_t_ok, res_ex, res_val,
  res_null,
}

-- BufCheapPrepend
abbrev pub cheap_prepend : ℕ
cheap_prepend = 8

-- what `read_hs_str` makes of the end of `hs_decode_string`
abbrev pub after_decode : Buffer → Decoded → Option (Option (Bytes × Buffer))
after_decode b (text s) = retrieve b (length s) >>= λ b'. some (some (s, b'))
after_decode b refused = some none
after_decode b looping = none

-- `read_hs_str` on a buffer whose bytes end with its block
unfoldable pub read_hs_str : ℕ → Buffer → Option (Option (Bytes × Buffer))
read_hs_str fuel b =
    after_decode b (decode_string fuel (slice b.buf (peek b) (readable b)) (readable b))

-- what a string that was read makes of a response
abbrev pub with_str :
    Option (Option (Bytes × Buffer)) → (Bytes → DubboRes) → Option (Option DubboRes)
with_str m f = m >>= λ r. some (r >>= λ p. some (f p.0))

-- `decode_res_data`
unfoldable pub decode_res_data : ℕ → Buffer → DubboRes → Option (Option DubboRes)
decode_res_data fuel b res = do
  (raw, b) ← read_int8 b
  let flag = (raw + 256 - 0x90) % 256
  let found = with_str (read_hs_str fuel b) (λ s. record res { payload = some s; type = flag })
  if ltb raw 0x80 || ltb 0xbf raw
      then some none
      else if flag == res_null
      then some (some (record res { type = flag }))
      else if flag == res_ex || flag == res_val
      then found
      else some none

-- `decode_res`
unfoldable pub decode_res : ℕ → Buffer → DubboHdr → DubboRes → Option (Option DubboRes)
decode_res fuel b hdr res =
    let res : DubboRes = record res {
      is_evt = not (bit_and hdr.flag flag_evt == 0);
      desc = get_res_status_desc hdr.status;
      is_ok = hdr.status == res_t_ok;
    } in
    if hdr.status == res_t_ok
    then (if not (bit_and hdr.flag flag_evt == 0)
        then some (some res)
        else decode_res_data fuel b res)
    else with_str (read_hs_str fuel b) (λ s. record res { payload = some s })

-- what `dubbo_decode` starts with; `type` is -1
abbrev pub new_res : ℕ → DubboRes
new_res reqid = record {
  reqid = reqid;
  is_evt = false;
  is_ok = false;
  type = 2 ^ 32 - 1;
  desc = [];
  payload = none;
}

-- `dubbo_decode` behind the header, on n bytes of body, with the buffer that it leaves. Memory is found;
-- a copy of more bytes than stand in the block is cut off, since the assertion of buf_retrieve then
-- fails.
unfoldable pub decode_body : ℕ → ℕ → DubboHdr → Buffer → Option (Option DubboRes × Buffer)
decode_body fuel n hdr b = do
  made ← create_ex n cheap_prepend true true
  body ← made
  body ← append body (slice b.buf (peek b) n)
  b ← retrieve b n
  res ← decode_res fuel body hdr (new_res hdr.reqid)
  some (res, b)

unfoldable pub dubbo_decode : ℕ → Buffer → Option (Option DubboRes × Buffer)
dubbo_decode fuel b = do
  (good, hdr, b) ← decode_res_hdr b (record { flag = 0; status = 0; body_sz = 0; reqid = 0 })
  if not good then some (none, b) else decode_body fuel (size_of_int32 hdr.body_sz) hdr b
