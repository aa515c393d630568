-- ===== src/Dubbo/Codec.antt =====
-- Dubbo packets (dubbo_client/dubbo_codec.c): a header of 16 bytes and a body of hessian values.
-- The outer option of a result is a failed assertion, the inner one the false or NULL returned.
pub mod Request
pub mod Header
pub mod Frame
pub mod Encode
pub mod Response
use Prim.Native.Nat.{bit_and, bit_or}
use wee.Base.{
  ℕ, ◌+◌, ◌-◌, ◌*◌, ◌%◌, ◌^◌, Bool, true, false, not, ◌&&◌, ◌||◌, Option, none, some, List, [], ◌∷◌,
  ◌++◌, length, drop, ltb, leb, ◌==◌, if◌then◌else◌, ◌>>=◌, ◌>>◌, guard,
}
use wee.Base.Memory.{Bytes, slice}
use wee.Base.Text.{codes}
use wee.Base.Word.{sle32, size_of_int32, add_size, sub_size}
use wee.Base.Endian.{of_be}
use wee.Buffer.{Buffer, create_ex, readable, prependable, peek, append, retrieve, fill, has_written}
use wee.Buffer.Words.{
  prepend_int64, prepend_int32, prepend_int16, prepend_int8, peek_int16, read_int64, read_int32,
  read_int16, read_int8,
}
use wee.Dubbo.Hessian.{Decoded, text, refused, looping, encode_null, encode_string, decode_string}

abbrev pub buf_len : ℕ
buf_len = 8192

abbrev pub max_pkt_sz : ℕ
max_pkt_sz = 1024 * 1024 * 4

abbrev pub hdr_len : ℕ
hdr_len = 16

abbrev pub dubbo_magic : ℕ
dubbo_magic = 0xdabb

abbrev pub dubbo_ver : Bytes
dubbo_ver = codes "3.1.0-RELEASE"

abbrev pub generic_method_name : Bytes
generic_method_name = codes "$invokeWithJsonArgs"

abbrev pub generic_method_ver : Bytes
generic_method_ver = codes "0.0.0"

abbrev pub generic_method_para_types : Bytes
generic_method_para_types = codes "Ljava/lang/String;[Ljava/lang/String;Ljava/lang/String;"

abbrev pub hessian2_seri_id : ℕ
hessian2_seri_id = 2

abbrev pub flag_req : ℕ
flag_req = 0x80

abbrev pub flag_twoway : ℕ
flag_twoway = 0x40

abbrev pub flag_evt : ℕ
flag_evt = 0x20

abbrev pub seri_mask : ℕ
seri_mask = 0x1f

abbrev pub res_t_ok : ℕ
res_t_ok = 20

abbrev pub res_ex : ℕ
res_ex = 0

abbrev pub res_val : ℕ
res_val = 1

abbrev pub res_null : ℕ
res_null = 2

-- `struct dubbo_hdr`
pub record DubboHdr : Type 0 where
  pub flag : ℕ
  pub status : ℕ
  pub body_sz : ℕ
  pub reqid : ℕ

-- `struct dubbo_req`; of `argv` the method and the arguments, since the types are always NULL
pub record DubboReq : Type 0 where
  pub reqid : ℕ
  pub is_twoway : Bool
  pub is_evt : Bool
  pub service : Bytes
  pub method : Bytes
  pub argv_method : Bytes
  pub argv_args : Bytes
  pub attach : Option Bytes
  pub payload : Bytes

-- `struct dubbo_res`, without the attachment, which is never read; `data` is `payload`.
pub record DubboRes : Type 0 where
  pub reqid : ℕ
  pub is_evt : Bool
  pub is_ok : Bool
  pub type : ℕ
  pub desc : Bytes
  pub payload : Option Bytes

unfoldable pub get_res_status_desc : ℕ → Bytes
get_res_status_desc status =
    if status == 20
    then codes "OK"
    else if status == 30
    then codes "CLIENT TIMEOUT"
    else if status == 31
    then codes "SERVER TIMEOUT"
    else if status == 40
    then codes "BAD REQUEST"
    else if status == 50
    then codes "BAD RESPONSE"
    else if status == 60
    then codes "SERVICE NOT FOUND"
    else if status == 70
    then codes "SERVICE ERROR"
    else if status == 80
    then codes "SERVER ERROR"
    else if status == 90
    then codes "CLIENT ERROR"
    else codes "UNKNOWN"

-- `next_reqid`: the new value of the static counter, which is also the answer
unfoldable pub next_reqid : ℕ → ℕ
next_reqid id = if id + 1 == 0x7fffffffffffffff then 1 else id + 1

unfoldable pub encode_req_hdr : Buffer → DubboHdr → Option (Option Buffer)
encode_req_hdr b hdr = if ltb (prependable b) hdr_len then some none else do
  b ← prepend_int32 b hdr.body_sz
  b ← prepend_int64 b hdr.reqid
  b ← prepend_int8 b hdr.status
  b ← prepend_int8 b hdr.flag
  b ← prepend_int16 b dubbo_magic
  some (some b)

unfoldable pub is_dubbo_pkt : Buffer → Option Bool
is_dubbo_pkt b =
    if leb hdr_len (readable b)
    then (peek_int16 b >>= λ magic. some (magic == dubbo_magic))
    else some false

-- `is_completed_dubbo_pkt`: none inside where it returns false, else the int in `remaining`
unfoldable pub is_completed_dubbo_pkt : Buffer → Option (Option ℕ)
is_completed_dubbo_pkt b = do
  is_pkt ← is_dubbo_pkt b
  let body_sz = of_be (slice b.buf (peek b + hdr_len - 4) 4)
  if not is_pkt
      then some none
      else if sle32 body_sz 0 || not (sle32 body_sz max_pkt_sz)
      then some none
      else some (some ((size_of_int32 body_sz + hdr_len + 2 ^ 64 - readable b) % 2 ^ 32))

-- `decode_res_hdr`: the answer, the header as far as it was filled in, and the buffer left
unfoldable pub decode_res_hdr : Buffer → DubboHdr → Option (Bool × DubboHdr × Buffer)
decode_res_hdr b hdr = do
  is_pkt ← is_dubbo_pkt b
  if not is_pkt then some (false, hdr, b) else do
    (magic, b) ← read_int16 b
    (flag, b) ← read_int8 b
    (status, b) ← read_int8 b
    (reqid, b) ← read_int64 b
    (body_sz, b) ← read_int32 b
    let hdr : DubboHdr = record { flag = flag; status = status; body_sz = body_sz; reqid = reqid }
    some (
      sle32 body_sz max_pkt_sz
          && bit_and flag seri_mask == hessian2_seri_id
          && bit_and flag flag_req == 0,
      hdr,
      b,
    )

-- What is done with a buffer unless the step before returned false.
infixl 5 ◌>?>◌
abbrev pub ◌>?>◌ :
    Option (Option Buffer) → (Buffer → Option (Option Buffer)) → Option (Option Buffer)
m >?> f = m >>= λ r. elim r [ none ↦ some none | some b ↦ f b ]

-- `write_hs_str`; what would be written behind the block is dropped, and then the assertion fails.
unfoldable pub write_hs_str : Bytes → Buffer → Option (Option Buffer)
write_hs_str s b = elim (encode_string s) [
  | none ↦ some none
  | some e ↦ has_written (fill b e) (length e) >>= λ b'. some (some b')
]

unfoldable pub write_null : Buffer → Option (Option Buffer)
write_null b = has_written (fill b encode_null) (length encode_null) >>= λ b'. some (some b')

unfoldable pub encode_req_data : Buffer → DubboReq → Option (Option Buffer)
encode_req_data b req =
    write_hs_str dubbo_ver b
    >?> write_hs_str req.service
    >?> write_hs_str generic_method_ver
    >?> write_hs_str generic_method_name
    >?> write_hs_str generic_method_para_types
    >?> write_hs_str req.argv_method
    >?> write_null
    >?> write_hs_str req.argv_args
    >?> write_null

-- the flags of a request
unfoldable pub req_flag : DubboReq → ℕ
req_flag req =
    let f = bit_or flag_req hessian2_seri_id in
    let f' = if req.is_twoway then bit_or f flag_twoway else f in
    if req.is_evt then bit_or f' flag_evt else f'

unfoldable pub encode_req : Buffer → DubboReq → Option (Option Buffer)
encode_req b req =
    (if req.is_evt then (append b req.payload >>= λ b'. some (some b')) else encode_req_data b req)
    >?> λ b'. encode_req_hdr b' (record {
      flag = req_flag req;
      status = 0;
      body_sz = readable b' % 2 ^ 32;
      reqid = req.reqid;
    })

-- `dubbo_encode`; memory for the buffer is found.
unfoldable pub dubbo_encode : DubboReq → Option (Option Buffer)
dubbo_encode req = do made ← create_ex buf_len hdr_len true true; b ← made; encode_req b req
