-- ===== src/Nova/Generic.antt =====
-- Generic calls over nova (nova_client/generic.c): the header of a call, and the thrift message
-- that is its body.
pub mod Wire
pub mod Answer
use Prim.Native.Nat.{bit_and, bit_or, bit_xor}
use wee.Base.{
  ℕ, zero, suc, ◌+◌, ◌-◌, ◌%◌, ◌^◌, Bool, true, false, not, Option, none, some, List, [], ◌∷◌, ◌++◌,
  length, take, ltb, ◌==◌, if◌then◌else◌, ◌>>=◌, ◌>>◌, guard,
}
use wee.Base.Memory.{Bytes}
use wee.Base.Text.{codes}
use wee.Base.Word.{sle32, size_of_int32}
use wee.Buffer.{Buffer, create_ex, append, retrieve_as_string}
use wee.Buffer.Words.{append_int32, append_int16, append_int8, read_int32, read_int16, read_int8}
use wee.Nova.{NovaHdr, nova_magic, header_common_len}

abbrev pub generic_service : Bytes
generic_service = codes "com.youzan.nova.framework.generic.service.GenericService"

abbrev pub generic_service_len : ℕ
generic_service_len = 56

abbrev pub generic_method : Bytes
generic_method = codes "invoke"

abbrev pub generic_method_len : ℕ
generic_method_len = 6

abbrev pub generic_common_len : ℕ
generic_common_len = 44

abbrev pub ver_mask : ℕ
ver_mask = 0xffff0000

abbrev pub ver1 : ℕ
ver1 = 0x80010000

abbrev pub t_call : ℕ
t_call = 1

abbrev pub t_reply : ℕ
t_reply = 2

abbrev pub t_ex : ℕ
t_ex = 3

abbrev pub type_struct : ℕ
type_struct = 12

abbrev pub type_string : ℕ
type_string = 11

abbrev pub field_stop : ℕ
field_stop = 0

-- `create_nova_generic`; `attach` is a C string, without its final 0. The result is none where the
-- source returns NULL.
unfoldable pub create_generic : Bytes → Option NovaHdr
create_generic attach =
    let attach_len = length attach % 2 ^ 32 in
    let head_sz =
      (header_common_len + generic_service_len + generic_method_len + attach_len) % 2 ^ 32 in
    if not (sle32 head_sz 0x7fff)
    then none
    else some (record {
      msg_size = 0;
      magic = nova_magic;
      head_size = head_sz % 2 ^ 16;
      version = 1;
      ip = 0;
      port = 0;
      service_len = generic_service_len;
      service_name = take generic_service_len generic_service ++ (0 ∷ []);
      method_len = generic_method_len;
      method_name = take generic_method_len generic_method ++ (0 ∷ []);
      seq_no = 1;
      attach_len = attach_len;
      attach = take (size_of_int32 attach_len) attach ++ (0 ∷ []);
    })

-- a string field of the thrift struct: type, id, length, bytes
unfoldable pub append_string_field : Buffer → ℕ → ℕ → Bytes → Option Buffer
append_string_field b id len s = do
  b ← append_int8 b type_string
  b ← append_int16 b id
  b ← append_int32 b len
  append b (take (size_of_int32 len) s)

-- what `thrift_generic_pack` appends to the buffer that it creates
unfoldable pub append_call : Buffer → ℕ → ℕ → Bytes → ℕ → Bytes → ℕ → Bytes → Option Buffer
append_call b seq serv_len serv method_len method args_len json_args = do
  b ← append_int32 b (bit_or ver1 t_call)
  b ← append_int32 b generic_method_len
  b ← append b generic_method
  b ← append_int32 b seq
  b ← append_int8 b type_struct
  b ← append_int16 b 1
  b ← append_string_field b 1 serv_len serv
  b ← append_string_field b 2 method_len method
  b ← append_string_field b 3 args_len json_args
  b ← append_int8 b field_stop
  append_int8 b field_stop

-- `thrift_generic_pack`; memory for the buffer is found.
unfoldable pub thrift_pack : ℕ → ℕ → Bytes → ℕ → Bytes → ℕ → Bytes → Option Buffer
thrift_pack seq serv_len serv method_len method args_len json_args = do
  made ←
      create_ex (size_of_int32 ((generic_common_len + serv_len + method_len + args_len) % 2 ^ 32)) 8
        true true
  b ← made
  append_call b seq serv_len serv method_len method args_len json_args

-- `strncmp(s, t, n) == 0` on memory that holds a final 0
unfoldable pub strncmp_eq : ℕ → Bytes → Bytes → Bool
strncmp_eq zero s t = true
strncmp_eq (suc n) [] t = false
strncmp_eq (suc n) (a ∷ s) [] = false
strncmp_eq (suc n) (a ∷ s) (b ∷ t) =
    let rest = strncmp_eq n s t in if a == b then (if a == 0 then true else rest) else false

-- the version word as `thrift_generic_unpack` masks it, at uint32_t
unfoldable pub version_of : ℕ → ℕ
version_of v =
    let v' =
      if ltb 0x7fffffff v
      then (2 ^ 32 - bit_xor ((v + 2 ^ 32 - 1) % 2 ^ 32) 0xffffffff) % 2 ^ 32
      else v in
    bit_and v' ver_mask

-- The part of `thrift_generic_unpack` behind the test of the method name.
unfoldable pub thrift_unpack_result : Buffer → Option (Bool × Option Bytes × Buffer)
thrift_unpack_result b = do
  (seq, b) ← read_int32 b
  (field_type, b) ← read_int8 b
  (field_id, b) ← read_int16 b
  guard (field_id == 0)
  if not (field_type == type_string) then some (false, none, b) else do
    (resp_len, b) ← read_int32 b
    (resp, b) ← retrieve_as_string b resp_len
    (last_type, b) ← read_int8 b
    guard (last_type == field_stop)
    some (true, some resp, b)

-- `thrift_generic_unpack`: the answer, what goes through `out`, and the buffer left. The type of
-- the message is taken from the version word after its low bytes were masked away.
unfoldable pub thrift_unpack : Buffer → Option (Bool × Option Bytes × Buffer)
thrift_unpack b = do
  (v, b) ← read_int32 b
  let ver = version_of v
  if not (ver == ver1)
      then some (false, none, b)
      else if bit_and ver 0x000000ff == t_ex
      then some (false, none, b)
      else do
        (method_len, b) ← read_int32 b
        (method, b) ← retrieve_as_string b method_len
        if not (strncmp_eq generic_common_len (method ++ (0 ∷ [])) (generic_method ++ (0 ∷ [])))
            then some (false, none, b)
            else thrift_unpack_result b
