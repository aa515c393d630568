-- ===== src/Nova.antt =====
-- The packet header of the nova protocol (nova_client/codec.c).
-- Integers are bit patterns; a string is the memory that its pointer leads to.
pub mod Layout
pub mod RoundTrip
pub mod Generic
pub mod Client
pub mod Options
mod Tests
mod ClientTests
use wee.Base.{
  ℕ, ◌+◌, ◌%◌, ◌^◌, Bool, true, false, not, Option, some, ltb, leb, ◌==◌, if◌then◌else◌, ◌>>=◌,
  ◌>>◌, guard, take, length,
}
use wee.Base.Memory.{Bytes, slice}
use wee.Base.Word.{sle32, size_of_int32, size_of_int16, int32_of_int16}
use wee.Base.Endian.{of_be}
use wee.Buffer.{Buffer, readable, append, retrieve_as_string}
use wee.Buffer.Words.{
  append_int64, append_int32, append_int16, append_int8, read_int64, read_int32, read_int16,
  read_int8,
}

abbrev pub nova_magic : ℕ
nova_magic = 0xdabc

abbrev pub header_common_len : ℕ
header_common_len = 37

-- `struct nova_hdr`
pub record NovaHdr : Type 0 where
  pub msg_size : ℕ
  pub magic : ℕ
  pub head_size : ℕ
  pub version : ℕ
  pub ip : ℕ
  pub port : ℕ
  pub service_len : ℕ
  pub service_name : Bytes
  pub method_len : ℕ
  pub method_name : Bytes
  pub seq_no : ℕ
  pub attach_len : ℕ
  pub attach : Bytes

-- `nova_detect` on `size` bytes
unfoldable pub detect : Bytes → ℕ → Bool
detect buf size = if ltb size header_common_len then false else of_be (slice buf 4 2) == nova_magic

-- `nova_pack`; `hdr->head_size + body_size` is a size_t that is cut to int32_t.
unfoldable pub pack : Buffer → NovaHdr → Bytes → Option Buffer
pack b hdr body = do
  b ← append_int32 b ((size_of_int16 hdr.head_size + length body) % 2 ^ 32)
  b ← append_int16 b hdr.magic
  b ← append_int16 b hdr.head_size
  b ← append_int8 b hdr.version
  b ← append_int32 b hdr.ip
  b ← append_int32 b hdr.port
  b ← append_int32 b hdr.service_len
  b ← append b (take (size_of_int32 hdr.service_len) hdr.service_name)
  b ← append_int32 b hdr.method_len
  b ← append b (take (size_of_int32 hdr.method_len) hdr.method_name)
  b ← append_int64 b hdr.seq_no
  b ← append_int32 b hdr.attach_len
  b ← append b (take (size_of_int32 hdr.attach_len) hdr.attach)
  append b body

-- The part of `nova_unpack` behind its last test. Memory for the strings is found.
unfoldable pub unpack_fields : Buffer → NovaHdr → Option (Bool × NovaHdr × Buffer)
unpack_fields b hdr = do
  (version, b) ← read_int8 b
  (ip, b) ← read_int32 b
  (port, b) ← read_int32 b
  (service_len, b) ← read_int32 b
  (service_name, b) ← retrieve_as_string b (size_of_int32 service_len)
  (method_len, b) ← read_int32 b
  (method_name, b) ← retrieve_as_string b (size_of_int32 method_len)
  (seq_no, b) ← read_int64 b
  (attach_len, b) ← read_int32 b
  (attach, b) ← retrieve_as_string b (size_of_int32 attach_len)
  some (
    true,
    record hdr {
      version = version;
      ip = ip;
      port = port;
      service_len = service_len;
      service_name = service_name;
      method_len = method_len;
      method_name = method_name;
      seq_no = seq_no;
      attach_len = attach_len;
      attach = attach;
    },
    b,
  )

-- `nova_unpack`: the answer, the header as far as it was filled in, and the buffer left.
unfoldable pub unpack : Buffer → NovaHdr → Option (Bool × NovaHdr × Buffer)
unpack b hdr = if leb (readable b) header_common_len then some (false, hdr, b) else do
  (msg_size, b) ← read_int32 b
  let hdr = record hdr { msg_size = msg_size }
  if sle32 msg_size header_common_len then some (false, hdr, b) else do
    (magic, b) ← read_int16 b
    if not (magic == nova_magic) then some (false, hdr, b) else do
      (head_size, b) ← read_int16 b
      let hdr = record hdr { head_size = head_size }
      if not (sle32 (int32_of_int16 head_size) msg_size)
          then some (false, hdr, b)
          else unpack_fields b hdr
