-- ===== src/Dubbo/Tests.antt =====
-- Runs of the dubbo formats, and the theorems about them at small packets.
use Prim.Native.Nat.{bit_and}
use wee.Base.{
  ℕ, ◌+◌, ◌-◌, ◌^◌, ◌≤◌, ◌<◌, ◌≡◌, inl, refl, true, false, some, none, [], ◌∷◌, ◌++◌, arith, length,
  Returns, replicate, ◌&&◌, ◌==◌,
}
use wee.Base.Memory.{Bytes, slice}
use wee.Base.Text.{codes}
use wee.Base.Word.{sle32}
use wee.Base.Endian.{be_bytes, le_bytes}
use wee.Buffer.{Buffer, write_locked}
use wee.Buffer.Chain.{Holds}
use wee.Buffer.Room.{Roomy}
use wee.Dubbo.Hessian.{encode_int, decode_int, encode_string, decode_string, text}
use wee.Dubbo.Hessian.Ints.{decode_int-encode_int}
use wee.Dubbo.Hessian.Strings.{decode_string-encode_string}
use wee.Dubbo.Codec.{DubboHdr, DubboReq, decode_res_hdr, is_completed_dubbo_pkt, dubbo_encode}
use wee.Dubbo.Codec.Header.{packet, HdrInRange, decode_res_hdr-packet}
use wee.Dubbo.Codec.Frame.{is_completed-remaining}
use wee.Dubbo.Codec.Request.{req_hdr, dubbo_encode-packet}
use wee.Dubbo.Codec.Encode.{req_body}
use wee.Samples.{holding, holding-Holds}

decode_int-encode_int_example :
    decode_int
      (encode_int (2 ^ 32 - 5000) ++ (1 ∷ []))
      (length (encode_int (2 ^ 32 - 5000) ++ (1 ∷ [])))
    ≡ some (2 ^ 32 - 5000)
decode_int-encode_int_example =
    decode_int-encode_int (2 ^ 32 - 5000) (1 ∷ []) (omega arith) (inl (omega arith))

decode_string-encode_string_example :
    (e : Bytes) × (encode_string (codes "ok") ≡ some e)
    × (decode_string 1 (e ++ (9 ∷ [])) (length (e ++ (9 ∷ []))) ≡ text (codes "ok"))
decode_string-encode_string_example =
    decode_string-encode_string 0 (codes "ok") (9 ∷ []) (omega arith) (omega arith)

-- a response with the body size 3
abbrev hdr : DubboHdr
hdr = record { flag = 2; status = 20; body_sz = 3; reqid = 77 }

hdr-HdrInRange : HdrInRange hdr
hdr-HdrInRange = omega arith

-- a buffer with 16 bytes of front room that holds one byte
abbrev one_byte : Buffer
one_byte = record {
  read_idx = 16;
  write_idx = 17;
  sz = 17;
  p_sz = 16;
  buf = replicate 16 0 ++ (5 ∷ []);
  refcount = 0;
  src = none;
  cache = none;
}

one_byte-Roomy : Roomy one_byte 0 16 (5 ∷ [])
unfolding slice write_locked
one_byte-Roomy = record {
  valid = omega arith;
  behind_fits = omega arith;
  ahead_fits = omega arith;
  bytes = refl;
  free = refl;
  block = omega arith;
}

abbrev two_of_three : Bytes
two_of_three = packet hdr (1 ∷ 2 ∷ [])

two-Holds : Holds (holding two_of_three) two_of_three
unfolding be_bytes le_bytes
two-Holds = holding-Holds two_of_three (omega arith)

decode_res_hdr-packet_example : Returns (decode_res_hdr (holding two_of_three) hdr) (λ r.
    (r.0 ≡ (sle32 3 4194304 && bit_and 2 0x1f == 2 && bit_and 2 0x80 == 0))
    × (r.1 ≡ hdr)
    × Holds r.2 (1 ∷ 2 ∷ []))
decode_res_hdr-packet_example =
    decode_res_hdr-packet {b = holding two_of_three} hdr hdr (1 ∷ 2 ∷ []) hdr-HdrInRange two-Holds

is_completed-remaining_example :
    (r : ℕ) × (is_completed_dubbo_pkt (holding two_of_three) ≡ some (some r))
    × (2 ≤ 3 → r + 2 ≡ 3)
    × (3 < 2 → r + 2 ≡ 3 + 2 ^ 32)
is_completed-remaining_example =
    is_completed-remaining {b = holding two_of_three} hdr (1 ∷ 2 ∷ []) hdr-HdrInRange (omega arith)
      (omega arith) (omega arith) two-Holds

abbrev req : DubboReq
req = record {
  reqid = 1;
  is_twoway = true;
  is_evt = false;
  service = codes "com.Demo";
  method = codes "hi";
  argv_method = codes "hi";
  argv_args = codes "[]";
  attach = none;
  payload = [];
}

dubbo_encode-packet_example :
    (b : Buffer) × (dubbo_encode req ≡ some (some b))
    × Holds b (packet (req_hdr req) (req_body req))
    × (is_completed_dubbo_pkt b ≡ some (some 0))
dubbo_encode-packet_example = dubbo_encode-packet req refl (omega arith) (omega arith)
