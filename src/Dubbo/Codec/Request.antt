-- ===== src/Dubbo/Codec/Request.antt =====
-- `dubbo_encode`: a request becomes one complete packet (dubbo_client/dubbo_codec.c).
use wee.Base.{
  ◌+◌, ◌%◌, ◌^◌, ◌≤◌, ◌<◌, ◌≡◌, ap, ◌∙◌, false, Option, none, some, [], length, if◌then◌else◌,
  ◌>>=◌, arith, length-append,
}
use wee.Base.Memory.{Bytes}
use wee.Buffer.{Buffer, readable, writable, prependable, append, has_written, fill, write_locked}
use wee.Buffer.Valid.{IsValid, writable_lem, readable_lem}
use wee.Buffer.Chain.{Holds, readable_of_Holds, create_ex-Takes}
use wee.Buffer.Content.{length-contents}
use wee.Buffer.Room.{Roomy}
use wee.Dubbo.Hessian.{encode_null}
use wee.Dubbo.Codec.{
  DubboHdr, DubboReq, encode_req_hdr, write_hs_str, encode_req_data, encode_req, dubbo_encode,
  req_flag, ◌>?>◌, dubbo_ver, generic_method_ver, generic_method_name, generic_method_para_types,
  buf_len, hdr_len, is_completed_dubbo_pkt,
}
use wee.Dubbo.Codec.Header.{packet, HdrInRange, encode_req_hdr-packet}
use wee.Dubbo.Codec.Frame.{is_completed-remaining}
use wee.Dubbo.Codec.Encode.{
  hs_text, length-hs_text, Sends, Sends-next, write_hs_str-eq, req_body, encode_req_data-Sends,
}

-- The header of a request.
abbrev pub req_hdr : DubboReq → DubboHdr
req_hdr q = record { flag = req_flag q; status = 0; body_sz = length (req_body q); reqid = q.reqid }

length-req_body :
    (q : DubboReq)
    → length q.service + length q.argv_method + length q.argv_args ≤ 8000
    → (0 < length (req_body q)) × (length (req_body q) ≤ 8192)
unfolding encode_null
length-req_body q small = simp length-append (
    omega (
      arith,
      length-hs_text dubbo_ver,
      length-hs_text q.service,
      length-hs_text generic_method_ver,
      length-hs_text generic_method_name,
      length-hs_text generic_method_para_types,
      length-hs_text q.argv_method,
      length-hs_text q.argv_args,
    ))

-- what `encode_req` does behind the body
abbrev add_header : DubboReq → Buffer → Option (Option Buffer)
add_header q b =
    encode_req_hdr b
      (record { flag = req_flag q; status = 0; body_sz = readable b % 2 ^ 32; reqid = q.reqid })

encode_req-eq :
    (b : Buffer) (q : DubboReq)
    → q.is_evt ≡ false
    → encode_req b q ≡ (encode_req_data b q >?> add_header q)
unfolding encode_req
encode_req-eq b q ev =
    ap
      (λ t.
        (if t then (append b q.payload >>= λ b'. some (some b')) else encode_req_data b q)
        >?> add_header q)
      ev

add_header-packet :
    {b : Buffer} (q : DubboReq)
    → length q.service + length q.argv_method + length q.argv_args ≤ 8000
    → Roomy b 0 16 (req_body q)
    → Sends (add_header q b) (λ b'. Roomy b' 0 0 (packet (req_hdr q) (req_body q)))
add_header-packet {b} q small r = rw size (
    let h = encode_req_hdr-packet {b = b} (req_hdr q) (req_body q) r in
    (h.holds.0, h.is_value ∙ ap some h.holds.1, h.holds.2))
  where
    size : readable b % 2 ^ 32 ≡ length (req_body q)
    size = omega (
      arith,
      readable_of_Holds (req_body q) (record { valid = r.valid; bytes = r.bytes }),
      length-req_body q small,
    )

encode_req-packet :
    {b : Buffer} (q : DubboReq)
    → q.is_evt ≡ false
    → length q.service + length q.argv_method + length q.argv_args ≤ 8000
    → Roomy b 8192 16 []
    → Sends (encode_req b q) (λ b'. Roomy b' 0 0 (packet (req_hdr q) (req_body q)))
encode_req-packet {b} q ev small r =
    let (b', e, h) =
      Sends-next (encode_req_data b q) (add_header q) (encode_req_data-Sends q small r)
        (λ b1 r1. add_header-packet q small r1) in
    (b', encode_req-eq b q ev ∙ e, h)

flag-lt : (q : DubboReq) → req_flag q < 256
unfolding req_flag
flag-lt q = ground arith

-- The buffer of a request that is no event and whose texts together are at most 8000 bytes.
pub dubbo_encode-Roomy :
    (q : DubboReq)
    → q.is_evt ≡ false
    → length q.service + length q.argv_method + length q.argv_args ≤ 8000
    → Sends (dubbo_encode q) (λ b. Roomy b 0 0 (packet (req_hdr q) (req_body q)))
unfolding dubbo_encode
dubbo_encode-Roomy q ev small =
    let (b0, e0, t, h, ahead, behind) =
      create_ex-Takes buf_len hdr_len 0 (omega arith) (omega arith) (omega arith) in
    let (b, e, p) = encode_req-packet {b = b0} q ev small (roomy b0 h t.free ahead behind) in
    (b, ap (λ m. m >>= λ made. made >>= λ b1. encode_req b1 q) e0 ∙ e, p)
  where
    roomy :
        (b : Buffer)
        → Holds b []
        → write_locked b ≡ false
        → prependable b ≡ hdr_len
        → writable b ≡ buf_len
        → Roomy b 8192 16 []
    roomy b h free ahead behind = record {
      valid = h.valid;
      behind_fits = omega (arith, writable_lem h.valid, behind, h.valid.within);
      ahead_fits = unfold prependable in (omega (arith, ahead));
      bytes = h.bytes;
      free = free;
      block =
          let start : b.read_idx ≡ hdr_len = unfold prependable in (ahead) in
          omega (
            arith,
            writable_lem h.valid,
            behind,
            start,
            length-contents h.valid,
            readable_lem h.valid,
            ap length h.bytes,
            h.valid.ordered,
          );
    }

-- the header of a request has fields in range
pub req_hdr-HdrInRange :
    (q : DubboReq)
    → q.reqid < 2 ^ 64
    → length q.service + length q.argv_method + length q.argv_args ≤ 8000
    → HdrInRange (req_hdr q)
req_hdr-HdrInRange q id small = record {
  flag = flag-lt q;
  status = omega arith;
  reqid = id;
  body_sz = omega (arith, length-req_body q small);
}

-- `dubbo_encode` of a request that is no event and whose texts together are at most 8000 bytes
-- returns a buffer that holds exactly one packet, its header with the size of the body; and
-- `is_completed_dubbo_pkt` says of it that nothing is missing.
pub dubbo_encode-packet :
    (q : DubboReq)
    → q.is_evt ≡ false
    → q.reqid < 2 ^ 64
    → length q.service + length q.argv_method + length q.argv_args ≤ 8000
    → (b : Buffer) × (dubbo_encode q ≡ some (some b))
      × Holds b (packet (req_hdr q) (req_body q))
      × (is_completed_dubbo_pkt b ≡ some (some 0))
dubbo_encode-packet q ev id small =
    let (b, e, r) = dubbo_encode-Roomy q ev small in
    let p : Holds b (packet (req_hdr q) (req_body q)) = record {
      valid = r.valid;
      bytes = r.bytes;
    } in
    let (n, c, exact, _) =
      is_completed-remaining {b = b} (req_hdr q) (req_body q) (req_hdr-HdrInRange q id small)
        (length-req_body q small).0 (omega (arith, (length-req_body q small).1))
        (omega (arith, (length-req_body q small).1)) p in
    (b, e, p, c ∙ ap (λ n. some (some n)) (omega (arith, exact (omega arith))))

-- A text for which the room behind is too small is written all the same, and then the assertion
-- fails: `write_hs_str` does not make room.
pub write_hs_str_overrun :
    {b : Buffer} (s : Bytes)
    → length s ≤ 0x8000
    → IsValid b
    → writable b < length (hs_text s)
    → write_hs_str s b ≡ none
unfolding has_written fill writable
write_hs_str_overrun {b} s h v full = write_hs_str-eq s b h ∙ ground arith
