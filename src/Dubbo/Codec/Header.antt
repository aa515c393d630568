-- ===== src/Dubbo/Codec/Header.antt =====
-- The header of a dubbo packet: written by `encode_req_hdr`, read by `decode_res_hdr`.
use Prim.Native.Nat.{bit_and}
use wee.Base.{
  ℕ, ◌+◌, ◌^◌, ◌≤◌, ◌<◌, ◌≡◌, refl, ap, ◌∙◌, true, ◌&&◌, none, some, ◌++◌, length, ltb, leb, ◌==◌,
  arith, Returns, Returns-bind, Returns-else, length-append, le→leb, le→ltb_false,
}
use wee.Base.Memory.{Bytes}
use wee.Base.Word.{sle32}
use wee.Base.Endian.{be_bytes, le_bytes, of_be, length-be_bytes, length-le_bytes, of_be-be_bytes}
use wee.Buffer.{Buffer, prependable}
use wee.Buffer.Words.{int64, int32, int16, int8, peek_int16, peek_word_lem}
use wee.Buffer.Chain.{Holds, read_as_then, readable_of_Holds}
use wee.Buffer.Room.{Roomy, prepend_as_then}
use wee.Dubbo.Codec.{
  DubboHdr, encode_req_hdr, is_dubbo_pkt, decode_res_hdr, dubbo_magic, hdr_len, max_pkt_sz,
  seri_mask, hessian2_seri_id, flag_req,
}

-- A packet on the wire: the magic number, flag, status, request id, body size, and what follows.
abbrev pub packet : DubboHdr → Bytes → Bytes
packet h rest =
    be_bytes 2 dubbo_magic
    ++ (le_bytes 1 h.flag
        ++ (le_bytes 1 h.status ++ (be_bytes 8 h.reqid ++ (be_bytes 4 h.body_sz ++ rest))))

-- Fields in the range of their C types.
pub record HdrInRange (h : DubboHdr) : Type 0 where
  pub flag : h.flag < 256
  pub status : h.status < 256
  pub reqid : h.reqid < 2 ^ 64
  pub body_sz : h.body_sz < 2 ^ 32

pub length-packet : (h : DubboHdr) (rest : Bytes) → length (packet h rest) ≡ 16 + length rest
length-packet h rest = simp (length-append, length-be_bytes, length-le_bytes) (omega arith)

-- `encode_req_hdr` on a valid buffer with 16 bytes of room in front succeeds, and the buffer then
-- holds the packet whose body it held before.
pub encode_req_hdr-packet :
    {b : Buffer} (h : DubboHdr) (body : Bytes)
    → Roomy b 0 16 body
    → Returns
        (encode_req_hdr b h)
        (λ r. (b' : Buffer) × (r ≡ some b') × Roomy b' 0 0 (packet h body))
unfolding encode_req_hdr prependable
encode_req_hdr-packet {b} h body r =
    Returns-else (ltb b.read_idx hdr_len) _ _ (le→ltb_false _ _ r.ahead_fits) (
      prepend_as_then _ int32 h.body_sz _ _ r (omega arith) λ b1 r1.
        prepend_as_then _ int64 h.reqid _ _ r1 (omega arith) λ b2 r2.
          prepend_as_then _ int8 h.status _ _ r2 (omega arith) λ b3 r3.
            prepend_as_then _ int8 h.flag _ _ r3 (omega arith) λ b4 r4.
              prepend_as_then _ int16 dubbo_magic _ _ r4 (omega arith)
                λ b5 r5. record { value = some b5; is_value = refl; holds = (b5, refl, r5) })

-- With less room in front it returns false.
pub encode_req_hdr_no_room :
    (b : Buffer) (h : DubboHdr) → prependable b < 16 → encode_req_hdr b h ≡ some none
unfolding encode_req_hdr
encode_req_hdr_no_room b h lt = ground arith

-- `is_dubbo_pkt` answers whether 16 bytes are held and begin with the magic number.
pub is_dubbo_pkt-eq :
    {b : Buffer} (magic : ℕ) (rest : Bytes)
    → magic < 2 ^ 16
    → Holds b (be_bytes 2 magic ++ rest)
    → is_dubbo_pkt b ≡ some (leb 14 (length rest) && magic == dubbo_magic)
unfolding is_dubbo_pkt peek_int16
is_dubbo_pkt-eq {b} magic rest h s = ground (
  arith,
  readable_of_Holds (be_bytes 2 magic ++ rest) s,
  length-append (be_bytes 2 magic) rest,
  length-be_bytes 2 magic,
  of_be-be_bytes 2 magic h,
  peek_word_lem of_be 2 (be_bytes 2 magic) rest s.valid (length-be_bytes 2 magic) s.bytes,
)

pub is_dubbo_pkt-packet :
    {b : Buffer} (h : DubboHdr) (rest : Bytes)
    → Holds b (packet h rest)
    → is_dubbo_pkt b ≡ some true
is_dubbo_pkt-packet h rest s =
    is_dubbo_pkt-eq dubbo_magic _ (omega arith) s ∙ ap some (rw (le→leb _ _ long) refl)
  where
    long :
        14
        ≤ length (
            le_bytes 1 h.flag
            ++ (le_bytes 1 h.status ++ (be_bytes 8 h.reqid ++ (be_bytes 4 h.body_sz ++ rest))))
    long = simp (length-append, length-be_bytes, length-le_bytes) (omega arith)

-- `decode_res_hdr` on a valid buffer that holds a packet reads the four fields and takes exactly
-- the 16 bytes of the header; it accepts the packet if and only if the body size, as a signed
-- number, is at most 4 MB, the serialization is hessian2 and the request flag is not set.
pub decode_res_hdr-packet :
    {b : Buffer} (h0 h : DubboHdr) (rest : Bytes)
    → HdrInRange h
    → Holds b (packet h rest)
    → Returns (decode_res_hdr b h0) (λ r.
      (r.0 ≡ (
        sle32 h.body_sz max_pkt_sz
        && bit_and h.flag seri_mask == hessian2_seri_id
        && bit_and h.flag flag_req == 0))
      × (r.1 ≡ h)
      × Holds r.2 rest)
unfolding decode_res_hdr
decode_res_hdr-packet h0 h rest k s = Returns-bind _ (is_dubbo_pkt-packet h rest s) (
    read_as_then _ int16 dubbo_magic _ (omega arith) s λ b1 s1.
      read_as_then _ int8 h.flag _ k.flag s1 λ b2 s2.
        read_as_then _ int8 h.status _ k.status s2 λ b3 s3.
          read_as_then _ int64 h.reqid _ k.reqid s3 λ b4 s4.
            read_as_then _ int32 h.body_sz _ k.body_sz s4
              λ b5 s5. record { value = _; is_value = refl; holds = (refl, refl, s5) })

-- A negative body size is not refused: `decode_res_hdr` accepts every hessian2 response whose body
-- size has its sign bit set.
pub decode_res_hdr_negative :
    {b : Buffer} (h0 h : DubboHdr) (rest : Bytes)
    → HdrInRange h
    → 2 ^ 31 ≤ h.body_sz
    → bit_and h.flag seri_mask ≡ hessian2_seri_id
    → bit_and h.flag flag_req ≡ 0
    → Holds b (packet h rest)
    → Returns (decode_res_hdr b h0) (λ r. (r.0 ≡ true) × (r.1 ≡ h))
decode_res_hdr_negative h0 h rest k neg seri resp s =
    let r = decode_res_hdr-packet h0 h rest k s in
    record { value = r.value; is_value = r.is_value; holds = (r.holds.0 ∙ accepted, r.holds.1) }
  where
    accepted :
        (sle32 h.body_sz max_pkt_sz
          && bit_and h.flag seri_mask == hessian2_seri_id
          && bit_and h.flag flag_req == 0)
        ≡ true
    accepted = rw (seri, resp) (ground (arith, neg, k.body_sz))
