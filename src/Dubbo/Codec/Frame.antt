-- ===== src/Dubbo/Codec/Frame.antt =====
-- `is_completed_dubbo_pkt`: how much of a dubbo packet is at hand.
use wee.Base.{
  ℕ, ◌+◌, ◌-◌, ◌%◌, ◌^◌, ◌≤◌, ◌<◌, ◌≡◌, ◌⊎◌, refl, ap, ◌∙◌, false, not, ◌||◌, none, some, ◌++◌,
  length, if◌then◌else◌, arith, length-append, append_assoc,
}
use wee.Base.Memory.{Bytes, slice}
use wee.Base.Word.{sle32, size_of_int32}
use wee.Base.Endian.{be_bytes, le_bytes, of_be, length-be_bytes, length-le_bytes, of_be-be_bytes}
use wee.Buffer.{Buffer, peek}
use wee.Buffer.Chain.{Holds, readable_of_Holds}
use wee.Buffer.Room.{slice-within}
use wee.Dubbo.Codec.{DubboHdr, is_completed_dubbo_pkt, dubbo_magic, hdr_len, max_pkt_sz}
use wee.Dubbo.Codec.Header.{packet, HdrInRange, length-packet, is_dubbo_pkt-packet}

-- the 12 bytes in front of the body size
abbrev before_size : DubboHdr → Bytes
before_size h =
    be_bytes 2 dubbo_magic ++ (le_bytes 1 h.flag ++ (le_bytes 1 h.status ++ be_bytes 8 h.reqid))

size_field :
    {b : Buffer} (h : DubboHdr) (got : Bytes)
    → HdrInRange h
    → Holds b (packet h got)
    → of_be (slice b.buf (peek b + 12) 4) ≡ h.body_sz
size_field {b} h got k s =
    ap of_be (
      slice-within (before_size h) (be_bytes 4 h.body_sz) got 12 4
        (record { valid = s.valid; bytes = s.bytes ∙ simp append_assoc })
        (simp (length-append, length-be_bytes, length-le_bytes)) (length-be_bytes 4 h.body_sz))
    ∙ of_be-be_bytes 4 h.body_sz k.body_sz

remaining-eq :
    {b : Buffer} (h : DubboHdr) (got : Bytes)
    → HdrInRange h
    → Holds b (packet h got)
    → is_completed_dubbo_pkt b ≡ (
        if sle32 h.body_sz 0 || not (sle32 h.body_sz max_pkt_sz)
        then some none
        else some
            (some ((size_of_int32 h.body_sz + hdr_len + 2 ^ 64 - (16 + length got)) % 2 ^ 32)))
unfolding is_completed_dubbo_pkt
remaining-eq {b} h got k s =
    rw
      (
        is_dubbo_pkt-packet h got s,
        offset,
        size_field h got k s,
        readable_of_Holds _ s,
        length-packet h got,
      )
      refl
  where
    offset : peek b + hdr_len - 4 ≡ peek b + 12
    offset = omega arith

-- For a valid buffer that holds the header of a packet with a body size from 1 to 4 MB and, behind
-- it, the bytes `got`: `is_completed_dubbo_pkt` returns true, and `remaining` is the number of body
-- bytes that are still missing, or minus the number of bytes that are too many. This is the opposite
-- of the comments in dubbo_codec.h and above the function, by which `remaining` is negative for a
-- packet that is not complete and positive for one that overflows.
pub is_completed-remaining :
    {b : Buffer} (h : DubboHdr) (got : Bytes)
    → HdrInRange h
    → 0 < h.body_sz
    → h.body_sz ≤ max_pkt_sz
    → length got < 2 ^ 31
    → Holds b (packet h got)
    → (r : ℕ) × (is_completed_dubbo_pkt b ≡ some (some r))
      × (length got ≤ h.body_sz → r + length got ≡ h.body_sz)
      × (h.body_sz < length got → r + length got ≡ h.body_sz + 2 ^ 32)
is_completed-remaining h got k pos small short s = (
  (h.body_sz + hdr_len + 2 ^ 64 - (16 + length got)) % 2 ^ 32,
  remaining-eq h got k s ∙ ground arith,
  λ le. omega arith,
  λ lt. omega arith,
)

-- A packet of which body bytes are missing never has a negative `remaining`: at int32_t it is not
-- at most 0, so that a loop that waits while it is below 0 does not wait.
pub incomplete_not_negative :
    {b : Buffer} (h : DubboHdr) (got : Bytes)
    → HdrInRange h
    → h.body_sz ≤ max_pkt_sz
    → length got < h.body_sz
    → Holds b (packet h got)
    → (r : ℕ) × (is_completed_dubbo_pkt b ≡ some (some r)) × (sle32 r 0 ≡ false)
incomplete_not_negative h got k small missing s =
    let (r, e, exact, _) = is_completed-remaining h got k (omega arith) small (omega arith) s in
    (r, e, ground (arith, exact (omega arith)))

-- `is_completed_dubbo_pkt` returns false on a packet whose body size is 0, negative or over 4 MB.
pub is_completed-refuses :
    {b : Buffer} (h : DubboHdr) (got : Bytes)
    → HdrInRange h
    → (h.body_sz ≡ 0) ⊎ (max_pkt_sz < h.body_sz)
    → Holds b (packet h got)
    → is_completed_dubbo_pkt b ≡ some none
is_completed-refuses h got k bad s = remaining-eq h got k s ∙ ground (arith, k.body_sz)
