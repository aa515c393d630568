-- ===== src/Nova/RoundTrip.antt =====
-- `nova_unpack` reads back what `nova_pack` wrote, and `nova_detect` knows it.
use wee.Base.{
  ℕ, ◌+◌, ◌^◌, ◌≤◌, ◌<◌, ◌≡◌, refl, ap, sym, ◌∙◌, true, false, [], ◌≢◌, take, length, ◌++◌, arith,
  length-append, ◌==◌, leb, Returns, Returns-then, Returns-else, Returns-bind, not,
  length-take_of_le, lt→leb_false, le→ltb_false, ◌>>=◌,
}
use wee.Base.Memory.{Bytes, slice, slice-middle}
use wee.Base.Word.{size_of_int32, sle32, int32_of_int16}
use wee.Base.Endian.{of_be, be_bytes, length-be_bytes, length-le_bytes, of_be-be_bytes}
use wee.Buffer.{Buffer, readable}
use wee.Buffer.Content.{contents}
use wee.Buffer.Words.{int64, int32, int16, int8}
use wee.Buffer.Chain.{
  Takes, Takes-le, Holds, read_as_then, retrieve_as_string_then, readable_of_Holds,
}
use wee.Nova.{NovaHdr, pack, unpack, unpack_fields, detect, nova_magic, header_common_len}
use wee.Nova.Layout.{
  service_of, method_of, attach_of, msg_size_of, fields_wire, wire, wire_room, pack-Returns,
}

-- Fields in the range of their C types, lengths that are not negative and within the strings, and
-- sizes that `nova_unpack` accepts.
pub record IsSendable (h : NovaHdr) (body : Bytes) : Type 0 where
  pub magic : h.magic ≡ nova_magic
  pub head_size : h.head_size < 2 ^ 15
  pub version : h.version < 256
  pub ip : h.ip < 2 ^ 32
  pub port : h.port < 2 ^ 32
  pub seq_no : h.seq_no < 2 ^ 64
  pub service_len : h.service_len < 2 ^ 31
  pub service_name : h.service_len ≤ length h.service_name
  pub method_len : h.method_len < 2 ^ 31
  pub method_name : h.method_len ≤ length h.method_name
  pub attach_len : h.attach_len < 2 ^ 31
  pub attach : h.attach_len ≤ length h.attach
  pub msg_size : h.head_size + length body < 2 ^ 31
  pub not_empty : 37 < h.head_size + length body
  pub some_text : 0 < h.service_len + h.method_len + h.attach_len + length body

-- The header that `nova_unpack` fills in, over what its caller had put there.
abbrev pub received : NovaHdr → NovaHdr → NovaHdr
received h0 h = record h0 {
  version = h.version;
  ip = h.ip;
  port = h.port;
  service_len = h.service_len;
  service_name = service_of h;
  method_len = h.method_len;
  method_name = method_of h;
  seq_no = h.seq_no;
  attach_len = h.attach_len;
  attach = attach_of h;
}

-- A length field that is not negative and within its string is the length of what is sent.
length-sent :
    (n : ℕ) (s : Bytes)
    → n < 2 ^ 31
    → n ≤ length s
    → size_of_int32 n ≡ length (take (size_of_int32 n) s)
length-sent n s small le = sym (length-take_of_le (size_of_int32 n) s (ground arith))

unpack_fields-Returns :
    {b : Buffer} (h0 h : NovaHdr) (body : Bytes)
    → IsSendable h body
    → Holds b (fields_wire h body)
    → Returns (unpack_fields b h0) (λ r. (r.0 ≡ true) × (r.1 ≡ received h0 h) × Holds r.2 body)
unfolding unpack_fields
unpack_fields-Returns h0 h body s b0 = read_as_then _ int8 h.version _ s.version b0 λ b1 s1.
    read_as_then _ int32 h.ip _ s.ip s1 λ b2 s2. read_as_then _ int32 h.port _ s.port s2 λ b3 s3.
      read_as_then _ int32 h.service_len _ (omega (arith, s.service_len)) s3 λ b4 s4.
        retrieve_as_string_then _ _ (service_of h) _ (length-sent _ _ s.service_len s.service_name)
          s4
          λ b5 s5. read_as_then _ int32 h.method_len _ (omega (arith, s.method_len)) s5 λ b6 s6.
            retrieve_as_string_then _ _ (method_of h) _ (length-sent _ _ s.method_len s.method_name)
              s6
              λ b7 s7. read_as_then _ int64 h.seq_no _ s.seq_no s7 λ b8 s8.
                read_as_then _ int32 h.attach_len _ (omega (arith, s.attach_len)) s8 λ b9 s9.
                  retrieve_as_string_then _ _ (attach_of h) _
                    (length-sent _ _ s.attach_len s.attach) s9
                    λ b10 s10. record { value = _; is_value = refl; holds = (refl, refl, s10) }

pub length-wire :
    {h : NovaHdr} {body : Bytes}
    → IsSendable h body
    → length (wire h body) ≡ 37 + h.service_len + h.method_len + h.attach_len + length body
length-wire {h} {body} s =
    simp (length-append, length-be_bytes, length-le_bytes)
      (omega (
        arith,
        length-sent h.service_len h.service_name s.service_len s.service_name,
        length-sent h.method_len h.method_name s.method_len s.method_name,
        length-sent h.attach_len h.attach s.attach_len s.attach,
        size_small h.service_len s.service_len,
        size_small h.method_len s.method_len,
        size_small h.attach_len s.attach_len,
      ))
  where
    size_small : (n : ℕ) → n < 2 ^ 31 → size_of_int32 n ≡ n
    size_small n p = ground arith

msg_size-eq :
    {h : NovaHdr} {body : Bytes}
    → IsSendable h body
    → msg_size_of h body ≡ h.head_size + length body
msg_size-eq s = ground (arith, s.head_size, s.msg_size)

module _ {h : NovaHdr} {body : Bytes} (s : IsSendable h body) where
  not_short : sle32 (msg_size_of h body) header_common_len ≡ false
  not_short = rw (msg_size-eq s) (ground (arith, s.not_empty, s.msg_size))

  magic_known : not (h.magic == nova_magic) ≡ false
  magic_known = rw s.magic refl

  head_within : not (sle32 (int32_of_int16 h.head_size) (msg_size_of h body)) ≡ false
  head_within = rw (msg_size-eq s) (ground (arith, s.head_size, s.msg_size))

-- From a valid buffer that holds exactly a packet with its fields in range, `nova_unpack` reads
-- every field that the packet carries (the magic number is tested, not stored), and leaves the
-- body.
pub unpack-wire :
    {b : Buffer} (h0 h : NovaHdr) (body : Bytes)
    → IsSendable h body
    → Holds b (wire h body)
    → Returns (unpack b h0) (λ r.
      (r.0 ≡ true)
      × (r.1 ≡ record (received h0 h) {
        msg_size = h.head_size + length body;
        head_size = h.head_size;
      })
      × Holds r.2 body)
unfolding unpack
unpack-wire {b} h0 h body s b0 = Returns-else _ _ _ long (
    read_as_then _ int32 (msg_size_of h body) _ (omega arith) b0 λ b1 s1.
      Returns-else _ _ _ (not_short s) (
        read_as_then _ int16 h.magic _ (rw s.magic (omega arith)) s1 λ b2 s2.
          Returns-else _ _ _ (magic_known s) (
            read_as_then _ int16 h.head_size _ (omega (arith, s.head_size)) s2 λ b3 s3.
              Returns-else _ _ _ (head_within s)
                (rw (← msg_size-eq s) (unpack_fields-Returns _ h body s s3)))))
  where
    long : leb (readable b) header_common_len ≡ false
    long =
        lt→leb_false _ _ (rw (readable_of_Holds _ b0, length-wire s) (omega (arith, s.some_text)))

-- A packet packed into a valid, empty, unlocked buffer with address space left is unpacked from it
-- to the same fields, and the body is what the buffer then holds.
pub unpack-pack :
    {b : Buffer} (h0 h : NovaHdr) (body : Bytes)
    → IsSendable h body
    → Takes b (wire_room h body)
    → contents b ≡ []
    → Returns (pack b h body >>= (λ b'. unpack b' h0)) (λ r.
      (r.0 ≡ true)
      × (r.1 ≡ record (received h0 h) {
        msg_size = h.head_size + length body;
        head_size = h.head_size;
      })
      × Holds r.2 body)
unpack-pack {b} h0 h body s t empty =
    let p =
      pack-Returns {b = b} h body 0
        (Takes-le (wire_room h body) (wire_room h body + 0) (omega arith) t) in
    Returns-bind _ p.is_value (
      unpack-wire h0 h body s (record {
        valid = p.holds.0.valid;
        bytes = p.holds.0.bytes ∙ ap (λ xs. xs ++ wire h body) empty;
      }))

-- `nova_detect` knows every packet with its fields in range.
pub detect-wire :
    {h : NovaHdr} (body : Bytes)
    → IsSendable h body
    → detect (wire h body) (length (wire h body)) ≡ true
unfolding detect
detect-wire {h} body s = rw (le→ltb_false _ _ long, magic_field, s.magic) refl
  where
    long : 37 ≤ length (wire h body)
    long = rw (length-wire s) (omega arith)

    magic_field : of_be (slice (wire h body) 4 2) ≡ h.magic
    magic_field =
        ap of_be (
          slice-middle (be_bytes 4 (msg_size_of h body)) (be_bytes 2 h.magic) _ 4 2
            (length-be_bytes 4 _) (length-be_bytes 2 _))
        ∙ of_be-be_bytes 2 h.magic (rw s.magic (omega arith))

-- `nova_unpack` refuses a valid buffer of more than 37 bytes whose message size is in range but
-- whose next two bytes are not the magic number of nova; it has then taken those six bytes.
pub unpack_foreign :
    {b : Buffer} (h0 : NovaHdr) (m g : ℕ) (tail : Bytes)
    → m < 2 ^ 31
    → 37 < m
    → g < 2 ^ 16
    → g ≢ nova_magic
    → 31 < length tail
    → Holds b (be_bytes 4 m ++ (be_bytes 2 g ++ tail))
    → Returns
        (unpack b h0)
        (λ r. (r.0 ≡ false) × (r.1 ≡ record h0 { msg_size = m }) × Holds r.2 tail)
unfolding unpack
unpack_foreign {b} h0 m g tail hm lo hg ne long b0 = Returns-else _ _ _ enough (
    read_as_then _ int32 m _ (omega arith) b0 λ b1 s1.
      Returns-else (sle32 m header_common_len) _ _ (ground arith) (
        read_as_then _ int16 g _ hg s1 λ b2 s2.
          Returns-then (not (g == nova_magic)) _ _ (ground arith)
            (record { value = _; is_value = refl; holds = (refl, refl, s2) })))
  where
    enough : leb (readable b) header_common_len ≡ false
    enough =
        lt→leb_false _ _
          (rw (readable_of_Holds _ b0) (simp (length-append, length-be_bytes) (omega arith)))
