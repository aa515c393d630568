-- ===== src/Nova/Layout.antt =====
-- The bytes of a nova packet, and that `nova_pack` writes them.
use wee.Base.{ℕ, ◌+◌, ◌%◌, ◌^◌, ◌≡◌, refl, ◌∙◌, take, length, ◌++◌, append_assoc, arith, Returns}
use wee.Base.Memory.{Bytes}
use wee.Base.Word.{size_of_int32, size_of_int16}
use wee.Base.Endian.{be_bytes, le_bytes}
use wee.Buffer.{Buffer}
use wee.Buffer.Content.{contents}
use wee.Buffer.Words.{int64, int32, int16, int8}
use wee.Buffer.Chain.{Takes, Takes-le, Holds, append_then, append_as_then, append_last}
use wee.Nova.{NovaHdr, pack}

-- The strings of a header, as long as its length fields say.
abbrev pub service_of : NovaHdr → Bytes
service_of h = take (size_of_int32 h.service_len) h.service_name

abbrev pub method_of : NovaHdr → Bytes
method_of h = take (size_of_int32 h.method_len) h.method_name

abbrev pub attach_of : NovaHdr → Bytes
attach_of h = take (size_of_int32 h.attach_len) h.attach

abbrev pub msg_size_of : NovaHdr → Bytes → ℕ
msg_size_of h body = (size_of_int16 h.head_size + length body) % 2 ^ 32

-- What follows the head size on the wire.
abbrev pub fields_wire : NovaHdr → Bytes → Bytes
fields_wire h body =
    le_bytes 1 h.version
    ++ (be_bytes 4 h.ip
        ++ (be_bytes 4 h.port
            ++ (be_bytes 4 h.service_len
                ++ (service_of h
                    ++ (be_bytes 4 h.method_len
                        ++ (method_of h
                            ++ (be_bytes 8 h.seq_no
                                ++ (be_bytes 4 h.attach_len ++ (attach_of h ++ body)))))))))

-- The packet on the wire.
abbrev pub wire : NovaHdr → Bytes → Bytes
wire h body =
    be_bytes 4 (msg_size_of h body)
    ++ (be_bytes 2 h.magic ++ (be_bytes 2 h.head_size ++ fields_wire h body))

-- The same bytes in the order in which `nova_pack` puts them behind `old`.
abbrev packed : Bytes → NovaHdr → Bytes → Bytes
packed old h body =
    ((((((((((((((old ++ be_bytes 4 (msg_size_of h body)) ++ be_bytes 2 h.magic)
                            ++ be_bytes 2 h.head_size)
                          ++ le_bytes 1 h.version)
                        ++ be_bytes 4 h.ip)
                      ++ be_bytes 4 h.port)
                    ++ be_bytes 4 h.service_len)
                  ++ service_of h)
                ++ be_bytes 4 h.method_len)
              ++ method_of h)
            ++ be_bytes 8 h.seq_no)
          ++ be_bytes 4 h.attach_len)
        ++ attach_of h)
      ++ body)

packed-wire : (old : Bytes) (h : NovaHdr) (body : Bytes) → packed old h body ≡ old ++ wire h body
packed-wire old h body = simp append_assoc

-- the length of a packet without its four strings, and with them
abbrev pub wire_room : NovaHdr → Bytes → ℕ
wire_room h body =
    37 + length (service_of h) + length (method_of h) + length (attach_of h) + length body

-- `nova_pack` on a valid unlocked buffer with address space left succeeds, and puts exactly the
-- packet behind the bytes held; it takes as many bytes more as were left.
pub pack-Returns :
    {b : Buffer} (h : NovaHdr) (body : Bytes) (k : ℕ)
    → Takes b (wire_room h body + k)
    → Returns (pack b h body) (λ b'. Holds b' (contents b ++ wire h body) × Takes b' k)
unfolding pack
pack-Returns {b} h body k t =
    append_as_then _ int32 (msg_size_of h body) _ _ t (omega arith) refl λ b1 t1 c1.
      append_as_then _ int16 h.magic _ _ t1 (omega arith) c1 λ b2 t2 c2.
        append_as_then _ int16 h.head_size _ _ t2 (omega arith) c2 λ b3 t3 c3.
          append_as_then _ int8 h.version _ _ t3 (omega arith) c3 λ b4 t4 c4.
            append_as_then _ int32 h.ip _ _ t4 (omega arith) c4 λ b5 t5 c5.
              append_as_then _ int32 h.port _ _ t5 (omega arith) c5 λ b6 t6 c6.
                append_as_then _ int32 h.service_len _ _ t6 (omega arith) c6 λ b7 t7 c7.
                  append_then _ (service_of h) _ _ t7 (omega arith) c7 λ b8 t8 c8.
                    append_as_then _ int32 h.method_len _ _ t8 (omega arith) c8 λ b9 t9 c9.
                      append_then _ (method_of h) _ _ t9 (omega arith) c9 λ b10 t10 c10.
                        append_as_then _ int64 h.seq_no _ _ t10 (omega arith) c10 λ b11 t11 c11.
                          append_as_then _ int32 h.attach_len _ _ t11 (omega arith) c11
                            λ b12 t12 c12.
                              append_then _ (attach_of h) _ _ t12 (omega arith) c12 λ b13 t13 c13.
                                let (b', e, t14, c14) =
                                  append_last body _ _ t13 (omega arith) c13 in
                                record {
                                  value = b';
                                  is_value = e;
                                  holds = (
                                    record {
                                      valid = t14.valid;
                                      bytes = c14 ∙ packed-wire (contents b) h body;
                                    },
                                    Takes-le _ k (omega arith) t14,
                                  );
                                }
