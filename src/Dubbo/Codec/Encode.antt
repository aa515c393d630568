-- ===== src/Dubbo/Codec/Encode.antt =====
-- The body of a request: how `encode_req_data` writes its texts (dubbo_client/dubbo_codec.c).
use wee.Base.{
  ℕ, ◌+◌, ◌-◌, ◌≤◌, ◌≡◌, refl, ap, ◌∙◌, Option, none, some, [], ◌++◌, length, ◌>>=◌, arith,
  append_assoc,
}
use wee.Base.Memory.{Bytes}
use wee.Buffer.{Buffer, has_written, fill}
use wee.Buffer.Room.{Roomy, fill-Roomy}
use wee.Dubbo.Hessian.{encode_string, encode_null}
use wee.Dubbo.Codec.{
  DubboReq, write_hs_str, write_null, encode_req_data, ◌>?>◌, dubbo_ver, generic_method_ver,
  generic_method_name, generic_method_para_types,
}

-- What `hs_encode_string` writes for a text that it does not refuse.
abbrev pub hs_text : Bytes → Bytes
hs_text s = elim (encode_string s) [ none ↦ [] | some e ↦ e ]

pub hs_text-eq : (s : Bytes) → length s ≤ 0x8000 → encode_string s ≡ some (hs_text s)
unfolding encode_string
hs_text-eq s h = ground arith

pub length-hs_text : (s : Bytes) → length (hs_text s) ≤ length s + 3
unfolding encode_string
length-hs_text s = ground arith

-- A result that is no false, with its property.
abbrev pub Sends : Option (Option Buffer) → (Buffer → Type 0) → Type 0
Sends m P = (b : Buffer) × (m ≡ some (some b)) × P b

pub Sends-next :
    {P Q : Buffer → Type 0} (m : Option (Option Buffer)) (f : Buffer → Option (Option Buffer))
    → Sends m P
    → ((b : Buffer) → P b → Sends (f b) Q)
    → Sends (m >?> f) Q
Sends-next m f (b, e, p) rest = let (c, g, q) = rest b p in (c, rw e g, q)

pub write_hs_str-eq :
    (s : Bytes) (b : Buffer)
    → length s ≤ 0x8000
    → write_hs_str s b
      ≡ (has_written (fill b (hs_text s)) (length (hs_text s)) >>= λ b'. some (some b'))
unfolding write_hs_str
write_hs_str-eq s b h =
    ap
      (λ (o : Option Bytes).
        let r : Option (Option Buffer) = elim o [
          | none ↦ some none
          | some e ↦ has_written (fill b e) (length e) >>= λ b'. some (some b')
        ] in
        r)
      (hs_text-eq s h)

write_hs_str-Sends :
    {b : Buffer} (s old : Bytes) (behind : ℕ)
    → length s ≤ 0x8000
    → length s + 3 ≤ behind
    → Roomy b behind 16 old
    → Sends (write_hs_str s b) (λ b'. Roomy b' (behind - (length s + 3)) 16 (old ++ hs_text s))
write_hs_str-Sends {b} s old behind h fits r =
    let (b', e, r') =
      fill-Roomy {b = b} (hs_text s) old behind 16 r (omega (arith, length-hs_text s)) in
    (
      b',
      write_hs_str-eq s b h ∙ ap (λ o. o >>= λ x. some (some x)) e,
      record {
        valid = r'.valid;
        behind_fits = omega (arith, r'.behind_fits, length-hs_text s);
        ahead_fits = r'.ahead_fits;
        bytes = r'.bytes;
        free = r'.free;
        block = r'.block;
      },
    )

write_null-Sends :
    {b : Buffer} (old : Bytes) (behind : ℕ)
    → 1 ≤ behind
    → Roomy b behind 16 old
    → Sends (write_null b) (λ b'. Roomy b' (behind - 1) 16 (old ++ encode_null))
unfolding write_null encode_null
write_null-Sends {b} old behind fits r =
    let (b', e, r') = fill-Roomy {b = b} encode_null old behind 16 r fits in (b', rw e refl, r')

-- A chain of writes that has put `old` into the buffer and leaves `behind` bytes of room.
record Filled (m : Option (Option Buffer)) (behind : ℕ) (old : Bytes) : Type 0 where
  sends : Sends m (λ b. Roomy b behind 16 old)

text_next :
    {m : Option (Option Buffer)} {old : Bytes} {behind : ℕ} (s : Bytes)
    → length s ≤ 0x8000
    → length s + 3 ≤ behind
    → Filled m behind old
    → Filled (m >?> write_hs_str s) (behind - (length s + 3)) (old ++ hs_text s)
text_next {m} {old} {behind} s h fits r = record {
  sends = Sends-next m (write_hs_str s) r.sends (λ b p. write_hs_str-Sends s old behind h fits p);
}

null_next :
    {m : Option (Option Buffer)} {old : Bytes} {behind : ℕ}
    → 1 ≤ behind
    → Filled m behind old
    → Filled (m >?> write_null) (behind - 1) (old ++ encode_null)
null_next {m} {old} {behind} fits r = record {
  sends = Sends-next m write_null r.sends (λ b p. write_null-Sends old behind fits p);
}

-- The body of a request: version, service, the generic method with its version and types, then the
-- method called, null for its types, its arguments, and null for the attachment.
abbrev pub req_body : DubboReq → Bytes
req_body q =
    hs_text dubbo_ver
    ++ (hs_text q.service
        ++ (hs_text generic_method_ver
            ++ (hs_text generic_method_name
                ++ (hs_text generic_method_para_types
                    ++ (hs_text q.argv_method
                        ++ (encode_null ++ (hs_text q.argv_args ++ encode_null)))))))

pub encode_req_data-Sends :
    {b : Buffer} (q : DubboReq)
    → length q.service + length q.argv_method + length q.argv_args ≤ 8000
    → Roomy b 8192 16 []
    → Sends (encode_req_data b q) (λ b'. Roomy b' 0 16 (req_body q))
unfolding encode_req_data
encode_req_data-Sends {b} q small r =
    let s8 : Filled (write_hs_str dubbo_ver b) (8192 - 16) (hs_text dubbo_ver) = record {
      sends = write_hs_str-Sends {b = b} dubbo_ver [] 8192 (omega arith) (omega arith) r;
    } in
    let s7 = text_next q.service (omega arith) (omega arith) s8 in
    let s6 = text_next generic_method_ver (omega arith) (omega arith) s7 in
    let s5 = text_next generic_method_name (omega arith) (omega arith) s6 in
    let s4 = text_next generic_method_para_types (omega arith) (omega arith) s5 in
    let s3 = text_next q.argv_method (omega arith) (omega arith) s4 in
    let s2 = null_next (omega arith) s3 in
    let s1 = text_next q.argv_args (omega arith) (omega arith) s2 in
    let (b', e, p) = (null_next (omega arith) s1).sends in
    (
      b',
      e,
      record {
        valid = p.valid;
        behind_fits = omega (arith, p.valid.within);
        ahead_fits = p.ahead_fits;
        bytes = p.bytes ∙ simp append_assoc;
        free = p.free;
        block = p.block;
      },
    )
