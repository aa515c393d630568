-- ===== src/Nova/Generic/Wire.antt =====
-- The bytes of a generic call, and that `thrift_generic_pack` writes them; the header of a call.
use wee.Base.{
  ℕ, ◌+◌, ◌-◌, ◌%◌, ◌^◌, ◌≤◌, ◌<◌, ◌≡◌, refl, ap, ◌∙◌, true, Option, none, [], ◌∷◌, take, length,
  ◌++◌, append_assoc, arith, length-append, Returns, Returns-bind, Returns-else, take-length, not,
  length-take-le, ◌>>=◌,
}
use wee.Base.Memory.{Bytes}
use wee.Base.Word.{size_of_int32, max_size, sle32}
use wee.Base.Endian.{be_bytes, le_bytes}
use wee.Buffer.{Buffer, create_ex}
use wee.Buffer.Content.{contents}
use wee.Buffer.Words.{int32, int16, int8}
use wee.Buffer.Chain.{
  Takes, Holds, append_then, append_as_then, append_last, append_as_last, create_ex-Takes,
}
use wee.Nova.RoundTrip.{IsSendable}
use wee.Nova.Generic.{
  create_generic, append_string_field, append_call, thrift_pack, generic_method, generic_method_len,
  type_string, type_struct, field_stop, generic_common_len,
}

-- What a string field sends.
abbrev pub sent : ℕ → Bytes → Bytes
sent len s = take (size_of_int32 len) s

abbrev pub field_wire : ℕ → ℕ → Bytes → Bytes
field_wire id len s = le_bytes 1 type_string ++ (be_bytes 2 id ++ (be_bytes 4 len ++ sent len s))

-- The thrift message of a call of `method` of the service `serv` with arguments in JSON.
abbrev pub call_wire : ℕ → ℕ → Bytes → ℕ → Bytes → ℕ → Bytes → Bytes
call_wire seq serv_len serv method_len method args_len args =
    be_bytes 4 0x80010001
    ++ (be_bytes 4 generic_method_len
        ++ (generic_method
            ++ (be_bytes 4 seq
                ++ (le_bytes 1 type_struct
                    ++ (be_bytes 2 1
                        ++ (field_wire 1 serv_len serv
                            ++ (field_wire 2 method_len method
                                ++ (field_wire 3 args_len args
                                    ++ (le_bytes 1 field_stop ++ le_bytes 1 field_stop)))))))))

string_field_then :
    {A : Type 0} {P : A → Type 0} {b : Buffer} (f : Buffer → Option A) (id len : ℕ) (s old : Bytes)
    (m : ℕ)
    → Takes b m
    → 7 + length (sent len s) ≤ m
    → contents b ≡ old
    → ((b' : Buffer)
        → Takes b' (m - 1 - 2 - 4 - length (sent len s))
        → contents b' ≡ old ++ field_wire id len s
        → Returns (f b') P)
    → Returns (append_string_field b id len s >>= f) P
string_field_then {b = b} f id len s old m t le h rest =
    let r = field in Returns-bind f r.is_value (rest r.value r.holds.0 r.holds.1)
  where
    field : Returns (append_string_field b id len s) (λ b'.
        Takes b' (m - 1 - 2 - 4 - length (sent len s)) × (contents b' ≡ old ++ field_wire id len s))
    field =
        unfold append_string_field in
        (append_as_then _ int8 type_string _ _ t (omega arith) h λ b1 t1 c1.
          append_as_then _ int16 id _ _ t1 (omega arith) c1 λ b2 t2 c2.
            append_as_then _ int32 len _ _ t2 (omega arith) c2 λ b3 t3 c3.
              let (b', e, t4, c4) = append_last (sent len s) _ _ t3 (omega arith) c3 in
              record { value = b'; is_value = e; holds = (t4, c4 ∙ simp append_assoc) })

-- the room that the call takes, and that it is little
abbrev call_room : ℕ → Bytes → ℕ → Bytes → ℕ → Bytes → ℕ
call_room sl s ml m al a = 44 + length (sent sl s) + length (sent ml m) + length (sent al a)

call_room-lt :
    (sl : ℕ) (s : Bytes) (ml : ℕ) (m : Bytes) (al : ℕ) (a : Bytes)
    → generic_common_len + sl + ml + al < 2 ^ 31
    → generic_common_len + sl + ml + al + 8 + call_room sl s ml m al a < max_size
call_room-lt sl s ml m al a h = ground (
  arith,
  length-take-le (size_of_int32 sl) s,
  length-take-le (size_of_int32 ml) m,
  length-take-le (size_of_int32 al) a,
)

append_call-Returns :
    {b : Buffer} (seq sl : ℕ) (s : Bytes) (ml : ℕ) (m : Bytes) (al : ℕ) (a : Bytes)
    → Takes b (call_room sl s ml m al a)
    → contents b ≡ []
    → Returns (append_call b seq sl s ml m al a) (λ b'. Holds b' (call_wire seq sl s ml m al a))
unfolding append_call
append_call-Returns seq sl s ml m al a t c =
    append_as_then _ int32 0x80010001 _ _ t (omega arith) c λ b1 t1 c1.
      append_as_then _ int32 generic_method_len _ _ t1 (omega arith) c1 λ b2 t2 c2.
        append_then _ generic_method _ _ t2 (omega arith) c2 λ b3 t3 c3.
          append_as_then _ int32 seq _ _ t3 (omega arith) c3 λ b4 t4 c4.
            append_as_then _ int8 type_struct _ _ t4 (omega arith) c4 λ b5 t5 c5.
              append_as_then _ int16 1 _ _ t5 (omega arith) c5 λ b6 t6 c6.
                string_field_then _ 1 sl s _ _ t6 (omega arith) c6 λ b7 t7 c7.
                  string_field_then _ 2 ml m _ _ t7 (omega arith) c7 λ b8 t8 c8.
                    string_field_then _ 3 al a _ _ t8 (omega arith) c8 λ b9 t9 c9.
                      append_as_then _ int8 field_stop _ _ t9 (omega arith) c9 λ b10 t10 c10.
                        let (b', e, t11, c11) =
                          append_as_last int8 field_stop _ _ t10 (omega arith) c10 in
                        record {
                          value = b';
                          is_value = e;
                          holds = record { valid = t11.valid; bytes = c11 ∙ simp append_assoc };
                        }

-- `thrift_generic_pack` of strings whose lengths are not negative and add up to an int32_t returns
-- a buffer that holds exactly the message of the call.
pub thrift_pack-Returns :
    (seq sl : ℕ) (s : Bytes) (ml : ℕ) (m : Bytes) (al : ℕ) (a : Bytes)
    → generic_common_len + sl + ml + al < 2 ^ 31
    → Returns (thrift_pack seq sl s ml m al a) (λ b. Holds b (call_wire seq sl s ml m al a))
unfolding thrift_pack
thrift_pack-Returns seq sl s ml m al a small =
    let (b, e, t, h, _, _) =
      create_ex-Takes (generic_common_len + sl + ml + al) 8 (call_room sl s ml m al a) (omega arith)
        (omega arith) (call_room-lt sl s ml m al a small) in
    Returns-bind _ (ap (λ n. create_ex n 8 true true) size ∙ e)
      (append_call-Returns seq sl s ml m al a t h.bytes)
  where
    size :
        size_of_int32 ((generic_common_len + sl + ml + al) % 2 ^ 32)
        ≡ generic_common_len + sl + ml + al
    size = ground arith

attach_memory :
    (attach : Bytes)
    → length attach ≤ 0x7fff - 99
    → length attach % 2 ^ 32
      ≤ length (take (size_of_int32 (length attach % 2 ^ 32)) attach ++ (0 ∷ []))
attach_memory attach h = rw length-append (rw whole (omega arith))
  where
    whole : take (size_of_int32 (length attach % 2 ^ 32)) attach ≡ attach
    whole = ap (λ n. take n attach) (ground arith) ∙ take-length attach

-- `create_nova_generic` makes, of an attachment that leaves the header below 32 KB, a header whose
-- packet `nova_unpack` accepts with any body short enough for the message size.
pub create_generic-IsSendable :
    (attach body : Bytes)
    → length attach ≤ 0x7fff - 99
    → length body < 2 ^ 31 - 2 ^ 15
    → Returns (create_generic attach) (λ h. IsSendable h body)
unfolding create_generic
create_generic-IsSendable attach body small room =
    Returns-else (not (sle32 (head_sz attach) 0x7fff)) _ _ (ground arith) (record {
      value = _;
      is_value = refl;
      holds = record {
        magic = refl;
        head_size = omega arith;
        version = omega arith;
        ip = omega arith;
        port = omega arith;
        seq_no = omega arith;
        service_len = omega arith;
        service_name = omega arith;
        method_len = omega arith;
        method_name = omega arith;
        attach_len = omega arith;
        attach = attach_memory attach small;
        msg_size = omega arith;
        not_empty = omega arith;
        some_text = omega arith;
      };
    })
  where
    head_sz : Bytes → ℕ
    head_sz a = (99 + length a % 2 ^ 32) % 2 ^ 32

-- An attachment that takes the header over 32 KB is refused.
pub create_generic-none :
    (attach : Bytes)
    → 0x7fff - 99 < length attach
    → length attach < 2 ^ 31 - 99
    → create_generic attach ≡ none
unfolding create_generic
create_generic-none attach lo hi = ground arith
