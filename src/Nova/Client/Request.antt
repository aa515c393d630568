-- ===== src/Nova/Client/Request.antt =====
-- The request that nova_client/nova.c sends.
use wee.Base.{
  ℕ, ◌+◌, ◌-◌, ◌%◌, ◌^◌, ◌<◌, ◌≤◌, ◌≡◌, ap, ◌∙◌, some, ◌++◌, length, length-append, length-take-le,
  Returns, Returns-bind, arith,
}
use wee.Base.Memory.{Bytes}
use wee.Base.Word.{size_of_int32}
use wee.Base.Endian.{length-be_bytes, length-le_bytes}
use wee.Buffer.{Buffer}
use wee.Buffer.Chain.{Takes, Holds, create_ex-Takes, slice-Holds}
use wee.Nova.{NovaHdr, pack}
use wee.Nova.Layout.{wire, wire_room, pack-Returns}
use wee.Nova.RoundTrip.{IsSendable, length-wire}
use wee.Nova.Generic.{create_generic}
use wee.Nova.Generic.Wire.{call_wire, sent, thrift_pack-Returns, create_generic-IsSendable}
use wee.Nova.Client.{Args, nova_request}

-- the thrift message of a call
abbrev pub call : Args → Bytes
call args =
    call_wire 0 (length args.service % 2 ^ 32) args.service (length args.method % 2 ^ 32)
      args.method (length args.call_args % 2 ^ 32) args.call_args

-- Strings with which a call can be made.
pub record IsCallable (args : Args) : Type 0 where
  pub attach : length args.attach ≤ 0x7fff - 99
  pub strings :
      44 + length args.service + length args.method + length args.call_args < 2 ^ 31 - 2 ^ 15

length-call_wire :
    (sl : ℕ) (s : Bytes) (ml : ℕ) (m : Bytes) (al : ℕ) (a : Bytes)
    → length (call_wire 0 sl s ml m al a)
      ≡ 44 + length (sent sl s) + length (sent ml m) + length (sent al a)
length-call_wire sl s ml m al a =
    simp (length-append, length-be_bytes, length-le_bytes) (omega arith)

length-sent-le : (n : ℕ) (s : Bytes) → n < 2 ^ 31 → length (sent n s) ≤ n
length-sent-le n s h = ground (arith, length-take-le (size_of_int32 n) s)

length-call : (args : Args) → IsCallable args → length (call args) < 2 ^ 31 - 2 ^ 15
length-call args c =
    rw
      (length-call_wire (length args.service % 2 ^ 32) args.service (length args.method % 2 ^ 32)
        args.method (length args.call_args % 2 ^ 32) args.call_args)
      (omega (
        arith,
        c.strings,
        length-sent-le (length args.service % 2 ^ 32) args.service (omega (arith, c.strings)),
        length-sent-le (length args.method % 2 ^ 32) args.method (omega (arith, c.strings)),
        length-sent-le (length args.call_args % 2 ^ 32) args.call_args (omega (arith, c.strings)),
      ))

-- The packet of a call in a buffer that takes k more bytes.
pub record Request (args : Args) (k : ℕ) (b : Buffer) : Type 0 where
  pub hdr : NovaHdr
  pub made : create_generic args.attach ≡ some hdr
  pub holds : Holds b (wire hdr (call args))
  pub takes : Takes b k
  pub short : length (wire hdr (call args)) < 2 ^ 34

wire_room-lt :
    (h : NovaHdr) (body : Bytes)
    → IsSendable h body
    → length body < 2 ^ 31
    → wire_room h body < 2 ^ 34
wire_room-lt h body s l = omega (
  arith,
  length-sent-le h.service_len h.service_name s.service_len,
  length-sent-le h.method_len h.method_name s.method_len,
  length-sent-le h.attach_len h.attach s.attach_len,
  s.service_len,
  s.method_len,
  s.attach_len,
  l,
)

pub nova_request-Request :
    (args : Args) (k : ℕ)
    → IsCallable args
    → k < 2 ^ 62
    → Returns (nova_request args) (Request args k)
unfolding nova_request
nova_request-Request args k c small =
    let h = create_generic-IsSendable args.attach (call args) c.attach (length-call args c) in
    let (b, e, t, held, _, _) =
      create_ex-Takes 1024 8 (wire_room h.value (call args) + k) (omega arith) (omega arith) (
        omega (
          arith,
          small,
          wire_room-lt h.value (call args) h.holds (omega (arith, length-call args c)),
        )) in
    let body =
      thrift_pack-Returns 0 (length args.service % 2 ^ 32) args.service
        (length args.method % 2 ^ 32) args.method (length args.call_args % 2 ^ 32) args.call_args
        (omega (arith, c.strings)) in
    let p = pack-Returns {b = b} h.value (call args) k t in
    Returns-bind _ h.is_value (
      Returns-bind _ e (
        Returns-bind _ body.is_value (record {
          value = p.value;
          is_value = ap (pack b h.value) (slice-Holds (call args) body.holds) ∙ p.is_value;
          holds = record {
            hdr = h.value;
            made = h.is_value;
            holds = record {
              valid = p.holds.0.valid;
              bytes = p.holds.0.bytes ∙ ap (λ xs. xs ++ wire h.value (call args)) held.bytes;
            };
            takes = p.holds.1;
            short = omega (
              arith,
              length-wire h.holds,
              h.holds.service_len,
              h.holds.method_len,
              h.holds.attach_len,
              length-call args c,
            );
          };
        })))
