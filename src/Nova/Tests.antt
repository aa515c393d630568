-- ===== src/Nova/Tests.antt =====
-- The theorems about nova packets at a small call.
use wee.Base.{◌≡◌, refl, true, [], ◌∷◌, arith, Returns, ◌>>=◌, replicate}
use wee.Base.Memory.{Bytes, slice}
use wee.Buffer.{write_locked}
use wee.Buffer.Chain.{Holds, Takes}
use wee.Nova.{NovaHdr, pack, unpack}
use wee.Nova.Layout.{wire_room}
use wee.Nova.RoundTrip.{IsSendable, received, unpack-pack}
use wee.Nova.Generic.{thrift_pack}
use wee.Nova.Generic.Wire.{call_wire, thrift_pack-Returns}
use wee.Nova.Generic.Answer.{answer_wire}
use wee.Nova.Client.{nova_hdr_create}
use wee.Samples.{fresh}

abbrev hdr : NovaHdr
hdr = record {
  msg_size = 0;
  magic = 0xdabc;
  head_size = 40;
  version = 1;
  ip = 0x7f000001;
  port = 8050;
  service_len = 2;
  service_name = b's' ∷ b'v' ∷ 0 ∷ [];
  method_len = 1;
  method_name = b'm' ∷ 0 ∷ [];
  seq_no = 9;
  attach_len = 0;
  attach = 0 ∷ [];
}

abbrev body : Bytes
body = 1 ∷ 2 ∷ 3 ∷ []

hdr-IsSendable : IsSendable hdr body
hdr-IsSendable = record {
  magic = refl;
  head_size = omega arith;
  version = omega arith;
  ip = omega arith;
  port = omega arith;
  seq_no = omega arith;
  service_len = omega arith;
  service_name = omega arith;
  method_len = omega arith;
  method_name = omega arith;
  attach_len = omega arith;
  attach = omega arith;
  msg_size = omega arith;
  not_empty = omega arith;
  some_text = omega arith;
}

fresh-Takes : Takes fresh (wire_room hdr body)
unfolding write_locked
fresh-Takes = record {
  valid = omega arith;
  front = omega arith;
  free = refl;
  space = omega arith;
  block = omega arith;
}

unpack-pack_example : Returns (pack fresh hdr body >>= (λ b. unpack b nova_hdr_create)) (λ r.
    (r.0 ≡ true)
    × (r.1 ≡ record (received nova_hdr_create hdr) { msg_size = 43; head_size = 40 })
    × Holds r.2 body)
unfolding slice
unpack-pack_example =
    unpack-pack {b = fresh} nova_hdr_create hdr body hdr-IsSendable fresh-Takes refl

abbrev zeros : Bytes
zeros = replicate 40 0

thrift_pack-Returns_example :
    Returns
      (thrift_pack 7 2 (b's' ∷ b'v' ∷ []) 1 (b'm' ∷ []) 2 (b'{' ∷ b'}' ∷ []))
      (λ b. Holds b (call_wire 7 2 (b's' ∷ b'v' ∷ []) 1 (b'm' ∷ []) 2 (b'{' ∷ b'}' ∷ [])))
thrift_pack-Returns_example =
    thrift_pack-Returns 7 2 (b's' ∷ b'v' ∷ []) 1 (b'm' ∷ []) 2 (b'{' ∷ b'}' ∷ []) (omega arith)

-- an exception (type 3) that carries the text "no"
abbrev failure : Bytes
failure = answer_wire 3 7 (b'n' ∷ b'o' ∷ []) []
