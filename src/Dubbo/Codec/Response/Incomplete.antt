-- ===== src/Dubbo/Codec/Response/Incomplete.antt =====
-- `dubbo_decode` of dubbo_client/dubbo_codec.c on a packet of which a part has arrived.
use Prim.Native.Nat.{bit_and}
use wee.Base.{
  ℕ, ◌≤◌, ◌<◌, ◌≡◌, refl, ap, ◌∙◌, Bool, true, not, ◌&&◌, Option, none, some, length, ◌==◌,
  if◌then◌else◌, ◌>>=◌, arith,
}
use wee.Base.Memory.{Bytes, slice}
use wee.Base.Word.{size_of_int32, sle32}
use wee.Buffer.{Buffer, create_ex, readable, peek, append}
use wee.Buffer.Front.{retrieve_too_much}
use wee.Buffer.Chain.{Holds, readable_of_Holds}
use wee.Dubbo.Codec.{
  DubboHdr, DubboRes, is_completed_dubbo_pkt, flag_req, seri_mask, hessian2_seri_id, max_pkt_sz,
}
use wee.Dubbo.Codec.Header.{packet, HdrInRange, decode_res_hdr-packet}
use wee.Dubbo.Codec.Frame.{is_completed-remaining}
use wee.Dubbo.Codec.Response.{decode_body, dubbo_decode, cheap_prepend}

bind_none :
    {A B : Type 0} (m : Option A) (f : A → Option B) → ((a : A) → f a ≡ none) → (m >>= f) ≡ none
bind_none none f h = refl
bind_none (some a) f h = h a

body_missing :
    (fuel n : ℕ) (h : DubboHdr) (b : Buffer) → readable b < n → decode_body fuel n h b ≡ none
unfolding decode_body
body_missing fuel n h b lt = rw (retrieve_too_much b n lt) (
    bind_none (create_ex n cheap_prepend true true) _ (λ made.
      bind_none made _ (λ body. bind_none (append body (slice b.buf (peek b) n)) _ (λ _. refl))))

-- A response in hessian2 of which only a part of the body has arrived: `is_completed_dubbo_pkt` returns
-- true, and the `dubbo_decode` that the client then calls fails an assertion.
pub incomplete_stops :
    {b : Buffer} (fuel : ℕ) (h : DubboHdr) (got : Bytes)
    → HdrInRange h
    → h.body_sz ≤ max_pkt_sz
    → bit_and h.flag seri_mask ≡ hessian2_seri_id
    → bit_and h.flag flag_req ≡ 0
    → length got < h.body_sz
    → Holds b (packet h got)
    → ((r : ℕ) × (is_completed_dubbo_pkt b ≡ some (some r))) × (dubbo_decode fuel b ≡ none)
unfolding dubbo_decode
incomplete_stops {b} fuel h got k small seri resp short held =
    let m = decode_res_hdr-packet no_hdr h got k held in
    let (r, completed, _, _) =
      is_completed-remaining {b = b} h got k (omega arith) small (omega arith) held in
    (
      (r, completed),
      ap (λ o. o >>= behind) m.is_value ∙ stops m.value (m.holds.0 ∙ accepted) m.holds.1 m.holds.2,
    )
  where
    no_hdr : DubboHdr
    no_hdr = record { flag = 0; status = 0; body_sz = 0; reqid = 0 }

    accepted :
        (sle32 h.body_sz max_pkt_sz
          && bit_and h.flag seri_mask == hessian2_seri_id
          && bit_and h.flag flag_req == 0)
        ≡ true
    accepted = rw (seri, resp) (ground (arith, small))

    behind : Bool × DubboHdr × Buffer → Option (Option DubboRes × Buffer)
    behind (good, hdr, b') =
        if not good then some (none, b') else decode_body fuel (size_of_int32 hdr.body_sz) hdr b'

    stops : (v : Bool × DubboHdr × Buffer) → v.0 ≡ true → v.1 ≡ h → Holds v.2 got → behind v ≡ none
    stops (good, h', b') e same s =
        rw (e, same)
          (body_missing fuel (size_of_int32 h.body_sz) h b'
            (ground (arith, small, short, readable_of_Holds got s)))
