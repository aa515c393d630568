-- ===== src/Nova/Client/Answer.antt =====
-- The answer that nova_client/nova.c reads, once it is in a buffer or on its way there.
use wee.Base.{
  ℕ, ◌+◌, ◌^◌, ◌<◌, ◌≤◌, ◌≡◌, refl, sym, ap, subst, ◌∙◌, Bool, true, not, Option, some, [], ◌∷◌,
  ◌++◌, length, take, take-append-drop, append-inj, drop, length-take_of_le, append_assoc, Returns,
  Returns-bind, Returns-else, length-append, arith,
}
use wee.Base.Memory.{Bytes, slice}
use wee.Base.Word.{sle32}
use wee.Base.Endian.{be_bytes, of_be, length-be_bytes, of_be-be_bytes}
use wee.Buffer.{Buffer, peek, readable}
use wee.Buffer.Content.{contents, length-contents}
use wee.Buffer.Chain.{Holds, slice-Holds, readable_of_Holds}
use wee.Buffer.Words.{peek_int32, peek_word_lem}
use wee.Nova.{NovaHdr, detect}
use wee.Nova.Layout.{wire, msg_size_of, attach_of, service_of, method_of}
use wee.Nova.RoundTrip.{IsSendable, length-wire, unpack-wire, detect-wire}
use wee.Nova.Generic.Answer.{answer_wire, thrift_unpack-any_type}
use wee.Base.Printing.{Json}
use wee.Nova.Client.{
  nova_receive, nova_answer, nova_hdr_create, max_msg_size, show, show_attach, show_answer,
}
use wee.Nova.Client.Shown.{Prints, AttachLines, show_attach-AttachLines, show_answer-AnswerLine}
use wee.Nova.Client.Receive.{Brings, Splits, Whole, rest_read-Whole}

-- A generic answer with the string `resp` whose sizes are true and small.
pub record IsAnswer (h : NovaHdr) (type seq : ℕ) (resp : Bytes) : Type 0 where
  pub sendable : IsSendable h (answer_wire type seq resp [])
  pub whole : h.head_size ≡ 37 + h.service_len + h.method_len + h.attach_len
  pub type_byte : type < 256
  pub seq_word : seq < 2 ^ 32
  pub resp_word : length resp < 2 ^ 32
  pub limited : h.head_size + length (answer_wire type seq resp []) ≤ max_msg_size

module _ (h : NovaHdr) (type seq : ℕ) (resp : Bytes) (ok : IsAnswer h type seq resp) where
  -- the message of the answer
  abbrev pub message : Bytes
  message = wire h (answer_wire type seq resp [])

  pub length-message : length message ≡ h.head_size + length (answer_wire type seq resp [])
  length-message = length-wire ok.sendable ∙ omega (arith, ok.whole)

  msg_size-eq : msg_size_of h (answer_wire type seq resp []) ≡ length message
  msg_size-eq = ground (arith, length-message, ok.sendable.head_size, ok.sendable.msg_size)

  pub nova_answer-printed :
      (json : Json) (b : Buffer)
      → Holds b message
      → Returns (nova_answer json (some b)) (Prints json h resp)
  unfolding nova_answer
  nova_answer-printed json b held =
      let known : detect (slice b.buf (peek b) (readable b)) (readable b) ≡ true =
        ap (λ d. detect d (readable b)) (slice-Holds message held)
        ∙ ap (detect message) (readable_of_Holds message held)
        ∙ detect-wire (answer_wire type seq resp []) ok.sendable in
      let u =
        unpack-wire {b = b} nova_hdr_create h (answer_wire type seq resp []) ok.sendable held in
      let t =
        thrift_unpack-any_type {b = u.value.2} type seq resp [] ok.type_byte ok.seq_word
          ok.resp_word u.holds.2 in
      Returns-else _ _ _ (ap not known) (
        Returns-bind _ u.is_value (
          Returns-else _ _ _ (ap not u.holds.0)
            (Returns-bind _ t.is_value (shown u.value.1 t.value u.holds.1 t.holds.0 t.holds.1))))
    where
      shown :
          (hdr : NovaHdr) (r : Bool × Option Bytes × Buffer)
          → hdr ≡ record nova_hdr_create {
            version = h.version;
            ip = h.ip;
            port = h.port;
            service_len = h.service_len;
            service_name = service_of h;
            method_len = h.method_len;
            method_name = method_of h;
            seq_no = h.seq_no;
            attach_len = h.attach_len;
            attach = attach_of h;
            msg_size = h.head_size + length (answer_wire type seq resp []);
            head_size = h.head_size;
          }
          → r.0 ≡ true
          → r.1 ≡ some resp
          → Returns (show json hdr r) (Prints json h resp)
      shown hdr r e good text =
          subst
            (λ (q : Bool × Option Bytes).
              Returns (show json hdr (q.0, q.1, r.2)) (Prints json h resp))
            (λ i. (sym good i, sym text i))
            (record {
              value = record {
                lines = show_attach json hdr ++ ((show_answer json resp).0 ∷ []);
                ret = (show_answer json resp).1;
              };
              is_value = refl;
              holds = record {
                head = show_attach json hdr;
                line = (show_answer json resp).0;
                lines = refl;
                attached =
                    subst
                      (λ (x : NovaHdr).
                        AttachLines json x.attach_len x.attach (show_attach json hdr))
                      e (show_attach-AttachLines json hdr);
                answered = show_answer-AnswerLine json resp;
              };
            })

  -- The size of a message can be read before the rest of it has come.
  pub peek-size :
      (b : Buffer) (rest : Bytes)
      → Holds b (contents b)
      → 4 ≤ readable b
      → contents b ++ rest ≡ message
      → peek_int32 b ≡ some (length message)
  unfolding peek_int32
  peek-size b rest held four e =
      peek_word_lem {b = b} of_be 4 (be_bytes 4 (msg_size_of h (answer_wire type seq resp [])))
        (drop 4 (contents b)) held.valid
        (length-be_bytes 4 (msg_size_of h (answer_wire type seq resp [])))
        (sym (take-append-drop 4 (contents b)) ∙ ap (λ s. s ++ drop 4 (contents b)) begins)
      ∙ ap some (
          of_be-be_bytes 4 (msg_size_of h (answer_wire type seq resp []))
            (omega (arith, msg_size-eq, length-message, ok.limited))
          ∙ msg_size-eq)
    where
      first : length (take 4 (contents b)) ≡ 4
      first = length-take_of_le 4 (contents b) (omega (arith, length-contents held.valid, four))

      begins : take 4 (contents b) ≡ be_bytes 4 (msg_size_of h (answer_wire type seq resp []))
      begins =
          (append-inj (take 4 (contents b)) (drop 4 (contents b) ++ rest)
            (be_bytes 4 (msg_size_of h (answer_wire type seq resp []))) _
            (first ∙ sym (length-be_bytes 4 (msg_size_of h (answer_wire type seq resp []))))
            (sym (append_assoc (take 4 (contents b)) (drop 4 (contents b)) rest)
              ∙ ap (λ s. s ++ rest) (take-append-drop 4 (contents b))
              ∙ e)).0

  module _ {W : Type 0} (readv : ℕ → ℕ → W → Option Bytes × W) (incoming : W → Bytes) (fd : ℕ)
      (brings : (n : ℕ) (w : W) → Brings incoming n w (readv fd n w)) where
    pub received-Whole :
        (fuel : ℕ) (b : Buffer) (w : W)
        → Splits readv incoming fd brings message b w
        → 4 ≤ readable b
        → length message < fuel
        → Returns (nova_receive readv fuel fd (some b, w)) (Whole readv incoming fd brings message)
    unfolding nova_receive
    received-Whole fuel b w s four room =
        Returns-bind _
          (peek-size b (incoming w) (record { valid = s.valid; bytes = refl }) four s.bytes)
          (Returns-else (sle32 (length message) 0) _ _
            (ground (arith, length-message, ok.limited, ok.sendable.not_empty))
            (Returns-else (not (sle32 (length message) max_msg_size)) _ _
              (ground (arith, length-message, ok.limited))
              (rest_read-Whole readv incoming fd brings message fuel b w s
                (omega (arith, room, ap length s.bytes, length-append (contents b) (incoming w))))))
