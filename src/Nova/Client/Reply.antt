-- ===== src/Nova/Client/Reply.antt =====
-- A whole call of nova_client/nova.c against a server that answers it.
use wee.Base.{
  ℕ, ◌+◌, ◌-◌, ◌^◌, ◌<◌, ◌≤◌, ◌≡◌, refl, sym, ap, subst, ◌∙◌, true, false, not, inl, inr, ◌⊎◌,
  Option, some, suc, [], ◌++◌, length, ◌==◌, ==_iff, take, take-length, Returns, Returns-bind,
  Returns-else, arith,
}
use wee.Base.Memory.{Bytes, slice, slice-zero}
use wee.Buffer.{Buffer, readable, retrieve_all, write_locked}
use wee.Buffer.Chain.{Takes, Holds, slice-Holds, readable_of_Holds}
use wee.Buffer.ReadFd.{extrabuf_size}
use wee.Nova.{NovaHdr}
use wee.Nova.Layout.{wire}
use wee.Nova.Generic.{create_generic}
use wee.Nova.Client.{
  Args, Outcome, nova_receive, nova_answer, nova_invoke, after_opening, after_sending, max_msg_size,
}
use wee.Nova.Client.Shown.{Prints}
use wee.Base.Printing.{Json}
use wee.Nova.Client.Receive.{Brings, Splits, first_read-Begun}
use wee.Nova.Client.Request.{IsCallable, call, Request, nova_request-Request}
use wee.Nova.Client.Answer.{IsAnswer, message, length-message, nova_answer-printed, received-Whole}
use wee.Net.Socket.{send_all_sync}
use wee.Net.Socket.System.{Sockets}
use wee.Net.Socket.Transfer.{send_all_sync-SendEnds}
use wee.Net.Socket.Open.{Opening, socket_ctor}

-- room for the largest answer and one reading more
abbrev pub receive_room : ℕ
receive_room = max_msg_size + extrabuf_size

module _ {W : Type 0} (sockets : Sockets W) (opening : Opening W)
    (readv : ℕ → ℕ → W → Option Bytes × W) (json : Json) where
  open sockets use {out, received, incoming, broken, interruptions}

  -- A connection `fd` that is made at v and that no call fails on, to a server that answers the request of
  -- these arguments, of which the first reading brings four bytes.
  pub record Answers (args : Args) (answer : Bytes) (fd : ℕ) (v : W) : Type 0 where
    pub sound : (w : W) → broken w fd ≡ false
    pub brings : (n : ℕ) (w : W) → Brings (λ w. incoming w fd) n w (readv fd n w)
    pub replies :
        (hdr : NovaHdr) (w : W)
        → create_generic args.attach ≡ some hdr
        → out w fd ≡ out v fd ++ wire hdr (call args)
        → received w fd ≡ received v fd
        → incoming w fd ≡ answer
    pub prompt : (n : ℕ) (w : W) → 4 ≤ n → incoming w fd ≡ answer → 4 ≤ length (brings n w).bytes

  module _ (h : NovaHdr) (type seq : ℕ) (resp : Bytes) (ok : IsAnswer h type seq resp) (args : Args)
      (fd : ℕ) (v : W) (server : Answers args (message h type seq resp ok) fd v) where
    abbrev PrintsFirst : Outcome × W → Type 0
    PrintsFirst r = Prints json h resp r.0

    emptied :
        (b : Buffer) (w : W)
        → Takes b receive_room
        → incoming w fd ≡ message h type seq resp ok
        → Splits readv
            (λ w. incoming w fd)
            fd
            server.brings
            (message h type seq resp ok)
            (retrieve_all b)
            w
    unfolding retrieve_all write_locked
    emptied b w t e = record {
      valid = record {
        ordered = omega arith;
        within = omega (arith, t.valid.front);
        whole = t.valid.whole;
        small = t.valid.small;
        front = t.valid.front;
      };
      front = omega arith;
      free = t.free;
      bytes = ap (λ s. s ++ incoming w fd) none_held ∙ e;
      small = omega (arith, t.block, ap length e, length-message h type seq resp ok, ok.limited);
    }
      where
        none_held : slice b.buf b.p_sz (b.p_sz - b.p_sz) ≡ []
        none_held = ap (slice b.buf b.p_sz) (omega arith) ∙ slice-zero b.buf b.p_sz

    -- `nova_invoke` once its request is sent
    answered :
        (fuel : ℕ) (b : Buffer) (request : Bytes) (r : ℕ × W)
        → Holds b request
        → Takes b receive_room
        → r.0 ≡ length request
        → incoming r.1 fd ≡ message h type seq resp ok
        → length (message h type seq resp ok) < fuel
        → Returns (after_sending sockets opening readv json (suc fuel) fd b r) PrintsFirst
    answered fuel b request (n, w) held t all e room =
        let s = emptied b w t e in
        let first =
          first_read-Begun readv (λ w. incoming w fd) fd server.brings (message h type seq resp ok)
            fuel (retrieve_all b) w s (λ n four. server.prompt n w four e) in
        let whole =
          received-Whole h type seq resp ok readv (λ w. incoming w fd) fd server.brings (suc fuel)
            first.holds.buffer first.value.1 first.holds.splits first.holds.four
            (omega (arith, room)) in
        let said =
          nova_answer-printed h type seq resp ok json whole.holds.buffer whole.holds.holds in
        Returns-else (not (n == readable b)) _ _ (ap not sent_all) (
          Returns-bind _ first.is_value (
            Returns-bind _
              (ap (λ o. nova_receive readv (suc fuel) fd (o, first.value.1)) first.holds.is_buffer
                ∙ whole.is_value)
              (Returns-bind _ (ap (nova_answer json) whole.holds.is_buffer ∙ said.is_value)
                (record {
                  value = (said.value, opening.close fd whole.value.1);
                  is_value = refl;
                  holds = said.holds;
                }))))
      where
        sent_all : (n == readable b) ≡ true
        sent_all = (==_iff n (readable b)).1 (all ∙ sym (readable_of_Holds request held))

    opened :
        (fuel : ℕ) (b : Buffer) (request : Request args receive_room b)
        → length (wire request.hdr (call args)) + interruptions v < suc fuel
        → length (message h type seq resp ok) < fuel
        → (r : Option ℕ × W) → r ≡ (some fd, v)
        → Returns (after_opening sockets opening readv json (suc fuel) b r) PrintsFirst
    opened fuel b request sending reading r e =
        let bytes = wire request.hdr (call args) in
        let sent = send_all_sync-SendEnds sockets fd (suc fuel) bytes v sending in
        let all = complete sent.value.1 sent.holds.complete in
        subst (λ r. Returns (after_opening sockets opening readv json (suc fuel) b r) PrintsFirst)
          (sym e)
          (Returns-bind (after_sending sockets opening readv json (suc fuel) fd b)
            (ap (λ d. send_all_sync sockets (suc fuel) fd d 0 v) (slice-Holds bytes request.holds)
              ∙ sent.is_value)
            (answered fuel b bytes sent.value request.holds request.takes all
              (server.replies request.hdr sent.value.1 request.made
                (sent.holds.bytes
                  ∙ ap (λ d. out v fd ++ d) (ap (λ n. take n bytes) all ∙ take-length bytes))
                sent.holds.unread)
              reading))
      where
        complete : {n m : ℕ} (w : W) → (n ≡ m) ⊎ (broken w fd ≡ true) → n ≡ m
        complete w (inl same) = same
        complete w (inr fails) = absurd (cc (server.sound w))

  -- A call whose strings are not too long, on a connection that is made and whose calls do not fail, to a
  -- server that gives a generic answer with true sizes of at most 2 MB to exactly the request of the
  -- call. The answer may arrive in any pieces, if the first reading brings four bytes. With fuel above the
  -- request and the interruptions to come, and above the answer, `nova_invoke` returns. It prints the value
  -- of the attachment on one line, unless that is empty, "{}" or not JSON; behind it, the value of
  -- error_response in red, or of response in green where there is no error_response, or the whole answer
  -- where there is neither, and returns 0; a text that is no JSON object is printed as it is, with 1.
  pub nova_invoke-printed :
      (fuel : ℕ) (args : Args) (w v : W) (fd : ℕ) (h : NovaHdr) (type seq : ℕ) (resp : Bytes)
      (ok : IsAnswer h type seq resp)
      → IsCallable args
      → socket_ctor opening (some args.host) args.port false w ≡ (some fd, v)
      → Answers args (message h type seq resp ok) fd v
      → 2 ^ 34 + interruptions v < suc fuel
      → length (message h type seq resp ok) < fuel
      → Returns
          (nova_invoke sockets opening readv json (suc fuel) args w)
          (λ r. Prints json h resp r.0)
  unfolding nova_invoke
  nova_invoke-printed fuel args w v fd h type seq resp ok c e server sending reading =
      let b = nova_request-Request args receive_room c (omega arith) in
      Returns-bind _ b.is_value (
        opened h type seq resp ok args fd v server fuel b.value b.holds
          (omega (arith, sending, b.holds.short)) reading
          (socket_ctor opening (some args.host) args.port false w) e)
