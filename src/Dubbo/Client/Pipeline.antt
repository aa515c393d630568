-- ===== src/Dubbo/Client/Pipeline.antt =====
-- `cli_pipe_send` of dubbo_client/dubbo_client.c fills the pipeline, on a system whose sockets do not break.
use wee.Base.{
  ℕ, ◌+◌, ◌-◌, ◌*◌, ◌≤◌, ◌<◌, ◌≡◌, refl, ap, subst, sym, ◌∙◌, Bool, true, false, Option, some, none,
  zero, suc, [], ◌++◌, length, append_assoc, append-nil, ◌==◌, ==_iff, Returns, Returns-bind,
  Returns-then, Returns-else, ◌>>=◌, arith,
}
use wee.Base.Memory.{Bytes}
use wee.Buffer.{readable}
use wee.Buffer.Valid.{readable_lem}
use wee.Buffer.Content.{contents}
use wee.Buffer.Fifo.{append-Appended}
use wee.Buffer.Chain.{Takes, Appended-Takes}
use wee.Dubbo.Client.{
  DubboClient, Left, cli_write, or_reconnect, request_made, cli_send_req, cli_pipe_send,
}
use wee.Dubbo.Client.Counts.{IfSome}
use wee.Dubbo.Client.System.{Os}
use wee.Dubbo.Client.Write.{cli_write-WriteEnds}
use wee.Dubbo.Client.Steady.{IsSteady, Bounded, Carries, cli_write-Carries}

-- the bytes of n requests, one behind the other
pub data Requests (IsRequest : Bytes → Type 0) : ℕ → Bytes → Type 0 where
  nothing : Requests IsRequest 0 []
  further :
      {n : ℕ} {rest : Bytes} (d : Bytes)
      → IsRequest d
      → Requests IsRequest n rest
      → Requests IsRequest (suc n) (d ++ rest)

pub holds_at : {A : Type 0} (P : A → Type 0) (m : Option A) {a : A} → m ≡ some a → IfSome P m → P a
holds_at P none e h = absurd (cc)
holds_at P (some b) e h = subst P (cc) h

module _ (os : Os) (IsRequest : Bytes → Type 0) (m : ℕ) (steady : IsSteady os IsRequest m) where
  open os use {W, sent, make_request}

  -- What one request leaves.
  record Queues (c : DubboClient) (w : W) (d : Bytes) (k l : ℕ) (r : DubboClient × W) : Type 0 where
    pub bounded : Bounded k l r.0.snd_buf
    pub same_fd : r.0.fd ≡ c.fd
    pub same_left : r.0.pipe_left ≡ c.pipe_left
    pub bytes : sent r.1 c.fd ++ contents r.0.snd_buf ≡ (sent w c.fd ++ contents c.snd_buf) ++ d

  module _ (send : DubboClient → W → Left os) where
    or_reconnect_good :
        (r : Bool × DubboClient × W) → r.0 ≡ true → or_reconnect os send r ≡ some (r.1, r.2)
    or_reconnect_good (true, c, w) e = refl
    or_reconnect_good (false, c, w) e = absurd (cc)

    request_made-eq :
        (fuel : ℕ) (c : DubboClient) (r : Option Bytes × W) (d : Bytes)
        → r.0 ≡ some d
        → request_made os send fuel c r ≡ request_made os send fuel c (some d, r.1)
    request_made-eq fuel c (none, w) d e = absurd (cc)
    request_made-eq fuel c (some x, w) d e = ap (λ o. request_made os send fuel c (o, w)) e

    write_then :
        (fuel : ℕ) (c e : DubboClient) (w v : W) (d : Bytes) (k l : ℕ)
        → Bounded k l e.snd_buf
        → e.fd ≡ c.fd
        → e.pipe_left ≡ c.pipe_left
        → sent v c.fd ++ contents e.snd_buf ≡ (sent w c.fd ++ contents c.snd_buf) ++ d
        → readable e.snd_buf < fuel
        → Returns (cli_write os fuel e v >>= or_reconnect os send) (Queues c w d k l)
    write_then fuel c e w v d k l t same left bytes room =
        let r =
          cli_write-WriteEnds os fuel e v t.takes.valid (omega (arith, room, steady.calm v)) in
        let f =
          holds_at (Carries os IsRequest m steady k l e) (cli_write os fuel e v) r.is_value
            (cli_write-Carries os IsRequest m steady k l fuel e v t) in
        Returns-bind (or_reconnect os send) r.is_value (record {
          value = (r.value.1, r.value.2);
          is_value = or_reconnect_good r.value f.0;
          holds = record {
            bounded = f.1;
            same_fd = f.2 ∙ same;
            same_left = f.3 ∙ left;
            bytes =
                subst
                  (λ n.
                    sent r.value.2 n ++ contents r.value.1.snd_buf ≡ sent v n ++ contents e.snd_buf)
                  same r.holds.bytes
                ∙ bytes;
          };
        })

    one_request :
        (fuel : ℕ) (c : DubboClient) (w : W) (k : ℕ)
        → Takes c.snd_buf (m + k)
        → c.snd_buf.write_idx + m < fuel
        → Returns
            (cli_send_req os send fuel c w)
            (Queues c w (steady.request w) k (c.snd_buf.write_idx + m))
    unfolding cli_send_req
    one_request fuel c w k t room =
        let d = steady.request w in
        let v = (make_request w).1 in
        let small = steady.short w in
        let (b, e, a) =
          append-Appended {b = c.snd_buf} d t.valid t.front t.free
            (omega (arith, t.space, small)) in
        let u =
          Appended-Takes {b = c.snd_buf} {b' = b} d (length d) (m + k) t (omega (arith, small)) refl
            a in
        subst (λ o. Returns o (Queues c w d k (c.snd_buf.write_idx + m)))
          (sym (request_made-eq fuel c (make_request w) d (steady.makes w)))
          (Returns-bind
            (λ b. cli_write os fuel (record c { snd_buf = b }) v >>= or_reconnect os send) e
            (write_then fuel c (record c { snd_buf = b }) w v d k (c.snd_buf.write_idx + m)
              (record {
                takes = record {
                  valid = u.valid;
                  front = u.front;
                  free = u.free;
                  space = omega (arith, u.space, small);
                  block = omega (arith, u.block, small);
                };
                ends = omega (arith, a.no_further, small);
              })
              refl refl
              (ap (λ s. s ++ contents b) (steady.make_request-sent c.fd w)
                ∙ ap (λ s. sent w c.fd ++ s) a.bytes
                ∙ sym (append_assoc (sent w c.fd) (contents c.snd_buf) d))
              (omega (arith, readable_lem u.valid, a.no_further, small, room))))

  -- What the requests that fill a pipeline with room for n leave.
  pub record Filled (c : DubboClient) (w : W) (n : ℕ) (r : DubboClient × W) : Type 0 where
    pub none_left : r.0.pipe_left ≡ 0
    pub queued : Bytes
    pub requests : Requests IsRequest n queued
    pub bytes :
        sent r.1 c.fd ++ contents r.0.snd_buf ≡ (sent w c.fd ++ contents c.snd_buf) ++ queued

  Filled-further :
      (c : DubboClient) (w : W) (p n k l : ℕ) (a b : DubboClient × W)
      → Queues (record c { pipe_left = p }) w (steady.request w) k l a
      → Filled a.0 a.1 n b
      → Filled c w (suc n) b
  Filled-further c w p n k l a b one rest = record {
    none_left = rest.none_left;
    queued = steady.request w ++ rest.queued;
    requests = further (steady.request w) (steady.is_request w) rest.requests;
    bytes =
        subst
          (λ fd.
            sent b.1 fd ++ contents b.0.snd_buf
            ≡ (sent a.1 fd ++ contents a.0.snd_buf) ++ rest.queued)
          one.same_fd rest.bytes
        ∙ ap (λ s. s ++ rest.queued) one.bytes
        ∙ append_assoc (sent w c.fd ++ contents c.snd_buf) (steady.request w) rest.queued;
  }

  fill_up :
      (fuel n : ℕ) (c : DubboClient) (w : W) (l : ℕ)
      → c.pipe_left ≡ n
      → Takes c.snd_buf (n * m)
      → c.snd_buf.write_idx + n * m ≤ l
      → l + n < fuel
      → Returns (cli_pipe_send os fuel c w) (Filled c w n)
  unfolding cli_pipe_send
  fill_up zero n c w l e t h room = absurd (omega arith)
  fill_up (suc fuel) zero c w l e t h room =
      Returns-then (c.pipe_left == 0) _ _ ((==_iff c.pipe_left 0).1 e) (record {
        value = (c, w);
        is_value = refl;
        holds = record {
          none_left = e;
          queued = [];
          requests = nothing;
          bytes = sym (append-nil (sent w c.fd ++ contents c.snd_buf));
        };
      })
  fill_up (suc fuel) (suc n) c w l e t h room =
      let c' : DubboClient = record c { pipe_left = c.pipe_left - 1 } in
      let one =
        one_request (cli_pipe_send os fuel) fuel c' w (n * m)
          (record {
            valid = t.valid;
            front = t.front;
            free = t.free;
            space = grind (arith, t.space);
            block = grind (arith, t.block);
          })
          (grind (arith, h, room)) in
      let rest =
        fill_up fuel n one.value.0 one.value.1 l (omega (arith, one.holds.same_left, e))
          one.holds.bounded.takes (grind (arith, one.holds.bounded.ends, h))
          (omega (arith, room)) in
      Returns-else (c.pipe_left == 0) _ _ (ground (arith, e)) (
        Returns-bind (λ r. cli_pipe_send os fuel r.0 r.1) one.is_value
          (record {
            value = rest.value;
            is_value = rest.is_value;
            holds =
                Filled-further c w (c.pipe_left - 1) n (n * m) (c.snd_buf.write_idx + m) one.value
                  rest.value one.holds rest.holds;
          }))

-- On a steady system, whose requests have at most m bytes: for a client whose send buffer takes m bytes for
-- each place in the pipeline, and with fuel above its write index, these bytes and the places together,
-- `cli_pipe_send` returns. It leaves no place, and what the socket took and what the send buffer holds are,
-- in order, what they were before and as many requests as there were places.
pub cli_pipe_send-Filled :
    (os : Os) (IsRequest : Bytes → Type 0) (m : ℕ) (steady : IsSteady os IsRequest m) (fuel : ℕ)
    (c : DubboClient) (w : os.W)
    → Takes c.snd_buf (c.pipe_left * m)
    → c.snd_buf.write_idx + c.pipe_left * m + c.pipe_left < fuel
    → Returns (cli_pipe_send os fuel c w) (Filled os IsRequest m steady c w c.pipe_left)
cli_pipe_send-Filled os IsRequest m steady fuel c w t room =
    fill_up os IsRequest m steady fuel c.pipe_left c w (c.snd_buf.write_idx + c.pipe_left * m) refl
      t (omega arith) room
