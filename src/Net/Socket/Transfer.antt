-- ===== src/Net/Socket/Transfer.antt =====
-- What `socket_sendAllSync` and `socket_recvAllSync` of net/socket.c send and receive.
use wee.Base.{
  ℕ, ◌+◌, ◌-◌, ◌^◌, ◌<◌, ◌≤◌, ◌≡◌, ◌⊎◌, inl, inr, refl, sym, ap, ◌∙◌, true, Bool-cases, Option,
  zero, suc, [], ◌∷◌, ◌++◌, length, take, drop, length-append, length-drop, append_assoc,
  append-nil, ltb, ltb→lt, Returns, Returns-then, Returns-else, arith,
}
use wee.Base.Memory.{Bytes, take-add}
use wee.Net.Socket.{after_send, send_all_sync, after_recv, recv_all_sync}
use wee.Net.Socket.System.{
  Sockets, Io, moved, Received, got, taken, handed, WithinData, WithinStream, SentPatiently,
  ReceivedPatiently, SendBreaks, ReceiveBreaks,
}

module _ {W : Type 0} (sockets : Sockets W) (fd : ℕ) where
  open sockets use {
    send, recv, out, received, incoming, broken, interruptions, send_within, send-out,
    send-received, send_patient, send_breaks, recv_within, recv-incoming, recv-received,
    recv_patient, recv_breaks,
  }

  -- What a sending of `buf` leaves, where the socket had taken `old` and `heard` was read from it before.
  pub record SendEnds (buf old heard : Bytes) (r : ℕ × W) : Type 0 where
    pub within : r.0 ≤ length buf
    pub bytes : out r.1 fd ≡ old ++ take r.0 buf
    pub unread : received r.1 fd ≡ heard
    pub complete : (r.0 ≡ length buf) ⊎ (broken r.1 fd ≡ true)

  module _ (buf old heard : Bytes) (fuel : ℕ) (next : ℕ → W → Option (ℕ × W)) (sent : ℕ) (w : W)
      (ends : (n : ℕ) (v : W)
        → n ≤ length buf
        → out v fd ≡ old ++ take n buf
        → received v fd ≡ heard
        → length buf - n + interruptions v < fuel
        → Returns (next n v) (SendEnds buf old heard))
      (e : out w fd ≡ old ++ take sent buf) (silent : received w fd ≡ heard)
      (more : sent < length buf) (room : length buf - sent + interruptions w < suc fuel) where
    round-SendEnds :
        (r : Io × W)
        → WithinData r.0 (drop sent buf)
        → out r.1 fd ≡ out w fd ++ taken r.0 (drop sent buf)
        → received r.1 fd ≡ received w fd
        → SentPatiently r.0 (interruptions w) (interruptions r.1)
        → SendBreaks r.0 (broken r.1 fd)
        → Returns (after_send sockets next sent r) (SendEnds buf old heard)
    round-SendEnds (moved n, v) h o q p b =
        ends (sent + n) v (omega (arith, h.1, length-drop sent buf, more))
          (o
            ∙ ap (λ s. s ++ take n (drop sent buf)) e
            ∙ append_assoc old (take sent buf) (take n (drop sent buf))
            ∙ ap (λ s. old ++ s) (sym (take-add sent n buf)))
          (q ∙ silent) (omega (arith, h.0, h.1, length-drop sent buf, more, p, room))
    round-SendEnds (Io.interrupted, v) h o q p b =
        ends sent v (omega (arith, more)) (o ∙ append-nil (out w fd) ∙ e) (q ∙ silent)
          (omega (arith, p, room))
    round-SendEnds (Io.failed, v) h o q p b = record {
      value = (sent, v);
      is_value = refl;
      holds = record {
        within = omega (arith, more);
        bytes = o ∙ append-nil (out w fd) ∙ e;
        unread = q ∙ silent;
        complete = inr b;
      };
    }

  send_loop-SendEnds :
      (fuel : ℕ) (buf old heard : Bytes) (n : ℕ) (w : W)
      → n ≤ length buf
      → out w fd ≡ old ++ take n buf
      → received w fd ≡ heard
      → length buf - n + interruptions w < fuel
      → Returns (send_all_sync sockets fuel fd buf n w) (SendEnds buf old heard)
  unfolding send_all_sync
  send_loop-SendEnds zero buf old heard n w h e silent room = absurd (omega arith)
  send_loop-SendEnds (suc fuel) buf old heard n w h e silent room =
      elim (Bool-cases (ltb n (length buf))) [
        | inl more ↦ Returns-then (ltb n (length buf)) _ _ more (
            round-SendEnds buf old heard fuel (send_all_sync sockets fuel fd buf) n w
              (send_loop-SendEnds fuel buf old heard) e silent (ltb→lt n (length buf) more) room
              (send fd (drop n buf) w)
              (send_within fd (drop n buf) w
                (omega (arith, length-drop n buf, ltb→lt n (length buf) more)))
              (send-out fd (drop n buf) w) (send-received fd (drop n buf) w)
              (send_patient fd (drop n buf) w) (send_breaks fd (drop n buf) w))
        | inr done ↦ Returns-else (ltb n (length buf)) _ _ done (record {
          value = (n, w);
          is_value = refl;
          holds = record {
            within = h;
            bytes = e;
            unread = silent;
            complete = inl (ground (arith, h));
          };
        })
      ]

  -- With fuel above the bytes and the interruptions to come, `socket_sendAllSync` returns. The socket has
  -- then taken, behind what it took before, exactly as many bytes of the block as are returned, from
  -- its start; these are all, unless the last call failed; and nothing was read from it.
  pub send_all_sync-SendEnds :
      (fuel : ℕ) (buf : Bytes) (w : W)
      → length buf + interruptions w < fuel
      → Returns (send_all_sync sockets fuel fd buf 0 w) (SendEnds buf (out w fd) (received w fd))
  send_all_sync-SendEnds fuel buf w room =
      send_loop-SendEnds fuel buf (out w fd) (received w fd) 0 w (omega arith)
        (sym (append-nil (out w fd))) refl (omega (arith, room))

  -- What a receiving of `size` bytes leaves of the stream, where `heard` was read before.
  pub record ReceiveEnds (size : ℕ) (stream heard : Bytes) (r : ℕ × Bytes × W) : Type 0 where
    pub bytes : stream ≡ r.1 ++ incoming r.2 fd
    pub within : length r.1 ≤ size
    pub heard_more : received r.2 fd ≡ heard ++ r.1
    pub counted : (r.0 ≡ length r.1) ⊎ ((r.0 ≡ 2 ^ 64 - 1) × (broken r.2 fd ≡ true))
    pub complete : r.0 ≡ length r.1 → r.0 < size → incoming r.2 fd ≡ []

  module _ (size : ℕ) (stream heard : Bytes) (fuel : ℕ) (next : Bytes → W → Option (ℕ × Bytes × W))
      (recved : Bytes) (w : W)
      (ends : (d : Bytes) (v : W)
        → length d ≤ size
        → stream ≡ d ++ incoming v fd
        → received v fd ≡ heard ++ d
        → size - length d + interruptions v < fuel
        → Returns (next d v) (ReceiveEnds size stream heard))
      (small : size < 2 ^ 64 - 1) (e : stream ≡ recved ++ incoming w fd)
      (s : received w fd ≡ heard ++ recved) (more : length recved < size)
      (room : size - length recved + interruptions w < suc fuel) where
    round-ReceiveEnds :
        (r : Received × W)
        → WithinStream r.0 (size - length recved) (incoming w fd)
        → incoming w fd ≡ handed r.0 ++ incoming r.1 fd
        → received r.1 fd ≡ received w fd ++ handed r.0
        → ReceivedPatiently r.0 (interruptions w) (interruptions r.1)
        → ReceiveBreaks r.0 (broken r.1 fd)
        → Returns (after_recv sockets next recved r) (ReceiveEnds size stream heard)
    round-ReceiveEnds (got [], v) h i q p b = record {
      value = (length recved, recved, v);
      is_value = refl;
      holds = record {
        bytes = e ∙ ap (λ s. recved ++ s) i;
        within = omega (arith, more);
        heard_more = q ∙ append-nil (received w fd) ∙ s;
        counted = inl refl;
        complete = λ _ _. sym i ∙ h.1 refl;
      };
    }
    round-ReceiveEnds (got (x ∷ d), v) h i q p b =
        ends (recved ++ (x ∷ d)) v (omega (arith, length-append recved (x ∷ d), h.0, more))
          (e ∙ ap (λ s. recved ++ s) i ∙ sym (append_assoc recved (x ∷ d) (incoming v fd)))
          (q ∙ ap (λ c. c ++ (x ∷ d)) s ∙ append_assoc heard recved (x ∷ d))
          (omega (arith, length-append recved (x ∷ d), h.0, more, room, p))
    round-ReceiveEnds (Received.interrupted, v) h i q p b =
        ends recved v (omega (arith, more)) (e ∙ ap (λ s. recved ++ s) i)
          (q ∙ append-nil (received w fd) ∙ s) (omega (arith, p, room))
    round-ReceiveEnds (Received.failed, v) h i q p b = record {
      value = (2 ^ 64 - 1, recved, v);
      is_value = refl;
      holds = record {
        bytes = e ∙ ap (λ s. recved ++ s) i;
        within = omega (arith, more);
        heard_more = q ∙ append-nil (received w fd) ∙ s;
        counted = inr (refl, b);
        complete = λ same _. absurd (omega (arith, same, more, small));
      };
    }

  recv_loop-ReceiveEnds :
      (fuel size : ℕ) (stream heard d : Bytes) (w : W)
      → size < 2 ^ 64 - 1
      → length d ≤ size
      → stream ≡ d ++ incoming w fd
      → received w fd ≡ heard ++ d
      → size - length d + interruptions w < fuel
      → Returns (recv_all_sync sockets fuel fd size d w) (ReceiveEnds size stream heard)
  unfolding recv_all_sync
  recv_loop-ReceiveEnds zero size stream heard d w small h e s room = absurd (omega arith)
  recv_loop-ReceiveEnds (suc fuel) size stream heard d w small h e s room =
      elim (Bool-cases (ltb (length d) size)) [
        | inl more ↦ Returns-then (ltb (length d) size) _ _ more (
            round-ReceiveEnds size stream heard fuel (recv_all_sync sockets fuel fd size) d w
              (λ d v. recv_loop-ReceiveEnds fuel size stream heard d v small) small e s
              (ltb→lt (length d) size more) room (recv fd (size - length d) w)
              (recv_within fd (size - length d) w (omega (arith, ltb→lt (length d) size more)))
              (recv-incoming fd (size - length d) w) (recv-received fd (size - length d) w)
              (recv_patient fd (size - length d) w) (recv_breaks fd (size - length d) w))
        | inr done ↦ Returns-else (ltb (length d) size) _ _ done (record {
          value = (length d, d, w);
          is_value = refl;
          holds = record {
            bytes = e;
            within = h;
            heard_more = s;
            counted = inl refl;
            complete = λ _ lt. absurd (ground (arith, lt));
          };
        })
      ]

  -- With fuel above the size and the interruptions to come, `socket_recvAllSync` returns. The bytes in the
  -- block are what the peer sent next, at most `size` of them, they alone were read, and the rest is still
  -- to come. It returns
  -- their number, or size_t(-1) where the last call failed; and fewer than `size` only at the end of
  -- the stream.
  pub recv_all_sync-ReceiveEnds :
      (fuel size : ℕ) (w : W)
      → size < 2 ^ 64 - 1
      → size + interruptions w < fuel
      → Returns
          (recv_all_sync sockets fuel fd size [] w)
          (ReceiveEnds size (incoming w fd) (received w fd))
  recv_all_sync-ReceiveEnds fuel size w small room =
      recv_loop-ReceiveEnds fuel size (incoming w fd) (received w fd) [] w small (omega arith) refl
        (sym (append-nil (received w fd))) (omega (arith, room))
