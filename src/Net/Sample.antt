-- ===== src/Net/Sample.antt =====
-- A connection for the examples. Its socket takes one byte at a time, its peer answers once it has a header,
-- and what it answers is read in pieces of up to five bytes. One of the two addresses of a host has no
-- socket.
use wee.Base.{
  ℕ, ◌<◌, ◌≤◌, ◌≡◌, refl, sym, ap, ◌∙◌, Bool, true, false, Option, none, some, zero, suc, List, [],
  ◌∷◌, ◌++◌, length, take, drop, append-nil, leb, if◌then◌else◌, length-append, length-take-le,
  take-nil, arith,
}
use wee.Base.Memory.{Bytes, drop-drop}
use wee.ThreadPool.Nodes.{erase}
use wee.Net.Socket.System.{
  Sockets, Io, moved, Received, got, taken, handed, WithinData, WithinStream, SentPatiently,
  ReceivedPatiently, SendBreaks, ReceiveBreaks,
}
use wee.Net.Socket.Open.{Opening}

-- what was sent, what was read, the interruptions to come, and the descriptors
pub record Link : Type 0 where
  pub sent : Bytes
  pub heard : Bytes
  pub noise : ℕ
  pub opens : List ℕ

take-rest : (n : ℕ) (xs : Bytes) → xs ≡ take n xs ++ drop (length (take n xs)) xs
take-rest zero xs = refl
take-rest (suc n) [] = refl
take-rest (suc n) (x ∷ xs) = ap (λ t. x ∷ t) (take-rest n xs)

take-empty : (n : ℕ) (xs : Bytes) → 0 < n → take n xs ≡ [] → xs ≡ []
take-empty zero xs h e = absurd (omega arith)
take-empty (suc n) [] h e = refl
take-empty (suc n) (x ∷ xs) h e = absurd (ground (arith, e))

pub length-take-some : (n k : ℕ) (xs : Bytes) → k ≤ n → k ≤ length xs → k ≤ length (take n xs)
length-take-some n zero xs h l = omega arith
length-take-some zero (suc k) xs h l = absurd (omega arith)
length-take-some (suc n) (suc k) [] h l = absurd (omega arith)
length-take-some (suc n) (suc k) (x ∷ xs) h l =
    omega (arith, length-take-some n k xs (omega arith) (omega arith))

-- one byte, or an interruption
abbrev pub give : ℕ → Bytes → Link → Io × Link
give (suc k) d w = (Io.interrupted, record w { noise = k })
give zero [] w = (moved 0, w)
give zero (x ∷ d) w = (moved 1, record w { sent = w.sent ++ (x ∷ []) })

pub give-within : (k : ℕ) (d : Bytes) (w : Link) → 0 < length d → WithinData (give k d w).0 d
give-within (suc k) d w h = omega arith
give-within zero [] w h = absurd (omega arith)
give-within zero (x ∷ d) w h = omega arith

pub give-out :
    (k : ℕ) (d : Bytes) (w : Link) → (give k d w).1.sent ≡ w.sent ++ taken (give k d w).0 d
give-out (suc k) d w = rw append-nil refl
give-out zero [] w = rw append-nil refl
give-out zero (x ∷ d) w = refl

pub give-received : (k : ℕ) (d : Bytes) (w : Link) → (give k d w).1.heard ≡ w.heard
give-received (suc k) d w = refl
give-received zero [] w = refl
give-received zero (x ∷ d) w = refl

pub give-patient :
    (k : ℕ) (d : Bytes) (w : Link)
    → w.noise ≡ k
    → SentPatiently (give k d w).0 w.noise (give k d w).1.noise
give-patient (suc k) d w e = omega (arith, e)
give-patient zero [] w e = omega arith
give-patient zero (x ∷ d) w e = omega arith

pub give-breaks : (k : ℕ) (d : Bytes) (w : Link) → SendBreaks (give k d w).0 false
give-breaks (suc k) d w = omega arith
give-breaks zero [] w = omega arith
give-breaks zero (x ∷ d) w = omega arith

-- what one readv brings
abbrev pub piece : ℕ → ℕ
piece n = if leb n 5 then n else 5

module _ (answer : Bytes) where
  abbrev pub still : Bool → Bytes → Bytes
  still talks heard = if talks then drop (length heard) answer else []

  abbrev pub coming : Link → Bytes
  coming w = still (leb 37 (length w.sent)) w.heard

  pub still-take :
      (talks : Bool) (heard : Bytes) (n : ℕ)
      → still talks heard
        ≡ take n (still talks heard) ++ still talks (heard ++ take n (still talks heard))
  still-take false heard n = ap (λ t. t ++ []) (sym (take-nil n))
  still-take true heard n =
      take-rest n (drop (length heard) answer)
      ∙ ap (λ r. take n (drop (length heard) answer) ++ r)
          (drop-drop (length heard) (length (take n (drop (length heard) answer))) answer
            ∙ ap (λ k. drop k answer)
                (sym (length-append heard (take n (drop (length heard) answer)))))

  abbrev pub hears : ℕ → Link → Link
  hears n w = record w { heard = w.heard ++ take n (coming w) }

  abbrev pub take_in : ℕ → ℕ → Link → Received × Link
  take_in (suc k) n w = (Received.interrupted, record w { noise = k })
  take_in zero n w = (got (take n (coming w)), hears n w)

  pub take_in-within : (k n : ℕ) (w : Link) → 0 < n → WithinStream (take_in k n w).0 n (coming w)
  take_in-within (suc k) n w h = omega arith
  take_in-within zero n w h = (length-take-le n (coming w), take-empty n (coming w) h)

  pub take_in-incoming :
      (k n : ℕ) (w : Link) → coming w ≡ handed (take_in k n w).0 ++ coming (take_in k n w).1
  take_in-incoming (suc k) n w = refl
  take_in-incoming zero n w = still-take (leb 37 (length w.sent)) w.heard n

  pub take_in-received :
      (k n : ℕ) (w : Link) → (take_in k n w).1.heard ≡ w.heard ++ handed (take_in k n w).0
  take_in-received (suc k) n w = rw append-nil refl
  take_in-received zero n w = refl

  pub take_in-patient :
      (k n : ℕ) (w : Link)
      → w.noise ≡ k
      → ReceivedPatiently (take_in k n w).0 w.noise (take_in k n w).1.noise
  take_in-patient (suc k) n w e = omega (arith, e)
  take_in-patient zero n w e = omega arith

  pub take_in-breaks : (k n : ℕ) (w : Link) → ReceiveBreaks (take_in k n w).0 false
  take_in-breaks (suc k) n w = omega arith
  take_in-breaks zero n w = omega arith

  abbrev pub link : Sockets Link
  link = record {
    send = λ fd d w. give w.noise d w;
    recv = λ fd n w. take_in w.noise n w;
    out = λ w fd. w.sent;
    received = λ w fd. w.heard;
    incoming = λ w fd. coming w;
    broken = λ w fd. false;
    interruptions = λ w. w.noise;
    send_within = λ fd d w h. give-within w.noise d w h;
    send-out = λ fd d w. give-out w.noise d w;
    send-received = λ fd d w. give-received w.noise d w;
    send_patient = λ fd d w. give-patient w.noise d w refl;
    send_breaks = λ fd d w. give-breaks w.noise d w;
    recv_within = λ fd n w h. take_in-within w.noise n w h;
    recv-incoming = λ fd n w. take_in-incoming w.noise n w;
    recv-received = λ fd n w. take_in-received w.noise n w;
    recv_patient = λ fd n w. take_in-patient w.noise n w refl;
    recv_breaks = λ fd n w. take_in-breaks w.noise n w;
  }

  abbrev pub readv : ℕ → ℕ → Link → Option Bytes × Link
  readv fd n w = (some (take (piece n) (coming w)), hears (piece n) w)

-- The descriptors. Address 0 has no socket, and address 1 gets the socket 3.
abbrev pub socket_of : ℕ → Link → Option ℕ × Link
socket_of zero w = (none, w)
socket_of (suc a) w = (some 3, record w { opens = 3 ∷ w.opens })

pub socket_of_fails :
    (a : ℕ) (w : Link) → (socket_of a w).0 ≡ none → (socket_of a w).1.opens ≡ w.opens
socket_of_fails zero w e = refl
socket_of_fails (suc a) w e = absurd (cc e)

pub socket_of_opens :
    (a fd : ℕ) (w : Link) → (socket_of a w).0 ≡ some fd → (socket_of a w).1.opens ≡ fd ∷ w.opens
socket_of_opens zero fd w e = absurd (cc e)
socket_of_opens (suc a) fd w e = cc e

-- `good` says which calls of setsockopt succeed, by their option.
abbrev pub host : (ℕ → Bool) → Opening Link
host good = record {
  getaddrinfo = λ name port w. (some (0 ∷ 1 ∷ []), w);
  socket = λ nonblock a w. socket_of a w;
  setsockopt = λ fd o w. (good o, w);
  bind = λ fd a w. (true, w);
  connect = λ fd a w. (true, w);
  close = λ fd w. record w { opens = erase fd w.opens };
  opened = λ w. w.opens;
  getaddrinfo-opened = λ name port w. refl;
  socket_fails = λ nonblock a w e. socket_of_fails a w e;
  socket_opens = λ nonblock a fd w e. socket_of_opens a fd w e;
  setsockopt-opened = λ fd o w. refl;
  bind-opened = λ fd a w. refl;
  connect-opened = λ fd a w. refl;
  close-opened = λ fd w. refl;
}
