-- ===== src/Dubbo/ClientTests/Socket.antt =====
-- A small system with one socket, on which dubbo_client/dubbo_client.c is run.
use wee.Base.{
  ℕ, ◌-◌, ◌≡◌, refl, Bool, true, false, Option, some, [], ◌∷◌, ◌++◌, length, take, zero, suc,
  append-nil, arith, ltb, if◌then◌else◌,
}
use wee.Base.Memory.{Bytes}
use wee.Dubbo.Client.System.{Os, Wrote, wrote, interrupted, again, taken, WithinData, Patient, done}
use wee.Dubbo.Client.Steady.{IsSteady, Unfailed}

-- A socket that took `out`, has room for `room` bytes, and before that is interrupted `noise` times;
-- `incoming` is what it has to read.
pub record Wire : Type 0 where
  pub out : Bytes
  pub room : ℕ
  pub noise : ℕ
  pub waits : Bool
  pub incoming : Option Bytes

abbrev least : ℕ → ℕ → ℕ
least m n = if ltb m n then m else n

abbrev write_room : ℕ → Bytes → Wire → Wrote × Wire
write_room zero d w = (again, w)
write_room (suc r) [] w = (again, w)
write_room (suc r) (x ∷ xs) w =
    let n = least (suc r) (suc (length xs)) in
    (wrote n, record w { out = w.out ++ take n (x ∷ xs); room = suc r - n })

abbrev write_noise : ℕ → Bytes → Wire → Wrote × Wire
write_noise zero d w = write_room w.room d w
write_noise (suc k) d w = (interrupted, record w { noise = k })

abbrev wire_write : Bytes → Wire → Wrote × Wire
wire_write d w = write_noise w.noise d w

pub room-within : (r : ℕ) (d : Bytes) (w : Wire) → WithinData (write_room r d w).0 d
room-within zero d w = omega arith
room-within (suc r) [] w = omega arith
room-within (suc r) (x ∷ xs) w = (ground arith, ground arith)

pub noise-within : (k : ℕ) (d : Bytes) (w : Wire) → WithinData (write_noise k d w).0 d
noise-within zero d w = room-within w.room d w
noise-within (suc k) d w = omega arith

pub room-out :
    (r : ℕ) (d : Bytes) (w : Wire)
    → (write_room r d w).1.out ≡ w.out ++ taken (write_room r d w).0 d
room-out zero d w = rw append-nil refl
room-out (suc r) [] w = rw append-nil refl
room-out (suc r) (x ∷ xs) w = refl

pub noise-out :
    (k : ℕ) (d : Bytes) (w : Wire)
    → (write_noise k d w).1.out ≡ w.out ++ taken (write_noise k d w).0 d
noise-out zero d w = room-out w.room d w
noise-out (suc k) d w = rw append-nil refl

pub room-Patient :
    (r : ℕ) (d : Bytes) (w : Wire) → Patient (write_room r d w).0 w.noise (write_room r d w).1.noise
room-Patient zero d w = omega arith
room-Patient (suc r) [] w = omega arith
room-Patient (suc r) (x ∷ xs) w = omega arith

pub noise-Patient :
    (k : ℕ) (d : Bytes) (w : Wire)
    → w.noise ≡ k
    → Patient (write_noise k d w).0 w.noise (write_noise k d w).1.noise
noise-Patient zero d w e = room-Patient w.room d w
noise-Patient (suc k) d w e = omega (arith, e)

abbrev pub wire : Os
wire = record {
  W = Wire;
  make_request = λ w. (some (0xda ∷ 0xbb ∷ []), w);
  socket_create = λ w. (some 3, w);
  socket_connect = λ fd w. (done, w);
  close = λ fd w. w;
  write = λ fd d w. wire_write d w;
  readv = λ fd n w. (w.incoming, w);
  watch_read = λ fd w. (true, w);
  watch_connect = λ fd w. (true, w);
  watch_write = λ fd w. (true, record w { waits = true });
  unwatch_write = λ fd w. record w { waits = false };
  unwatch = λ fd w. record w { waits = false };
  add_timer = λ w. (some 1, w);
  delete_timer = λ t w. w;
  stop = λ w. w;
  sent = λ w fd. w.out;
  watched = λ w fd. w.waits;
  interruptions = λ w. w.noise;
  write_within = λ fd d w h. noise-within w.noise d w;
  write-sent = λ fd d w. noise-out w.noise d w;
  write_patient = λ fd d w. noise-Patient w.noise d w refl;
  watch_write_sets = λ fd w h. refl;
  watch_write-sent = λ fd w. refl;
  unwatch_write-sent = λ fd w. refl;
}

-- The system without interruptions.
pub room_calm : (r : ℕ) (d : Bytes) (w : Wire) → Patient (write_room r d w).0 0 0
room_calm zero d w = omega arith
room_calm (suc r) [] w = omega arith
room_calm (suc r) (x ∷ xs) w = omega arith

abbrev pub quiet : Os
quiet = record wire {
  write = λ fd d w. write_room w.room d w;
  interruptions = λ w. 0;
  write_within = λ fd d w h. room-within w.room d w;
  write-sent = λ fd d w. room-out w.room d w;
  write_patient = λ fd d w. room_calm w.room d w;
}

pub room-Unfailed : (r : ℕ) (d : Bytes) (w : Wire) → Unfailed (write_room r d w).0
room-Unfailed zero d w = omega arith
room-Unfailed (suc r) [] w = omega arith
room-Unfailed (suc r) (x ∷ xs) w = omega arith

abbrev pub quiet-IsSteady : IsSteady quiet (λ d. d ≡ 0xda ∷ 0xbb ∷ []) 2
quiet-IsSteady = record {
  unfailed = λ fd d w. room-Unfailed w.room d w;
  watches = λ fd w. refl;
  calm = λ w. refl;
  request = λ w. 0xda ∷ 0xbb ∷ [];
  makes = λ w. refl;
  is_request = λ w. refl;
  short = λ w. omega arith;
  make_request-sent = λ fd w. refl;
}
