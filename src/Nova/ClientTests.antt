-- ===== src/Nova/ClientTests.antt =====
-- A call of nova_client/nova.c on the small connection of Net/Sample.
use wee.Base.{
  ℕ, ◌+◌, ◌^◌, ◌≤◌, ◌≡◌, refl, ap, ◌∙◌, Bool, true, false, none, some, if◌then◌else◌, [], ◌∷◌,
  length, take, length-append, length-take-le, leb, ◌==◌, Returns, arith, le→leb,
}
use wee.Base.Memory.{Bytes, slice}
use wee.Base.Text.{codes}
use wee.Base.Endian.{be_bytes, le_bytes, length-be_bytes, length-le_bytes}
use wee.Nova.{NovaHdr}
use wee.Nova.Layout.{wire}
use wee.Nova.Generic.Answer.{answer_wire}
use wee.Base.Printing.{Json, str_eq, attachment, green, bare}
use wee.Buffer.{Buffer}
use wee.Nova.Client.Shown.{Prints}
use wee.Nova.Client.{Args, show, show_attach, show_answer, nova_invoke}
use wee.Nova.Options.{
  trim_opt, opt_p, opt_s, opt_m, given_first, take_option, take_options, check_given, main_args,
}
use wee.Nova.Client.Receive.{Brings}
use wee.Nova.Client.Request.{call}
use wee.Nova.Client.Answer.{IsAnswer, message, length-message}
use wee.Nova.Client.Reply.{Answers, nova_invoke-printed}
use wee.Net.Socket.Open.{socket_ctor, try_addresses, set_options}
use wee.Net.Sample.{Link, link, host, readv, piece, coming, still, still-take, length-take-some}

abbrev args : Args
args = record {
  host = codes "localhost";
  port = codes "8050";
  service = codes "sv";
  method = codes "m";
  call_args = codes "{}";
  attach = codes "{}";
}

abbrev answer_hdr : NovaHdr
answer_hdr = record {
  msg_size = 0;
  magic = 0xdabc;
  head_size = 47;
  version = 1;
  ip = 0x7f000001;
  port = 8050;
  service_len = 2;
  service_name = b's' ∷ b'v' ∷ 0 ∷ [];
  method_len = 1;
  method_name = b'm' ∷ 0 ∷ [];
  seq_no = 1;
  attach_len = 7;
  attach = codes "{\"a\":1}";
}

abbrev resp : Bytes
resp = codes "{\"response\":1}"

abbrev opens_brace : Bytes → Bool
opens_brace [] = false
opens_brace (x ∷ xs) = x == b'{'

-- What begins with a brace is an object, whose value of "response" is at a fixed place.
abbrev texts : Json
texts = record {
  J = Bytes;
  parse = λ s. if opens_brace s then some s else none;
  is_object = opens_brace;
  object_item = λ s name. if str_eq name (codes "response") then some (slice s 12 1) else none;
  print = λ s. s;
  print_unformatted = λ s. s;
}

abbrev empty_buffer : Buffer
empty_buffer = record {
  read_idx = 0;
  write_idx = 0;
  sz = 0;
  p_sz = 0;
  buf = [];
  refcount = 0;
  src = none;
  cache = none;
}

shown_lines :
    show texts answer_hdr (true, some resp, empty_buffer)
    ≡ some (record { lines = attachment (codes "{\"a\":1}") ∷ green (codes "1") ∷ []; ret = 0 })
unfolding show_attach show_answer slice
shown_lines = refl

shown_invalid : show_answer texts (codes "oops") ≡ (bare (codes "oops"), 1)
unfolding show_answer
shown_invalid = refl

length-answer_wire : length (answer_wire 2 0 resp []) ≡ 40
unfolding be_bytes le_bytes
length-answer_wire = refl

small-IsAnswer : IsAnswer answer_hdr 2 0 resp
small-IsAnswer = record {
  sendable = record {
    magic = refl;
    head_size = omega arith;
    version = omega arith;
    ip = omega arith;
    port = omega arith;
    seq_no = omega arith;
    service_len = omega arith;
    service_name = omega arith;
    method_len = omega arith;
    method_name = omega arith;
    attach_len = omega arith;
    attach = omega arith;
    msg_size = omega (arith, length-answer_wire);
    not_empty = omega arith;
    some_text = omega arith;
  };
  whole = refl;
  type_byte = omega arith;
  seq_word = omega arith;
  resp_word = omega arith;
  limited = omega (arith, length-answer_wire);
}

abbrev reply : Bytes
reply = message answer_hdr 2 0 resp small-IsAnswer

-- Two calls are interrupted.
abbrev start : Link
start = record { sent = []; heard = []; noise = 2; opens = 0 ∷ [] }

abbrev all_good : ℕ → Bool
all_good o = true

abbrev connected : Link
connected = record start { opens = 3 ∷ 0 ∷ [] }

connects : socket_ctor (host all_good) (some args.host) args.port false start ≡ (some 3, connected)
unfolding socket_ctor try_addresses set_options
connects = refl

readv-Brings : (n : ℕ) (w : Link) → Brings (coming reply) n w (readv reply 3 n w)
readv-Brings n w = record {
  bytes = take (piece n) (coming reply w);
  is_bytes = refl;
  within = ground (arith, length-take-le (piece n) (coming reply w));
  stream = still-take reply (leb 37 (length w.sent)) w.heard (piece n);
  progress = λ some_room some_left.
      length-take-some (piece n) 1 (coming reply w) (ground arith) (omega (arith, some_left));
}

length-wire-ge : (h : NovaHdr) (body : Bytes) → 37 ≤ length (wire h body)
length-wire-ge h body = simp (length-append, length-be_bytes, length-le_bytes) (omega arith)

length-reply : length reply ≡ 87
length-reply =
    length-message answer_hdr 2 0 resp small-IsAnswer ∙ ap (λ n. 47 + n) length-answer_wire

link-Answers : Answers (link reply) (host all_good) (readv reply) texts args reply 3 connected
unfolding readv-Brings
link-Answers = record {
  sound = λ w. refl;
  brings = readv-Brings;
  replies = λ hdr w made e silent.
      ap (λ t. still reply t w.heard)
        (le→leb 37 (length w.sent) (omega (arith, ap length e, length-wire-ge hdr (call args))))
      ∙ ap (still reply true) silent;
  prompt = λ n w four e.
      length-take-some (piece n) 4 (coming reply w) (ground arith)
        (omega (arith, ap length e, length-reply));
}

nova_invoke-printed_example :
    Returns
      (nova_invoke (link reply) (host all_good) (readv reply) texts (2 ^ 34 + 4) args start)
      (λ r. Prints texts answer_hdr resp r.0)
nova_invoke-printed_example =
    nova_invoke-printed (link reply) (host all_good) (readv reply) texts (2 ^ 34 + 3) args start
      connected 3 answer_hdr 2 0 resp small-IsAnswer
      (record { attach = omega arith; strings = omega arith }) connects link-Answers (omega arith)
      (omega (arith, length-reply))

-- The two ways to write the method of a call; the spaces and the equals sign are cut off.
stats_call :
    main_args (λ s. 8050) (λ s. some s) (opt_p (codes "8050") ∷ opt_s ∷ [])
    ≡ some (record {
      host = codes "127.0.0.1";
      port = codes "8050";
      service = codes "com.youzan.service.test";
      method = codes "stats";
      call_args = codes "{}";
      attach = codes "{}";
    })
unfolding take_options take_option check_given trim_opt
stats_call = refl

trimmed_method :
    take_option given_first (opt_m (codes "= a.b.run "))
    ≡ some (record given_first { service = some (codes "a.b"); method = some (codes "run") })
unfolding take_option trim_opt
trimmed_method = refl
