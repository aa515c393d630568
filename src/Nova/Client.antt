-- ===== src/Nova/Client.antt =====
-- The client program nova_client/nova.c: one generic call over a blocking socket. A result none is a failed
-- assertion, a null pointer that is read, or fuel that ran out. What goes to the standard error is left
-- out, and what cJSON makes of a text is a parameter.
pub mod Shown
pub mod Receive
pub mod Request
pub mod Answer
pub mod Reply
use wee.Base.{
  ℕ, List, ◌∷◌, ◌++◌, ◌&&◌, ◌+◌, ◌*◌, ◌%◌, ◌^◌, Bool, true, false, not, Option, none, some, zero,
  suc, [], length, ltb, ◌==◌, if◌then◌else◌, ◌>>=◌,
}
use wee.Base.Memory.{Bytes, slice}
use wee.Base.Text.{codes}
use wee.Base.Printing.{Line, red, green, plain, bare, attachment, Json, c_str, str_eq}
use wee.Base.Word.{sle32}
use wee.Buffer.{Buffer, create_ex, readable, peek, retrieve_all}
use wee.Buffer.Words.{peek_int32}
use wee.Buffer.ReadFd.{read_fd, offered}
use wee.Net.Socket.{send_all_sync}
use wee.Net.Socket.Open.{Opening, socket_client_sync}
use wee.Net.Socket.System.{Sockets}
use wee.Nova.{NovaHdr, detect, pack, unpack}
use wee.Nova.Generic.{create_generic, thrift_pack, thrift_unpack}

-- `globalArgs`; a string is its bytes without the final 0
pub record Args : Type 0 where
  pub host : Bytes
  pub port : Bytes
  pub service : Bytes
  pub method : Bytes
  pub call_args : Bytes
  pub attach : Bytes

-- What a call ends with: the lines printed, and `ret`.
pub record Outcome : Type 0 where
  pub lines : List Line
  pub ret : ℕ

abbrev pub failed : Outcome
failed = record { lines = []; ret = 1 }

-- `nova_hdr_create`
abbrev pub nova_hdr_create : NovaHdr
nova_hdr_create = record {
  msg_size = 0;
  magic = 0;
  head_size = 0;
  version = 0;
  ip = 0;
  port = 0;
  service_len = 0;
  service_name = [];
  method_len = 0;
  method_name = [];
  seq_no = 0;
  attach_len = 0;
  attach = [];
}

abbrev pub errno_interrupted : ℕ
errno_interrupted = 4

abbrev pub max_msg_size : ℕ
max_msg_size = 1024 * 1024 * 2

-- the packet of a call; its header is a null pointer for an attachment that is too long
unfoldable pub nova_request : Args → Option Buffer
nova_request args = do
  hdr ← create_generic args.attach
  made ← create_ex 1024 8 true true
  b ← made
  body ←
      thrift_pack 0 (length args.service % 2 ^ 32) args.service (length args.method % 2 ^ 32)
        args.method (length args.call_args % 2 ^ 32) args.call_args
  pack b hdr (slice body.buf (peek body) (readable body))

module _ {W : Type 0} (readv : ℕ → ℕ → W → Option Bytes × W) where
  -- the first reading of an answer, behind its call of buf_readFd: none inside for `goto fail`
  abbrev pub after_first :
      (Buffer → W → Option (Option Buffer × W))
      → Buffer
      → W
      → Option ℕ × ℕ × Buffer
      → Option (Option Buffer × W)
  after_first next b w (none, errno, b') =
      let retry = next b w in if errno == errno_interrupted then retry else some (none, w)
  after_first next b w (some n, errno, b') = if ltb n 4 then some (none, w) else some (some b', w)

  unfoldable pub first_read : ℕ → ℕ → Buffer → W → Option (Option Buffer × W)
  first_read zero fd b w = none
  first_read (suc fuel) fd b w =
      let (got, v) = readv fd (offered b) w in
      read_fd got 0 b >>= λ r. after_first (first_read fuel fd) b v r

  -- the loop that waits for the rest of a message
  abbrev pub after_rest :
      (Buffer → W → Option (Option Buffer × W))
      → Buffer
      → W
      → Option ℕ × ℕ × Buffer
      → Option (Option Buffer × W)
  after_rest next b w (none, errno, b') =
      let retry = next b w in if errno == errno_interrupted then retry else some (none, w)
  after_rest next b w (some n, errno, b') = next b' w

  unfoldable pub rest_read : ℕ → ℕ → ℕ → Buffer → W → Option (Option Buffer × W)
  rest_read zero fd msg_size b w = none
  rest_read (suc fuel) fd msg_size b w =
      let (got, v) = readv fd (offered b) w in
      let round = read_fd got 0 b >>= λ r. after_rest (rest_read fuel fd msg_size) b v r in
      if ltb (readable b) msg_size then round else some (some b, w)

  -- what follows the first reading, up to the whole message
  unfoldable pub nova_receive : ℕ → ℕ → Option Buffer × W → Option (Option Buffer × W)
  nova_receive fuel fd (none, w) = some (none, w)
  nova_receive fuel fd (some b, w) = do
    msg_size ← peek_int32 b
    let rest = rest_read fuel fd msg_size b w
    if sle32 msg_size 0
        then some (none, w)
        else if not (sle32 msg_size max_msg_size)
        then some (none, w)
        else rest

module _ (json : Json) where
  open json use {J, parse, is_object, object_item, print, print_unformatted}

  -- the attachment, once it is parsed
  abbrev pub parsed_attach : Option J → List Line
  parsed_attach none = []
  parsed_attach (some root) = attachment (print_unformatted root) ∷ []

  -- what is printed of the attachment, which ends with a 0 behind its `attach_len` bytes
  unfoldable pub show_attach : NovaHdr → List Line
  show_attach hdr =
      if not (hdr.attach_len == 0) && not (str_eq (c_str hdr.attach) (codes "{}"))
      then parsed_attach (parse (c_str hdr.attach))
      else []

  -- the items of the answer that are looked for
  abbrev pub response_item : J → Option J → Line
  response_item root (some item) = green (print item)
  response_item root none = plain (print root)

  abbrev pub error_item : J → Option J → Line
  error_item root (some item) = red (print item)
  error_item root none = response_item root (object_item root (codes "response"))

  -- the answer, once it is parsed, with `ret`
  abbrev pub parsed_answer : Bytes → Option J → Line × ℕ
  parsed_answer resp none = (bare (c_str resp), 1)
  parsed_answer resp (some root) =
      if not (is_object root)
      then (bare (c_str resp), 1)
      else (error_item root (object_item root (codes "error_response")), 0)

  unfoldable pub show_answer : Bytes → Line × ℕ
  show_answer resp = parsed_answer resp (parse (c_str resp))

  -- what is printed of an unpacked answer
  abbrev pub show : NovaHdr → Bool × Option Bytes × Buffer → Option Outcome
  show hdr (false, resp, b) = some failed
  show hdr (true, none, b) = none
  show hdr (true, some resp, b) = some (record {
    lines = show_attach hdr ++ ((show_answer resp).0 ∷ []);
    ret = (show_answer resp).1;
  })

  -- the reading of a whole message
  unfoldable pub nova_answer : Option Buffer → Option Outcome
  nova_answer none = some failed
  nova_answer (some b) =
      if not (detect (slice b.buf (peek b) (readable b)) (readable b)) then some failed else do
        (good, hdr, b) ← unpack b nova_hdr_create
        if not good then some failed else do r ← thrift_unpack b; show hdr r

module _ {W : Type 0} (sockets : Sockets W) (opening : Opening W)
    (readv : ℕ → ℕ → W → Option Bytes × W) (json : Json) where
  -- `nova_invoke` behind the sending of its request, of which n bytes were sent
  abbrev pub after_sending : ℕ → ℕ → Buffer → ℕ × W → Option (Outcome × W)
  after_sending fuel fd b (n, w) =
      if not (n == readable b) then some (failed, opening.close fd w) else do
        first ← first_read readv fuel fd (retrieve_all b) w
        (message, w) ← nova_receive readv fuel fd first
        outcome ← nova_answer json message
        some (outcome, opening.close fd w)

  abbrev pub after_opening : ℕ → Buffer → Option ℕ × W → Option (Outcome × W)
  after_opening fuel b (none, w) = some (failed, w)
  after_opening fuel b (some fd, w) =
      send_all_sync sockets fuel fd (slice b.buf (peek b) (readable b)) 0 w >>= λ r.
      after_sending fuel fd b r

  unfoldable pub nova_invoke : ℕ → Args → W → Option (Outcome × W)
  nova_invoke fuel args w = do
    b ← nova_request args
    after_opening fuel b (socket_client_sync opening args.host args.port w)
