-- ===== src/Dubbo/Sync.antt =====
-- `dubbo_invoke_sync` of dubbo_client/dubbo_client.c: one call that waits for its answer. The making of the
-- request from JSON is an argument, what cJSON makes of a text a parameter, and what goes to the standard
-- error is left out. A result none is a failed assertion or fuel that ran out.
pub mod Shown
pub mod Answered
use wee.Base.{
  ℕ, List, [], ◌∷◌, ◌||◌, length, get_or, ◌+◌, ◌%◌, ◌^◌, Bool, true, false, not, Option, none, some,
  zero, suc, ltb, ◌==◌, if◌then◌else◌, ◌>>=◌,
}
use wee.Base.Memory.{Bytes, slice}
use wee.Base.Text.{codes}
use wee.Base.Printing.{Line, red, green, event, Json, c_str}
use wee.Base.Word.{sle32}
use wee.Buffer.{Buffer, readable, peek, retrieve_all}
use wee.Buffer.ReadFd.{read_fd, offered}
use wee.Net.Socket.{send_all_sync}
use wee.Net.Socket.Open.{Opening, socket_client_sync}
use wee.Net.Socket.System.{Sockets}
use wee.Dubbo.Codec.{DubboReq, DubboRes, dubbo_encode, is_dubbo_pkt, is_completed_dubbo_pkt}
use wee.Dubbo.Codec.Response.{dubbo_decode}

abbrev pub interrupted_errno : ℕ
interrupted_errno = 4

module _ {W : Type 0} (readv : ℕ → ℕ → W → Option Bytes × W) where
  -- the first reading, behind its call of buf_readFd: none inside for `goto release`
  abbrev pub packet_begun : Buffer → W → Option Bool → Option (Option Buffer × W)
  packet_begun b w none = none
  packet_begun b w (some true) = some (some b, w)
  packet_begun b w (some false) = some (none, w)

  abbrev pub after_reading :
      (Buffer → W → Option (Option Buffer × W))
      → Buffer
      → W
      → Option ℕ × ℕ × Buffer
      → Option (Option Buffer × W)
  after_reading next b w (none, errno, b') =
      let retry = next b w in if errno == interrupted_errno then retry else some (none, w)
  after_reading next b w (some n, errno, b') = packet_begun b' w (is_dubbo_pkt b')

  unfoldable pub begin_packet : ℕ → ℕ → Buffer → W → Option (Option Buffer × W)
  begin_packet zero fd b w = none
  begin_packet (suc fuel) fd b w =
      let (got, v) = readv fd (offered b) w in
      read_fd got 0 b >>= λ r. after_reading (begin_packet fuel fd) b v r

  -- The loop while `remaining`, an int, is negative.
  abbrev pub after_more :
      (ℕ → Buffer → W → Option (Option Buffer × W))
      → ℕ
      → Buffer
      → W
      → Option ℕ × ℕ × Buffer
      → Option (Option Buffer × W)
  after_more next remaining b w (none, errno, b') =
      let retry = next remaining b w in if errno == interrupted_errno then retry else some (none, w)
  after_more next remaining b w (some n, errno, b') = next ((remaining + n) % 2 ^ 32) b' w

  unfoldable pub finish_packet : ℕ → ℕ → ℕ → Buffer → W → Option (Option Buffer × W)
  finish_packet zero fd remaining b w = none
  finish_packet (suc fuel) fd remaining b w =
      let (got, v) = readv fd (offered b) w in
      let more = read_fd got 0 b >>= λ r. after_more (finish_packet fuel fd) remaining b v r in
      if sle32 0 remaining then some (some b, w) else more

  -- from the first reading to the packet
  abbrev pub after_completed : ℕ → ℕ → Buffer → W → Option ℕ → Option (Option Buffer × W)
  after_completed fuel fd b w none = some (none, w)
  after_completed fuel fd b w (some remaining) = finish_packet fuel fd remaining b w

  abbrev pub after_begun : ℕ → ℕ → Option Buffer × W → Option (Option Buffer × W)
  after_begun fuel fd (none, w) = some (none, w)
  after_begun fuel fd (some b, w) =
      is_completed_dubbo_pkt b >>= λ remaining. after_completed fuel fd b w remaining

-- What the call ends with: the lines that are printed; whether the socket is closed, which it is not where
-- dubbo_decode returns NULL; and `ret`.
pub record Ended : Type 0 where
  pub lines : List Line
  pub closed : Bool
  pub ret : Bool

abbrev pub release_all : Ended
release_all = record { lines = []; closed = true; ret = false }

module _ (json : Json) where
  open json use {J, parse, print}

  -- the text as it is, or its JSON value, behind the description where the response is no good one
  abbrev pub text_lines : DubboRes → Bytes → Option J → List Line
  text_lines res s none = (if res.is_ok then green s else red s) ∷ []
  text_lines res s (some resp) =
      if res.is_ok then green (print resp) ∷ [] else red (c_str res.desc) ∷ red (print resp) ∷ []

  -- what is parsed: a text that begins with a bracket
  abbrev pub parse_text : Bytes → Option J
  parse_text s = if get_or s 0 0 == b'[' || get_or s 0 0 == b'{' then parse (c_str s) else none

  -- `data_sz` is 0 without `data`
  abbrev pub data_lines : DubboRes → Option Bytes → List Line
  data_lines res none = green (codes "NULL") ∷ []
  data_lines res (some s) =
      if not (length s == 0)
      then text_lines res (c_str s) (parse_text s)
      else green (codes "NULL") ∷ []

  unfoldable pub show_res : DubboRes → List Line
  show_res res = if res.is_evt then event ∷ [] else data_lines res res.payload

  abbrev pub ended_by : Option DubboRes × Buffer → Ended
  ended_by (none, b) = record { lines = []; closed = false; ret = false }
  ended_by (some res, b) = record { lines = show_res res; closed = true; ret = false }

  abbrev pub show_answer : ℕ → Option Buffer → Option Ended
  show_answer fuel none = some release_all
  show_answer fuel (some b) = dubbo_decode fuel b >>= λ r. some (ended_by r)

module _ {W : Type 0} (sockets : Sockets W) (opening : Opening W)
    (readv : ℕ → ℕ → W → Option Bytes × W) (json : Json) where
  abbrev pub close_if : Bool → ℕ → W → W
  close_if true fd w = opening.close fd w
  close_if false fd w = w

  abbrev pub after_sent : ℕ → ℕ → Buffer → ℕ × W → Option (Ended × W)
  after_sent fuel fd b (n, w) =
      if not (n == readable b) then some (release_all, opening.close fd w) else do
        begun ← begin_packet readv fuel fd (retrieve_all b) w
        (message, w) ← after_begun readv fuel fd begun
        ended ← show_answer json fuel message
        some (ended, close_if ended.closed fd w)

  abbrev pub after_client : ℕ → Buffer → Option ℕ × W → Option (Ended × W)
  after_client fuel b (none, w) = some (release_all, w)
  after_client fuel b (some fd, w) =
      send_all_sync sockets fuel fd (slice b.buf (peek b) (readable b)) 0 w >>= λ r.
      after_sent fuel fd b r

  abbrev pub after_encode : ℕ → Bytes → Bytes → W → Option Buffer → Option (Ended × W)
  after_encode fuel host port w none = some (release_all, w)
  after_encode fuel host port w (some b) =
      after_client fuel b (socket_client_sync opening host port w)

  -- without a request the call gives up
  unfoldable pub dubbo_invoke_sync : ℕ → Bytes → Bytes → Option DubboReq → W → Option (Ended × W)
  dubbo_invoke_sync fuel host port none w = some (release_all, w)
  dubbo_invoke_sync fuel host port (some req) w =
      dubbo_encode req >>= λ b. after_encode fuel host port w b
