-- ===== src/Dubbo/SyncTests.antt =====
-- A call that waits for its answer, on the small connection of Net/Sample.
use wee.Base.{ℕ, ◌≡◌, refl, Bool, true, false, Option, none, some, [], ◌∷◌}
use wee.Base.Memory.{Bytes}
use wee.Base.Text.{codes}
use wee.Net.Sample.{Link, coming}
use wee.Dubbo.Codec.{DubboReq, DubboHdr, get_res_status_desc}
use wee.Dubbo.Codec.Header.{packet}
use wee.Dubbo.Codec.Response.Decode.{Reply, value, failure, answer, reply_body}
use wee.Dubbo.ResponseTests.{ok_hdr}
use wee.Base.Printing.{Json, red, green}
use wee.Dubbo.Sync.{show_res}

abbrev req : DubboReq
req = record {
  reqid = 1;
  is_twoway = true;
  is_evt = false;
  service = codes "com.Demo";
  method = codes "hi";
  argv_method = codes "hi";
  argv_args = codes "[]";
  attach = none;
  payload = [];
}

abbrev list_text : Bytes
list_text = codes "[1]"

abbrev list_reply : Reply
list_reply = value list_text

abbrev list_hdr : DubboHdr
list_hdr = record ok_hdr { body_sz = 5 }

abbrev reply : Bytes
reply = packet list_hdr (reply_body list_reply)

-- every text is JSON, and its value is the text
abbrev texts : Json
texts = record {
  J = Bytes;
  parse = λ s. some s;
  is_object = λ s. false;
  object_item = λ s name. none;
  print = λ s. s;
  print_unformatted = λ s. s;
}

-- one line for each kind of response
shown_value : show_res texts (answer ok_hdr (value list_text)) ≡ green list_text ∷ []
unfolding show_res
shown_value = refl

shown_failure :
    show_res texts (answer (record ok_hdr { status = 40 }) (failure list_text))
    ≡ red (codes "BAD REQUEST") ∷ red list_text ∷ []
unfolding show_res get_res_status_desc
shown_failure = refl

shown_text :
    show_res texts (answer (record ok_hdr { status = 40 }) (failure (codes "no")))
    ≡ red (codes "no") ∷ []
unfolding show_res
shown_text = refl

-- all that the peer sends in one reading
abbrev readv_all : ℕ → ℕ → Link → Option Bytes × Link
readv_all fd n w = (some (coming reply w), w)

abbrev start : Link
start = record { sent = []; heard = []; noise = 2; opens = 0 ∷ [] }

abbrev connected : Link
connected = record start { opens = 3 ∷ 0 ∷ [] }

abbrev all_good : ℕ → Bool
all_good o = true
