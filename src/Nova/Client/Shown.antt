-- ===== src/Nova/Client/Shown.antt =====
-- What nova_client/nova.c prints of an answer.
use wee.Base.{
  ℕ, ◌≡◌, ◌≢◌, refl, true, false, not, ◌&&◌, Option, none, some, List, [], ◌∷◌, ◌++◌, if_ind, ◌==◌,
  arith,
}
use native.Mathlib.Decide.{ℕ_discrete}
use wee.Base.Memory.{Bytes}
use wee.Base.Text.{codes}
use wee.Base.Printing.{
  Line, red, green, plain, bare, attachment, Json, c_str, str_eq, eq_of_str_eq, ne_of_str_eq,
}
use wee.Nova.{NovaHdr}
use wee.Nova.Layout.{attach_of}
use wee.Nova.Client.{
  Outcome, parsed_attach, show_attach, error_item, response_item, parsed_answer, show_answer,
}

module _ (json : Json) where
  open json use {J, parse, is_object, object_item, print, print_unformatted}

  -- What is printed of an attachment of n bytes: nothing where it is empty, "{}" or not JSON, and
  -- otherwise its value on one line.
  pub data AttachLines (n : ℕ) (attach : Bytes) : List Line → Type 0 where
    empty : n ≡ 0 → AttachLines n attach []
    braces : c_str attach ≡ codes "{}" → AttachLines n attach []
    unparsed : parse (c_str attach) ≡ none → AttachLines n attach []
    parsed :
        (j : J)
        → n ≢ 0
        → c_str attach ≢ codes "{}"
        → parse (c_str attach) ≡ some j
        → AttachLines n attach (attachment (print_unformatted j) ∷ [])

  -- What is printed of an answer, and what is returned: a text that is no JSON object as it is, with 1;
  -- otherwise, with 0, the value of error_response in red, or that of response in green where there is
  -- no error_response, or the whole answer where there is neither.
  pub data AnswerLine (resp : Bytes) : Line → ℕ → Type 0 where
    not_json : parse (c_str resp) ≡ none → AnswerLine resp (bare (c_str resp)) 1
    not_object :
        (j : J)
        → parse (c_str resp) ≡ some j
        → is_object j ≡ false
        → AnswerLine resp (bare (c_str resp)) 1
    error_response :
        (j item : J)
        → parse (c_str resp) ≡ some j
        → is_object j ≡ true
        → object_item j (codes "error_response") ≡ some item
        → AnswerLine resp (red (print item)) 0
    response :
        (j item : J)
        → parse (c_str resp) ≡ some j
        → is_object j ≡ true
        → object_item j (codes "error_response") ≡ none
        → object_item j (codes "response") ≡ some item
        → AnswerLine resp (green (print item)) 0
    neither :
        (j : J)
        → parse (c_str resp) ≡ some j
        → is_object j ≡ true
        → object_item j (codes "error_response") ≡ none
        → object_item j (codes "response") ≡ none
        → AnswerLine resp (plain (print j)) 0

  -- A call that prints the attachment of an answer, and behind it the answer.
  pub record Prints (h : NovaHdr) (resp : Bytes) (o : Outcome) : Type 0 where
    pub head : List Line
    pub line : Line
    pub lines : o.lines ≡ head ++ (line ∷ [])
    pub attached : AttachLines h.attach_len (attach_of h) head
    pub answered : AnswerLine resp line o.ret

  -- an attachment that is looked at
  parsed_attach-AttachLines :
      (n : ℕ) (attach : Bytes) (r : Option J)
      → n ≢ 0
      → c_str attach ≢ codes "{}"
      → parse (c_str attach) ≡ r
      → AttachLines n attach (parsed_attach json r)
  parsed_attach-AttachLines n attach none some_bytes other e = unparsed e
  parsed_attach-AttachLines n attach (some j) some_bytes other e = parsed j some_bytes other e

  pub show_attach-AttachLines :
      (hdr : NovaHdr) → AttachLines hdr.attach_len hdr.attach (show_attach json hdr)
  unfolding show_attach
  show_attach-AttachLines hdr =
      if_ind (AttachLines hdr.attach_len hdr.attach)
        (not (hdr.attach_len == 0) && not (str_eq (c_str hdr.attach) (codes "{}")))
        (λ both.
          parsed_attach-AttachLines hdr.attach_len hdr.attach (parse (c_str hdr.attach))
            (ground (arith, both))
            (ne_of_str_eq (c_str hdr.attach) (codes "{}") (ground (arith, both))) refl)
        (λ one. elim (ℕ_discrete hdr.attach_len 0) [
          | yes z ↦ empty z
          | no nz ↦ braces (eq_of_str_eq (c_str hdr.attach) (codes "{}") (ground (arith, nz, one)))
        ])

  module _ (resp : Bytes) (j : J) (e : parse (c_str resp) ≡ some j)
      (object : is_object j ≡ true) where
    response_item-AnswerLine :
        (r : Option J)
        → object_item j (codes "error_response") ≡ none
        → object_item j (codes "response") ≡ r
        → AnswerLine resp (response_item json j r) 0
    response_item-AnswerLine none no_error e' = neither j e object no_error e'
    response_item-AnswerLine (some item) no_error e' = response j item e object no_error e'

    error_item-AnswerLine :
        (r : Option J)
        → object_item j (codes "error_response") ≡ r
        → AnswerLine resp (error_item json j r) 0
    error_item-AnswerLine none e' =
        response_item-AnswerLine (object_item j (codes "response")) e' refl
    error_item-AnswerLine (some item) e' = error_response j item e object e'

  parsed_answer-AnswerLine :
      (resp : Bytes) (r : Option J)
      → parse (c_str resp) ≡ r
      → AnswerLine resp (parsed_answer json resp r).0 (parsed_answer json resp r).1
  parsed_answer-AnswerLine resp none e = not_json e
  parsed_answer-AnswerLine resp (some j) e =
      if_ind (λ (p : Line × ℕ). AnswerLine resp p.0 p.1) (not (is_object j))
        (λ other. not_object j e (ground (arith, other)))
        (λ object.
          error_item-AnswerLine resp j e (ground (arith, object))
            (object_item j (codes "error_response")) refl)

  pub show_answer-AnswerLine :
      (resp : Bytes) → AnswerLine resp (show_answer json resp).0 (show_answer json resp).1
  unfolding show_answer
  show_answer-AnswerLine resp = parsed_answer-AnswerLine resp (parse (c_str resp)) refl
