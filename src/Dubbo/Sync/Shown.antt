-- ===== src/Dubbo/Sync/Shown.antt =====
-- What dubbo_client/dubbo_client.c prints of a response to a call that waits for it.
use wee.Base.{
  ◌≡◌, ◌≢◌, refl, ◌⊎◌, inl, inr, true, false, not, ◌||◌, Option, none, some, List, [], ◌∷◌, length,
  get_or, if_ind, ◌==◌, arith,
}
use native.Mathlib.Decide.{ℕ_discrete}
use wee.Base.Memory.{Bytes}
use wee.Base.Text.{codes}
use wee.Base.Printing.{Line, red, green, Json, c_str}
use wee.Dubbo.Codec.{DubboHdr, DubboRes, get_res_status_desc, res_t_ok}
use wee.Dubbo.Codec.Response.Decode.{
  Reply, null, value, exception, failure, IsReply, reply_text, answer,
}
use wee.Dubbo.Sync.{text_lines, parse_text, data_lines, show_res}

module _ (json : Json) where
  open json use {J, parse, print}

  -- A text that the caller takes for JSON: it begins with a bracket, and is parsed.
  pub record IsJson (s : Bytes) (j : J) : Type 0 where
    pub opens : (get_or s 0 0 ≡ b'[') ⊎ (get_or s 0 0 ≡ b'{')
    pub parsed : parse (c_str s) ≡ some j

  -- one that it does not
  pub data IsPlain (s : Bytes) : Type 0 where
    no_bracket : get_or s 0 0 ≢ b'[' → get_or s 0 0 ≢ b'{' → IsPlain s
    unparsed : parse (c_str s) ≡ none → IsPlain s

  -- What is printed of a response: NULL in green for one without a value; the value of a text that is
  -- JSON, and any other text as it is, in green for a value or an exception; and the same in red for a
  -- failure, where the description of the status stands before what was JSON.
  pub data Prints (h : DubboHdr) : Reply → List Line → Type 0 where
    no_value : Prints h null (green (codes "NULL") ∷ [])
    value_json : (s : Bytes) (j : J) → IsJson s j → Prints h (value s) (green (print j) ∷ [])
    value_text : (s : Bytes) → IsPlain s → Prints h (value s) (green (c_str s) ∷ [])
    exception_json :
        (s : Bytes) (j : J) → IsJson s j → Prints h (exception s) (green (print j) ∷ [])
    exception_text : (s : Bytes) → IsPlain s → Prints h (exception s) (green (c_str s) ∷ [])
    failure_json :
        (s : Bytes) (j : J)
        → IsJson s j
        → Prints h (failure s) (red (c_str (get_res_status_desc h.status)) ∷ red (print j) ∷ [])
    failure_text : (s : Bytes) → IsPlain s → Prints h (failure s) (red (c_str s) ∷ [])

  -- What is parsed of a text decides what is printed of it.
  text_lines-cases :
      (P : List Line → Type 0) (res : DubboRes) (s : Bytes)
      → ((j : J) → IsJson s j → P (text_lines json res (c_str s) (some j)))
      → (IsPlain s → P (text_lines json res (c_str s) none))
      → P (text_lines json res (c_str s) (parse_text json s))
  text_lines-cases P res s is_json is_plain =
      if_ind (λ (r : Option J). P (text_lines json res (c_str s) r))
        (get_or s 0 0 == b'[' || get_or s 0 0 == b'{')
        (λ bracket. go bracket (parse (c_str s)) refl)
        (λ other. is_plain (no_bracket (ground (arith, other)) (ground (arith, other))))
    where
      bracket_of :
          (get_or s 0 0 == b'[' || get_or s 0 0 == b'{') ≡ true
          → (get_or s 0 0 ≡ b'[') ⊎ (get_or s 0 0 ≡ b'{')
      bracket_of e = elim (ℕ_discrete (get_or s 0 0) b'[') [
        | yes same ↦ inl same
        | no other ↦ inr (ground (arith, other, e))
      ]

      go :
          (get_or s 0 0 == b'[' || get_or s 0 0 == b'{') ≡ true
          → (r : Option J) → parse (c_str s) ≡ r
          → P (text_lines json res (c_str s) r)
      go e none unparsed_text = is_plain (unparsed unparsed_text)
      go e (some j) parsed_text = is_json j (record { opens = bracket_of e; parsed = parsed_text })

  data_lines-cases :
      (P : List Line → Type 0) (res : DubboRes) (s : Bytes)
      → length s ≢ 0
      → ((j : J) → IsJson s j → P (text_lines json res (c_str s) (some j)))
      → (IsPlain s → P (text_lines json res (c_str s) none))
      → P (data_lines json res (some s))
  data_lines-cases P res s filled is_json is_plain =
      if_ind P (not (length s == 0)) (λ e. text_lines-cases P res s is_json is_plain)
        (λ e. absurd (filled (ground (arith, e))))

  size_pos : (s : Bytes) → some s ≢ some [] → length s ≢ 0
  size_pos [] filled e = filled refl
  size_pos (x ∷ xs) filled e = omega (arith, e)

  module _ (h : DubboHdr) (ok : (h.status == res_t_ok) ≡ true) where
    value_lines :
        (s : Bytes) → some s ≢ some [] → Prints h (value s) (show_res json (answer h (value s)))
    unfolding show_res
    value_lines s filled =
        data_lines-cases (Prints h (value s)) (answer h (value s)) s (size_pos s filled)
          (λ j is_json. rw ok (value_json s j is_json)) (λ is_plain. rw ok (value_text s is_plain))

    exception_lines :
        (s : Bytes)
        → some s ≢ some []
        → Prints h (exception s) (show_res json (answer h (exception s)))
    unfolding show_res
    exception_lines s filled =
        data_lines-cases (Prints h (exception s)) (answer h (exception s)) s (size_pos s filled)
          (λ j is_json. rw ok (exception_json s j is_json))
          (λ is_plain. rw ok (exception_text s is_plain))

  failure_lines :
      (h : DubboHdr) (s : Bytes)
      → (h.status == res_t_ok) ≡ false
      → some s ≢ some []
      → Prints h (failure s) (show_res json (answer h (failure s)))
  unfolding show_res
  failure_lines h s bad filled =
      data_lines-cases (Prints h (failure s)) (answer h (failure s)) s (size_pos s filled)
        (λ j is_json. rw bad (failure_json s j is_json))
        (λ is_plain. rw bad (failure_text s is_plain))

  pub show_res-Prints :
      (h : DubboHdr) (r : Reply)
      → IsReply h r
      → reply_text r ≢ some []
      → Prints h r (show_res json (answer h r))
  unfolding show_res
  show_res-Prints h null ok filled = no_value
  show_res-Prints h (value s) ok filled = value_lines h (ground (arith, ok.0)) s filled
  show_res-Prints h (exception s) ok filled = exception_lines h (ground (arith, ok.0)) s filled
  show_res-Prints h (failure s) ok filled = failure_lines h s (ground (arith, ok.0)) filled
