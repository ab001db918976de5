-- ===== src/Request/System.antt =====
-- The messages that internal/qodertransport/chat_request.go gives the cosy dialect.
use qoder_cpa.Prelude.{
  ℕ, List, [], ◌∷◌, ◌++◌, Option, none, some, Text, text_eq, ◌==◌, if◌then◌else◌, append_assoc,
  append-nil, ◌≡◌, refl, arith, inl, inr, Bool-cases, Option-cases, ap, sym, ◌∙◌,
}
use qoder_cpa.Request.{
  MessageWire, MessageIn, message_in, Decoder, message_text, is_system, append_system,
  cosy_messages,
}

abbrev text_or : Option Text → Text
text_or none = []
text_or (some t) = t

module _ (json : Decoder) where
  -- The texts of the system and developer messages, in order.
  unfoldable pub system_texts : List MessageWire → List Text
  system_texts [] = []
  system_texts (m ∷ ms) =
      if is_system m.role
      then text_or (message_text json m.content) ∷ system_texts ms
      else system_texts ms

  -- The other messages, in order, each with the text of its content.
  unfoldable pub other_messages : List MessageWire → List MessageIn
  other_messages [] = []
  other_messages (m ∷ ms) =
      if is_system m.role
      then other_messages ms
      else message_in m (text_or (message_text json m.content)) m.tool_calls ∷ other_messages ms

-- Each text on lines of its own, after a text.
unfoldable pub with_lines : List Text → Text
with_lines [] = []
with_lines (t ∷ ts) = (10 ∷ t) ++ with_lines ts

-- The texts on lines of their own; empty ones before the first that is not are dropped.
unfoldable pub lines : List Text → Text
unfolding with_lines
lines [] = []
lines (t ∷ ts) = if t == [] then lines ts else t ++ with_lines ts

-- What the builder holds after the texts.
written : Text → List Text → Text
written s [] = s
written s (t ∷ ts) = written (append_system s t) ts

written-with_lines :
    (c : ℕ) (s : Text) (ts : List Text) → written (c ∷ s) ts ≡ (c ∷ s) ++ with_lines ts
unfolding written with_lines
written-with_lines c s [] = sym (append-nil (c ∷ s))
written-with_lines c s (t ∷ ts) =
    written-with_lines c (s ++ 10 ∷ t) ts ∙ append_assoc (c ∷ s) (10 ∷ t) (with_lines ts)

written-lines : (ts : List Text) → written [] ts ≡ lines ts
unfolding written lines
written-lines [] = refl
written-lines ([] ∷ ts) = written-lines ts
written-lines ((c ∷ t) ∷ ts) = written-with_lines c t ts

-- What the loop gives from a builder on.
record IsGathered (json : Decoder) (ms : List MessageWire) (s : Text) (out : List MessageIn)
    (system : Text) : Type 0 where
  pub others : out ≡ other_messages json ms
  pub prompt : system ≡ written s (system_texts json ms)

gathered :
    (json : Decoder) (ms : List MessageWire) (s : Text) (out : List MessageIn) (system : Text)
    → cosy_messages json ms s ≡ some (out, system)
    → IsGathered json ms s out system
unfolding cosy_messages other_messages system_texts written
gathered json [] s out system h = record { others = ground arith; prompt = ground arith }
gathered json (m ∷ ms) s out system h = elim (Option-cases (message_text json m.content)) [
  | inl bad ↦ absurd (ground arith)
  | inr (content, read) ↦ elim (Bool-cases (is_system m.role)) [
    | inl sys ↦
        let r = gathered json ms (append_system s content) out system (ground arith) in
        record { others = rw sys r.others; prompt = r.prompt ∙ rw (sys, read) refl }
    | inr other ↦ elim (Option-cases (cosy_messages json ms s)) [
      | inl stop ↦ absurd (ground arith)
      | inr ((out', system'), at) ↦
          let r = gathered json ms s out' system' at in
          let first : message_in m content m.tool_calls ∷ out' ≡ out = ground arith in
          let second : system' ≡ system = ground arith in
          record {
            others =
                sym first
                ∙ rw (other, read) (ap (◌∷◌ (message_in m content m.tool_calls)) r.others);
            prompt = sym second ∙ r.prompt ∙ rw other refl;
          }
    ]
  ]
]

-- What the cosy dialect is sent of the messages is those that are not of the system or the developer,
-- in order, each with its text; the texts of those that are make up the prompt, each on a line of
-- its own, the empty ones before the first that is not empty left out.
pub cosy_messages_lem :
    (json : Decoder) (ms : List MessageWire) (out : List MessageIn) (system : Text)
    → cosy_messages json ms [] ≡ some (out, system)
    → (out ≡ other_messages json ms) × (system ≡ lines (system_texts json ms))
cosy_messages_lem json ms out system h =
    let r = gathered json ms [] out system h in
    (r.others, r.prompt ∙ written-lines (system_texts json ms))
