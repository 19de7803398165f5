-- ===== src/ComMessage/RoundTrip.antt =====
-- src/com_message.cpp: the constructor and `parse_header` against one another.
use liboizys.Common.{
  ℕ, ◌/◌, ◌%◌, ◌<◌, ◌≡◌, refl, ap, ◌∙◌, arith, some, List, [], ◌∷◌, ◌↔◌, length, ok, throws,
  invalid_message_size, ltb, ◌==◌, All, ◌⊎◌, inl, inr, Bool-cases,
}
use liboizys.ComMessage.{
  ComMessage, com_message, parse_header, IsByte, IsSendable, com_max_message_size,
}
use liboizys.ComMessage.Header.{parse_header_iff, com_message-IsSendable}

com_message-cases :
    (content : List ℕ)
    → IsSendable content
      ⊎ ((¬ IsSendable content) × (com_message content ≡ throws invalid_message_size))
unfolding com_message
com_message-cases content = elim (Bool-cases (length content == 0)) [
  | inl empty ↦ inr (λ h. ground arith, ground arith)
  | inr full ↦ elim (Bool-cases (ltb com_max_message_size (length content))) [
    | inl large ↦ inr (λ h. ground arith, ground arith)
    | inr fits ↦ inl (ground arith, ground arith)
  ]
]

-- The constructor throws exactly on the empty content and on contents over 0xffffff bytes.
pub com_message-throws :
    (content : List ℕ)
    → (com_message content ≡ throws invalid_message_size) ↔ (¬ IsSendable content)
com_message-throws content = elim (com_message-cases content) [
  | inl h ↦ (λ e _. cc (com_message-IsSendable content h, e), λ n. absurd (n h))
  | inr (n, e) ↦ (λ _. n, λ _. e)
]

-- What the constructor accepted, it keeps as the payload, under four bytes of header.
pub com_message-fields :
    (content : List ℕ) (m : ComMessage)
    → com_message content ≡ ok m
    → IsSendable content × (m.payload ≡ content) × (length m.header ≡ 4) × All IsByte m.header
com_message-fields content m e = elim (com_message-cases content) [
  | inl h ↦ ground (arith, com_message-IsSendable content h)
  | inr (n, t) ↦ cc
]

pub com_message-payload :
    (content : List ℕ) (m : ComMessage) → com_message content ≡ ok m → com_message m.payload ≡ ok m
com_message-payload content m e = ap com_message (com_message-fields content m e).1 ∙ e

-- `parse_header` reads back the length of the content that the constructor accepted.
pub parse_header-com_message :
    (content : List ℕ) (m : ComMessage)
    → com_message content ≡ ok m
    → parse_header m ≡ some (length content)
parse_header-com_message content m e =
    let (h, _, _, _) = com_message-fields content m e in
    let n = length content in
    let read =
      (parse_header_iff 0 (n / 65536) (n / 256 % 256) (n % 256) n content (omega arith)
          (omega arith) (omega arith)).1
        (refl, omega arith, h.0, h.1) in
    ground (arith, com_message-IsSendable content h, read)

-- The header is canonical: where `parse_header` accepts four bytes and the payload has the length
-- that it returns, the constructor on that payload writes the same four bytes.
pub com_message-parse_header :
    (h0 h1 h2 h3 : ℕ) (payload : List ℕ)
    → h1 < 256
    → h2 < 256
    → h3 < 256
    → parse_header (record { header = h0 ∷ h1 ∷ h2 ∷ h3 ∷ []; payload = payload })
      ≡ some (length payload)
    → com_message payload ≡ ok (record { header = h0 ∷ h1 ∷ h2 ∷ h3 ∷ []; payload = payload })
com_message-parse_header h0 h1 h2 h3 payload l1 l2 l3 e =
    let facts = (parse_header_iff h0 h1 h2 h3 (length payload) payload l1 l2 l3).0 e in
    ground (arith, com_message-IsSendable payload)
