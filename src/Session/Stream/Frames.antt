-- ===== src/Session/Stream/Frames.antt =====
-- README.md, the protocol: what a stream of bytes says that is a beginning of frames.
use liboizys.Common.{
  ℕ, zero, suc, ◌+◌, ◌-◌, ◌/◌, ◌%◌, ◌≤◌, ◌<◌, ◌≡◌, refl, ap, ◌∙◌, true, false, List, [], ◌∷◌, ◌++◌,
  ltb, leb, if◌then◌else◌, Bool-cases, inl, inr, length, drop, take-append, drop-append,
  length-append, length-drop, map, All, arith,
}
use liboizys.ComMessage.{ComMessage}
use liboizys.ComMessage.Header.{big_endian, com_message-IsSendable}
use liboizys.ComMessage.RoundTrip.{com_message-fields}
use liboizys.Session.{Bytes, ErrorCode, io_error}
use liboizys.Session.Valid.{IsFramed}
use liboizys.Session.Wire.{frame, frames}
use liboizys.Session.Stream.{decode}

-- The messages whose whole frames are among the first bytes.
abbrev pub whole : ℕ → List ComMessage → List ComMessage
whole n [] = []
whole n (m ∷ ms) = if leb (length (frame m)) n then m ∷ whole (n - length (frame m)) ms else []

abbrev pub contents : List ComMessage → List Bytes
contents ms = map (λ (m : ComMessage). m.payload) ms

IsFramed-header :
    (m : ComMessage)
    → IsFramed m
    → (x y z : ℕ) × (m.header ≡ 0 ∷ x ∷ y ∷ z ∷ [])
      × (big_endian x y z ≡ length m.payload)
      × (0 < length m.payload)
IsFramed-header m framed =
    let (sendable, _, _, _) = com_message-fields m.payload m framed in
    let n = length m.payload in
    (
      n / 65536,
      n / 256 % 256,
      n % 256,
      cc (framed, com_message-IsSendable m.payload sendable),
      omega arith,
      omega arith,
    )

append_at :
    (front back bytes tail : Bytes)
    → bytes ++ tail ≡ front ++ back
    → length front ≤ length bytes
    → (bytes ≡ front ++ drop (length front) bytes) × (drop (length front) bytes ++ tail ≡ back)
append_at [] back bytes tail same long = (refl, same)
append_at (x ∷ front) back [] tail same long = absurd (omega arith)
append_at (x ∷ front) back (b ∷ bytes) tail same long =
    let (split, rest) = append_at front back bytes tail (cc) (omega arith) in (cc, rest)

decode_frame :
    (eof n x y z : ℕ) (p rest : Bytes)
    → big_endian x y z ≡ length p
    → 0 < length p
    → decode eof (suc n) (0 ∷ x ∷ y ∷ z ∷ (p ++ rest))
      ≡ (p ∷ (decode eof n rest).0, (decode eof n rest).1)
unfolding decode
decode_frame eof n x y z p rest size positive =
    let some_length : ltb 0 (length p) ≡ true = ground arith in
    let enough : leb (length p) (length (p ++ rest)) ≡ true =
      ground (arith, length-append p rest) in
    rw (size, some_length, enough, take-append p rest, drop-append p rest) refl

decode_short :
    (eof n x y z : ℕ) (p back bytes tail : Bytes)
    → big_endian x y z ≡ length p
    → 0 < length p
    → bytes ++ tail ≡ (0 ∷ x ∷ y ∷ z ∷ p) ++ back
    → length bytes < 4 + length p
    → decode eof n bytes ≡ ([], io_error eof)
unfolding decode
decode_short eof zero x y z p back bytes tail size positive same short = refl
decode_short eof (suc n) x y z p back [] tail size positive same short = refl
decode_short eof (suc n) x y z p back (a ∷ []) tail size positive same short = refl
decode_short eof (suc n) x y z p back (a ∷ b ∷ []) tail size positive same short = refl
decode_short eof (suc n) x y z p back (a ∷ b ∷ c ∷ []) tail size positive same short = refl
decode_short eof (suc n) x y z p back (a ∷ b ∷ c ∷ d ∷ rest) tail size positive same short =
    let ea : a ≡ 0 = cc in
    let eb : b ≡ x = cc in
    let ec : c ≡ y = cc in
    let ed : d ≡ z = cc in
    let some_length : ltb 0 (length p) ≡ true = ground arith in
    let cut : leb (length p) (length rest) ≡ false = ground arith in
    rw (ea, eb, ec, ed, size, some_length, cut) refl

decode-whole_from :
    (eof n : ℕ) (ms : List ComMessage) (bytes tail : Bytes)
    → All IsFramed ms
    → bytes ++ tail ≡ frames ms
    → length bytes ≤ n
    → decode eof n bytes ≡ (contents (whole (length bytes) ms), io_error eof)
unfolding decode
decode-whole_from eof zero [] bytes tail framed same few = refl
decode-whole_from eof (suc n) [] [] tail framed same few = refl
decode-whole_from eof (suc n) [] (b ∷ bytes) tail framed same few = cc
decode-whole_from eof n (m ∷ ms) bytes tail (e, framed) same few =
    let (x, y, z, header, size, positive) = IsFramed-header m e in
    let p = m.payload in
    let head : frame m ≡ 0 ∷ x ∷ y ∷ z ∷ p = ap (λ (h : Bytes). h ++ p) header in
    let same' : bytes ++ tail ≡ (0 ∷ x ∷ y ∷ z ∷ p) ++ frames ms =
      same ∙ ap (λ (h : Bytes). h ++ frames ms) head in
    let long : length (frame m) ≡ 4 + length p = ap (λ (h : Bytes). length h) head ∙ omega arith in
    elim (Bool-cases (leb (length (frame m)) (length bytes))) [
      | inr short ↦
          rw short
            (decode_short eof n x y z p (frames ms) bytes tail size positive same' (ground arith))
      | inl enough ↦
          let fits : 4 + length p ≤ length bytes = ground arith in
          let (split, rest) =
            append_at (0 ∷ x ∷ y ∷ z ∷ p) (frames ms) bytes tail same' (omega arith) in
          let left = drop (length (0 ∷ x ∷ y ∷ z ∷ p)) bytes in
          let size_left : length left ≡ length bytes - length (frame m) =
            omega (arith, length-drop (length (0 ∷ x ∷ y ∷ z ∷ p)) bytes) in
          let k = n - 1 in
          let fuel : n ≡ suc k = omega arith in
          rw enough (
            ap (λ (i : ℕ). decode eof i bytes) fuel
            ∙ ap (λ (bs : Bytes). decode eof (suc k) bs) split
            ∙ decode_frame eof k x y z p left size positive
            ∙ ap (λ (r : List Bytes × ErrorCode). (p ∷ r.0, r.1))
                (decode-whole_from eof k ms left tail framed rest (omega arith))
            ∙ ap (λ (i : ℕ). (p ∷ contents (whole i ms), io_error eof)) size_left)
    ]

-- Bytes that are a beginning of frames say the contents of the messages whose whole frames they have,
-- and that the stream has ended.
pub decode-whole :
    (eof : ℕ) (ms : List ComMessage) (bytes tail : Bytes)
    → All IsFramed ms
    → bytes ++ tail ≡ frames ms
    → decode eof (length bytes) bytes ≡ (contents (whole (length bytes) ms), io_error eof)
decode-whole eof ms bytes tail framed same =
    decode-whole_from eof (length bytes) ms bytes tail framed same (omega arith)

pub whole-front :
    (n : ℕ) (ms : List ComMessage) → (rest : List ComMessage) × (ms ≡ whole n ms ++ rest)
whole-front n [] = ([], refl)
whole-front n (m ∷ ms) =
    let (rest, same) = whole-front (n - length (frame m)) ms in
    elim (Bool-cases (leb (length (frame m)) n)) [
      | inl fits ↦ (rest, rw fits (ap (◌∷◌ m) same))
      | inr cut ↦ (m ∷ ms, rw cut refl)
    ]

-- All bytes have come: every message is whole.
pub whole_all : (ms : List ComMessage) → whole (length (frames ms)) ms ≡ ms
whole_all [] = refl
whole_all (m ∷ ms) =
    let long = length-append (frame m) (frames ms) in
    let fits : leb (length (frame m)) (length (frames (m ∷ ms))) ≡ true = ground (arith, long) in
    let left : length (frames (m ∷ ms)) - length (frame m) ≡ length (frames ms) =
      omega (arith, long) in
    rw (fits, left) (ap (◌∷◌ m) (whole_all ms))
