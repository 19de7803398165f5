-- ===== src/ComMessage/Header.antt =====
-- What src/com_message.cpp writes to a header and reads from it, in plain arithmetic.
use liboizys.Common.{
  ℕ, ◌+◌, ◌*◌, ◌/◌, ◌%◌, ◌^◌, ◌<◌, ◌≤◌, ◌≡◌, ◌↔◌, bit_and, arith, some, List, [], ◌∷◌, length, ok,
}
use liboizys.Common.Bits.{low_byte, join_byte}
use liboizys.ComMessage.{
  ComMessage, com_message, header_byte, parse_round, parse_loop, check_length, parse_header,
  IsSendable, com_max_message_size,
}

-- Three bytes in network byte order.
abbrev pub big_endian : ℕ → ℕ → ℕ → ℕ
big_endian high middle low = high * 65536 + middle * 256 + low

pub header_byte_lem : (size shift : ℕ) → header_byte size shift ≡ size / 2 ^ shift % 256
unfolding header_byte
header_byte_lem size shift = omega (arith, low_byte (size / 2 ^ shift))

pub parse_round_lem :
    (length byte : ℕ) → length < 65536 → byte < 256 → parse_round length byte ≡ length * 256 + byte
unfolding parse_round
parse_round_lem length byte hl hb =
    let fits : length * 2 ^ 8 % 2 ^ 64 ≡ length * 256 = omega arith in
    let mask : bit_and byte 0xff ≡ byte = omega (arith, low_byte byte) in
    rw (fits, mask) (join_byte length byte hb)

pub parse_loop_lem :
    (reserved high middle low : ℕ)
    → high < 256
    → middle < 256
    → low < 256
    → parse_loop (reserved ∷ high ∷ middle ∷ low ∷ []) 3 1 0 ≡ big_endian high middle low
unfolding parse_loop
parse_loop_lem reserved high middle low hh hm hl =
    rw
      (
        parse_round_lem 0 high (omega arith) hh,
        parse_round_lem (0 * 256 + high) middle (omega arith) hm,
        parse_round_lem ((0 * 256 + high) * 256 + middle) low (omega arith) hl,
      )
      (omega arith)

pub check_length_lem :
    (length : ℕ) → length ≤ com_max_message_size → 0 < length → check_length length ≡ some length
unfolding check_length
check_length_lem length fits positive = ground arith

pub parse_header-bounds :
    (m : ComMessage) (n : ℕ) → parse_header m ≡ some n → (1 ≤ n) × (n ≤ com_max_message_size)
unfolding parse_header check_length
parse_header-bounds m n e = ground arith

-- A header of four bytes is accepted exactly when the reserved byte is zero and the length, read in
-- network byte order, is not; the length is then that number, and is within the limit.
pub parse_header_iff :
    (reserved high middle low n : ℕ) (payload : List ℕ)
    → high < 256
    → middle < 256
    → low < 256
    → (parse_header (record { header = reserved ∷ high ∷ middle ∷ low ∷ []; payload = payload })
        ≡ some n)
      ↔ ((reserved ≡ 0) × (n ≡ big_endian high middle low) × (1 ≤ n) × (n ≤ com_max_message_size))
unfolding parse_header check_length
parse_header_iff reserved high middle low n payload hh hm hl = (
  ground (arith, parse_loop_lem reserved high middle low hh hm hl),
  ground (arith, parse_loop_lem reserved high middle low hh hm hl),
)

-- The constructor accepts exactly the contents of 1 to 0xffffff bytes; it keeps the content and
-- writes a zero and the length in network byte order.
pub com_message-IsSendable :
    (content : List ℕ)
    → IsSendable content
    → com_message content
      ≡ ok (record {
        header =
            0
            ∷ (length content / 65536)
            ∷ (length content / 256 % 256)
            ∷ (length content % 256)
            ∷ [];
        payload = content;
      })
unfolding com_message
com_message-IsSendable content h = ground (
  arith,
  header_byte_lem (length content) 16,
  header_byte_lem (length content) 8,
  header_byte_lem (length content) 0,
)
