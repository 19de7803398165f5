-- ===== src/ComMessage.antt =====
-- src/com_message.hpp and src/com_message.cpp: a message and its header of four bytes.
-- A `std::string` and a byte array are lists of numbers; a byte is below 256, `size_t` has 64 bits.
pub mod Header
pub mod RoundTrip
use liboizys.Common.{
  ℕ, zero, suc, ◌+◌, ◌*◌, ◌/◌, ◌%◌, ◌^◌, ◌<◌, ◌≤◌, bit_and, bit_or, ◌||◌, ◌&&◌, Option, none, some,
  List, [], ◌∷◌, ltb, leb, ◌==◌, if◌then◌else◌, length, get_or, Result, ok, throws,
  invalid_message_size,
}

abbrev pub com_max_message_size : ℕ
com_max_message_size = 0x00ffffff

pub record ComMessage : Type 0 where
  pub header : List ℕ
  pub payload : List ℕ

-- `com_message()`.
abbrev pub com_message_default : ComMessage
com_message_default = record { header = 0 ∷ 0 ∷ 0 ∷ 0 ∷ []; payload = [] }

-- `static_cast<unsigned char>((size >> shift) & 0xff)`.
unfoldable pub header_byte : ℕ → ℕ → ℕ
header_byte size shift = bit_and (size / 2 ^ shift) 0xff % 256

-- `com_message(content)`.
unfoldable pub com_message : List ℕ → Result ComMessage
com_message content =
    if length content == 0 || ltb com_max_message_size (length content)
    then throws invalid_message_size
    else ok (record {
      header =
          0
          ∷ header_byte (length content) 16
          ∷ header_byte (length content) 8
          ∷ header_byte (length content) 0
          ∷ [];
      payload = content;
    })

-- One round of the loop of `parse_header`: `length <<= 8; length |= header[i] & 0xff`.
unfoldable pub parse_round : ℕ → ℕ → ℕ
parse_round length byte = bit_or (length * 2 ^ 8 % 2 ^ 64) (bit_and byte 0xff)

-- The loop, over the rounds that are left and the index `i`.
unfoldable pub parse_loop : List ℕ → ℕ → ℕ → ℕ → ℕ
unfolding parse_round
parse_loop header zero i length = length
parse_loop header (suc rounds) i length =
    parse_loop header rounds (i + 1) (parse_round length (get_or header i 0))

unfoldable pub check_length : ℕ → Option ℕ
check_length length = if ltb 0 length && leb length com_max_message_size then some length else none

-- `none` is the result `false`; the callers read the length only after `true`.
unfoldable pub parse_header : ComMessage → Option ℕ
unfolding parse_loop check_length
parse_header message =
    if get_or message.header 0 0 == 0 then check_length (parse_loop message.header 3 1 0) else none

abbrev pub IsByte : ℕ → Type 0
IsByte b = b < 256

-- The contents that can be sent.
abbrev pub IsSendable : List ℕ → Type 0
IsSendable content = (1 ≤ length content) × (length content ≤ com_max_message_size)
