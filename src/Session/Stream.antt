-- ===== src/Session/Stream.antt =====
-- The reads of src/asio_session.cpp from a stream of bytes that ends, and what the stream says in the
-- protocol of README.md.
pub mod Feed
pub mod Reads
pub mod Decodes
pub mod Frames
pub mod Delivery
use liboizys.Common.{
  ℕ, zero, suc, Bool, true, false, ◌&&◌, Option, none, some, List, [], ◌∷◌, ◌==◌, ltb, leb,
  if◌then◌else◌, length, take, drop,
}
use liboizys.ComMessage.Header.{big_endian}
use liboizys.Session.{
  Bytes, ErrorCode, bad_message, io_error, ReadOp, header_read, payload_read, AsioSession, World,
}
use liboizys.Session.Events.{received, read_failed, read_completes, step}

-- What the bytes of a stream say: the contents of the messages, and why the session ends. A header has
-- a zero and a length that is not zero; a stream that ends within a message ends with the error that
-- the socket gives for that. Each message takes one unit of fuel; there are fewer than bytes.
unfoldable pub decode : ℕ → ℕ → Bytes → List Bytes × ErrorCode
decode eof zero bytes = ([], io_error eof)
decode eof (suc fuel) [] = ([], io_error eof)
decode eof (suc fuel) (a ∷ []) = ([], io_error eof)
decode eof (suc fuel) (a ∷ b ∷ []) = ([], io_error eof)
decode eof (suc fuel) (a ∷ b ∷ c ∷ []) = ([], io_error eof)
decode eof (suc fuel) (reserved ∷ high ∷ middle ∷ low ∷ rest) =
    let size = big_endian high middle low in
    let more = decode eof fuel (drop size rest) in
    if reserved == 0 && ltb 0 size
    then (if leb size (length rest) then (take size rest ∷ more.0, more.1) else ([], io_error eof))
    else ([], bad_message)

-- How many bytes the read that is under way asks for.
abbrev pub asked : List ReadOp → Option ℕ
asked [] = none
asked (header_read ∷ ops) = some 4
asked (payload_read n ∷ ops) = some n

module _ {W : Type 0} where
  -- The socket gives the bytes of a stream to the reads of the session, as many as each asks for. At
  -- the end of the stream a read fails, with what is left. Each read takes one unit of fuel.
  unfoldable pub feed : ℕ → ℕ → Bytes → World W → World W
  feed eof zero bytes w = w
  feed eof (suc fuel) bytes w = elim (asked w.session.reads) [
    | none ↦ w
    | some n ↦ elim (leb n (length bytes)) [
      | true ↦ feed eof fuel (drop n bytes) (step (read_completes (received (take n bytes))) w)
      | false ↦ feed eof fuel [] (step (read_completes (read_failed eof bytes)) w)
    ]
  ]
