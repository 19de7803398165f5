-- ===== src/Session/Stream/Delivery.antt =====
-- src/asio_session.cpp: two sessions over one connection, which may break at any byte.
use liboizys.Common.{ℕ, ◌+◌, ◌≡◌, sym, subst, Bool, List, [], ◌∷◌, ◌++◌, length, All, All-append}
use liboizys.ComMessage.{ComMessage, IsByte}
use liboizys.ComMessage.RoundTrip.{com_message-fields}
use liboizys.Session.{Bytes, ErrorCode, io_error, create_session, World}
use liboizys.Session.Events.{Event, steps}
use liboizys.Session.Valid.{IsFramed}
use liboizys.Session.Wire.{frame, frames, unsent}
use liboizys.Session.Wire.Trace.{wire, NoWriteFails, all_entered, wire-frames}
use liboizys.Session.Stream.{feed}
use liboizys.Session.Stream.Decodes.{feed-decode}
use liboizys.Session.Stream.Reads.{IsReader, HasEnded, told}
use liboizys.Session.Stream.Frames.{contents, whole, whole-front, decode-whole}

abbrev pub IsText : ComMessage → Type 0
IsText m = All IsByte m.payload

frames-IsByte : (ms : List ComMessage) → All IsFramed ms → All IsText ms → All IsByte (frames ms)
frames-IsByte [] framed texts = tt
frames-IsByte (m ∷ ms) (e, framed) (text, texts) =
    All-append IsByte (frame m) (frames ms)
      (All-append IsByte m.header m.payload (com_message-fields m.payload m e).3 text)
      (frames-IsByte ms framed texts)

All-front :
    {A : Type 0} (P : A → Type 0) (front back : List A) → All P (front ++ back) → All P front
All-front P [] back held = tt
All-front P (a ∷ front) back (first, rest) = (first, All-front P front back rest)

-- A created session over any events without a failed write, whose client only sends bytes; and a
-- session that waits for a header, with a client that takes each message and is told of the end, and
-- that reads what the first has put on the wire, and then the end of the stream, wherever that is. The
-- client of the second gets exactly the contents of the messages whose whole frames were put on the
-- wire, a beginning of those that were queued, each once and in order; then it is told of the end,
-- and the session is closed.
pub delivers :
    {V W : Type 0} (f : Bytes → W → W) (k : ErrorCode → W → W) (eof : ℕ) (sock : Bool) (client : V)
    (es : List (Event V)) (receiver : World W)
    → NoWriteFails es
    → All IsText (all_entered es (record { session = create_session sock; client = client }))
    → IsReader f k receiver.session
    → let sender : World V = record { session = create_session sock; client = client } in
      let bytes = wire es sender in
      let sent = all_entered es sender in
      let front = whole (length bytes) sent in
      ((rest : List ComMessage) × (sent ≡ front ++ rest))
      × HasEnded f k
          (told f k (contents front) (io_error eof) receiver.client)
          (feed eof (length bytes + 1) bytes receiver)
delivers f k eof sock client es receiver writes texts reader =
    let sender : World _ = record { session = create_session sock; client = client } in
    let bytes = wire es sender in
    let sent = all_entered es sender in
    let tail = unsent (steps es sender).session.write_queue (steps es sender).session.writes in
    let (framed, same) = wire-frames sock client es writes in
    let good : All IsByte bytes =
      All-front IsByte bytes tail
        (subst (All IsByte) (sym same) (frames-IsByte sent framed texts)) in
    (
      whole-front (length bytes) sent,
      subst
          (λ (r : List Bytes × ErrorCode).
            HasEnded f k (told f k r.0 r.1 receiver.client)
              (feed eof (length bytes + 1) bytes receiver))
          (decode-whole eof sent bytes tail framed same)
          (feed-decode f k eof bytes receiver good reader),
    )
