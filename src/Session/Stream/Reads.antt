-- ===== src/Session/Stream/Reads.antt =====
-- What a session of src/asio_session.cpp does with one message of a stream, or with its end.
use liboizys.Common.{
  ℕ, zero, suc, ◌≤◌, ◌<◌, ◌≡◌, ◌≢◌, ◌⊎◌, refl, sym, ap, ◌∙◌, subst, true, false, some, List, [],
  ◌∷◌, length, take, drop, length-take, length-resize, arith,
}
use liboizys.ComMessage.Header.{big_endian, parse_header_iff}
use liboizys.Session.{
  Bytes, ErrorCode, bad_message, io_error, update, done, CloseHandler, header_read, payload_read,
  ReadOp, AsioSession, World,
}
use liboizys.Session.Methods.{
  on_session, run, exec, exec_with, close_intern, read_header, read_payload,
}
use liboizys.Session.Events.{
  received, read_failed, read_completes, step, handle, read_done, header_read_done,
  payload_read_done, fill_header, fill_payload,
}
use liboizys.Session.Closing.{close_intern_lem}
use liboizys.Session.Errors.{bad_header_closes}
use liboizys.Session.Receive.{IsWaiting, collect, reading, header_accepted, payload_received}
use liboizys.Session.Stream.{asked, feed}
use liboizys.Session.Stream.Feed.{feed_stops, feed_takes, feed_ends}

module _ {W : Type 0} (f : Bytes → W → W) (k : ErrorCode → W → W) where
  -- A client that is told of the end.
  abbrev pub report : CloseHandler W
  report err = update (k err) done

  -- The session is open, has both handlers, and waits for a header.
  abbrev pub IsReader : AsioSession W → Type 0
  IsReader s = (s.is_open ≡ true) × (s.onclose ≡ some report) × IsWaiting (collect f) s

  -- The messages one after the other, and then the end.
  abbrev pub told : List Bytes → ErrorCode → W → W
  told [] err c = k err c
  told (content ∷ contents) err c = told contents err (f content c)

  abbrev pub HasEnded : W → World W → Type 0
  HasEnded c w = (w.client ≡ c) × (w.session.is_open ≡ false) × (w.session.reads ≡ [])

  closed-HasEnded :
      (err : ErrorCode) (w : World W)
      → w.session.is_open ≡ true
      → w.session.onclose ≡ some report
      → w.session.reads ≡ []
      → HasEnded (k err w.client) (close_intern run err w).0
  unfolding run exec exec_with
  closed-HasEnded err w is_open e idle =
      rw (close_intern_lem err report w is_open e) (refl, ground arith, ground arith)

  failed-HasEnded :
      (eof : ℕ) (bytes : Bytes) (op : ReadOp) (w : World W)
      → w.session.reads ≡ op ∷ []
      → w.session.is_open ≡ true
      → w.session.onclose ≡ some report
      → HasEnded (k (io_error eof) w.client) (step (read_completes (read_failed eof bytes)) w)
  unfolding handle read_done header_read_done payload_read_done
  failed-HasEnded eof bytes header_read w r o e =
      subst
        (λ (ops : List ReadOp).
          HasEnded (k (io_error eof) w.client) (read_done ops (read_failed eof bytes) w).0)
        (sym r)
        (closed-HasEnded (io_error eof)
          (on_session (λ s. fill_header bytes (record s { reads = [] })) w) o e refl)
  failed-HasEnded eof bytes (payload_read n) w r o e =
      subst
        (λ (ops : List ReadOp).
          HasEnded (k (io_error eof) w.client) (read_done ops (read_failed eof bytes) w).0)
        (sym r)
        (closed-HasEnded (io_error eof)
          (on_session (λ s. fill_payload bytes (record s { reads = [] })) w) o e refl)

  -- The stream ends within what a read asks for.
  pub cut_off :
      (eof fuel n : ℕ) (bytes : Bytes) (op : ReadOp) (w : World W)
      → w.session.reads ≡ op ∷ []
      → w.session.is_open ≡ true
      → w.session.onclose ≡ some report
      → asked (op ∷ []) ≡ some n
      → length bytes < n
      → HasEnded (k (io_error eof) w.client) (feed eof (suc fuel) bytes w)
  cut_off eof fuel n bytes op w r o e wants short =
      let ended = failed-HasEnded eof bytes op w r o e in
      subst (λ (v : World W). HasEnded (k (io_error eof) w.client) v)
        (sym (
          feed_ends eof fuel n bytes w (ap asked r ∙ wants) short
          ∙ feed_stops eof fuel [] (step (read_completes (read_failed eof bytes)) w)
              (ap asked ended.2)))
        ended

  pub bad_header-HasEnded :
      (h0 h1 h2 h3 : ℕ) (w : World W)
      → h1 < 256
      → h2 < 256
      → h3 < 256
      → (h0 ≢ 0) ⊎ (big_endian h1 h2 h3 ≡ 0)
      → IsReader w.session
      → HasEnded
          (k bad_message w.client)
          (step (read_completes (received (h0 ∷ h1 ∷ h2 ∷ h3 ∷ []))) w)
  unfolding run exec exec_with
  bad_header-HasEnded h0 h1 h2 h3 w l1 l2 l3 bad (o, e, waiting) =
      rw (bad_header_closes h0 h1 h2 h3 (collect f) report w l1 l2 l3 bad waiting o e)
        (refl, ground arith, ground arith)

  pub short_stream :
      (eof fuel : ℕ) (bytes : Bytes) (w : World W)
      → IsReader w.session
      → length bytes < 4
      → length bytes < fuel
      → HasEnded (k (io_error eof) w.client) (feed eof fuel bytes w)
  short_stream eof zero bytes w reader short few = absurd (omega arith)
  short_stream eof (suc fuel) bytes w (o, e, waiting) short few =
      cut_off eof fuel 4 bytes header_read w waiting.1 o e refl short

  -- A header that the protocol allows has been read.
  abbrev pub after_header : ℕ → Bytes → World W → World W
  after_header size header w =
      on_session (read_payload size) (reading header w.session.message_to_read.payload w)

  pub good_header :
      (high middle low : ℕ) (w : World W)
      → high < 256
      → middle < 256
      → low < 256
      → 0 < big_endian high middle low
      → IsReader w.session
      → step (read_completes (received (0 ∷ high ∷ middle ∷ low ∷ []))) w
        ≡ after_header (big_endian high middle low) (0 ∷ high ∷ middle ∷ low ∷ []) w
  good_header high middle low w hh hm hl positive (o, e, waiting) =
      let size = big_endian high middle low in
      let old = w.session.message_to_read.payload in
      header_accepted (0 ∷ high ∷ middle ∷ low ∷ []) size w
        ((parse_header_iff 0 high middle low size old hh hm hl).1
          (refl, refl, omega arith, omega arith))
        waiting.1 (sym waiting.2)

  -- The session after a whole message.
  abbrev pub after_frame : Bytes → Bytes → World W → World W
  after_frame header content w = record {
    session = record w.session {
      message_to_read = record { header = header; payload = content };
      reads = header_read ∷ [];
    };
    client = f content w.client;
  }

  content_read :
      (size : ℕ) (header content : Bytes) (w : World W)
      → IsReader w.session
      → length content ≡ size
      → step (read_completes (received content)) (after_header size header w)
        ≡ after_frame header content w
  unfolding read_payload read_header run exec exec_with
  content_read size header content w (o, e, waiting) same =
      payload_received size (collect f) content (after_header size header w) waiting.0 refl
        (same ∙ sym (length-resize w.session.message_to_read.payload size 0))

  -- A whole message, that the stream has, is taken from it.
  pub frame_taken :
      (eof fuel high middle low : ℕ) (rest : Bytes) (w : World W)
      → high < 256
      → middle < 256
      → low < 256
      → 0 < big_endian high middle low
      → big_endian high middle low ≤ length rest
      → IsReader w.session
      → let size = big_endian high middle low in
        feed eof (suc (suc fuel)) (0 ∷ high ∷ middle ∷ low ∷ rest) w
        ≡ feed eof fuel
            (drop size rest)
            (after_frame (0 ∷ high ∷ middle ∷ low ∷ []) (take size rest) w)
  unfolding read_payload
  frame_taken eof fuel high middle low rest w hh hm hl positive enough reader =
      let size = big_endian high middle low in
      let header : Bytes = 0 ∷ high ∷ middle ∷ low ∷ [] in
      feed_takes eof (suc fuel) 4 (0 ∷ high ∷ middle ∷ low ∷ rest) w (ap asked reader.2.1)
        (omega arith)
      ∙ ap (λ (v : World W). feed eof (suc fuel) rest v)
          (good_header high middle low w hh hm hl positive reader)
      ∙ feed_takes eof fuel size rest (after_header size header w) refl enough
      ∙ ap (λ (v : World W). feed eof fuel (drop size rest) v)
          (content_read size header (take size rest) w reader (length-take size rest enough))
