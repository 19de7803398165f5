-- ===== src/Session/Receive.antt =====
-- How src/asio_session.cpp takes frames off the wire and hands their payloads to the client.
use liboizys.Common.{
  ℕ, ◌≡◌, ◌≢◌, refl, sym, ap, ◌∙◌, subst, some, none, List, [], ◌∷◌, ok, arith, length, All,
  overwrite_full, length-resize,
}
use liboizys.ComMessage.{ComMessage, com_message, parse_header}
use liboizys.ComMessage.RoundTrip.{parse_header-com_message, com_message-fields}
use liboizys.Session.{
  Bytes, bad_message, done, update, MessageHandler, ReadOp, header_read, payload_read, AsioSession,
  World, Effect, finished, stuck,
}
use liboizys.Session.Methods.{
  on_session, returned, resume, swallow, run, read_header, read_payload, close_intern, exec_with,
  exec,
}
use liboizys.Session.Nesting.{exec-run}
use liboizys.Session.Events.{
  received, Event, read_completes, handle, step, steps, read_done, header_read_done,
  payload_read_done, accept_header, deliver,
}
use liboizys.Session.Valid.{IsFramed}

parse_header-header :
    (header p q : Bytes)
    → parse_header (record { header = header; payload = p })
      ≡ parse_header (record { header = header; payload = q })
unfolding parse_header
parse_header-header header p q = refl

module _ {W : Type 0} where
  -- The session has a message handler and waits for a header.
  abbrev pub IsWaiting : MessageHandler W → AsioSession W → Type 0
  IsWaiting h s =
      (s.onmessage ≡ some h) × (s.reads ≡ header_read ∷ []) × (length s.message_to_read.header ≡ 4)

  accept_header-some :
      (n : ℕ) (w : World W)
      → parse_header w.session.message_to_read ≡ some n
      → accept_header w ≡ (on_session (read_payload n) w, returned)
  unfolding accept_header
  accept_header-some n w e = ground arith

  pub accept_header-none :
      (w : World W)
      → parse_header w.session.message_to_read ≡ none
      → accept_header w ≡ close_intern run bad_message w
  unfolding accept_header
  accept_header-none w e = ground arith

  pub deliver-some :
      (h : MessageHandler W) (w : World W)
      → w.session.onmessage ≡ some h
      → deliver w ≡ swallow (run (h w.session.message_to_read.payload) w)
  unfolding deliver
  deliver-some h w e = ground arith

  -- The session with what it has read, and no read under way.
  abbrev pub reading : Bytes → Bytes → World W → World W
  reading header payload = on_session (λ s. record s {
    message_to_read = record { header = header; payload = payload };
    reads = [];
  })

  -- A header that is accepted has been read.
  pub header_accepted :
      (header : Bytes) (n : ℕ) (w : World W)
      → parse_header (record { header = header; payload = w.session.message_to_read.payload })
        ≡ some n
      → w.session.reads ≡ header_read ∷ []
      → length header ≡ length w.session.message_to_read.header
      → step (read_completes (received header)) w
        ≡ on_session (read_payload n) (reading header w.session.message_to_read.payload w)
  unfolding handle read_done header_read_done
  header_accepted header n w parsed r same =
      let old = w.session.message_to_read in
      ap (λ (ops : List ReadOp). (read_done ops (received header) w).0) r
      ∙ ap (λ (x : Bytes). (accept_header (reading x old.payload w)).0)
          (overwrite_full header old.header same)
      ∙ ap (λ (x : Effect W (Unit {0})). x.0)
          (accept_header-some n (reading header old.payload w) parsed)

  -- The first event of a frame: its header has been read.
  pub header_received :
      (content : Bytes) (m : ComMessage) (w : World W)
      → com_message content ≡ ok m
      → w.session.reads ≡ header_read ∷ []
      → length w.session.message_to_read.header ≡ 4
      → step (read_completes (received m.header)) w
        ≡ on_session
            (read_payload (length content))
            (reading m.header w.session.message_to_read.payload w)
  header_received content m w e r l =
      let old = w.session.message_to_read in
      let (_, p, four, _) = com_message-fields content m e in
      let parsed : parse_header (record { header = m.header; payload = old.payload })
          ≡ some (length content) =
        parse_header-header m.header old.payload m.payload ∙ parse_header-com_message content m e in
      header_accepted m.header (length content) w parsed r (four ∙ sym l)

  pub one_step :
      (e : Effect W (Unit {0})) (f : World W → World W)
      → e.1 ≢ stuck
      → (resume (swallow e) (λ _ v. (f v, returned))).0 ≡ f e.0
  one_step (v, finished r) f n = refl
  one_step (v, stuck) f n = absurd (n refl)

  -- The second event: its payload has been read, into a buffer of its length.
  pub payload_received :
      (n : ℕ) (h : MessageHandler W) (content : Bytes) (w : World W)
      → w.session.onmessage ≡ some h
      → w.session.reads ≡ payload_read n ∷ []
      → length content ≡ length w.session.message_to_read.payload
      → step (read_completes (received content)) w
        ≡ on_session read_header
            (run (h content) (reading w.session.message_to_read.header content w)).0
  unfolding handle read_done payload_read_done
  payload_received n h content w o r l =
      let old = w.session.message_to_read in
      let filled = reading old.header content w in
      ap (λ (ops : List ReadOp). (read_done ops (received content) w).0) r
      ∙ ap
          (λ (x : Bytes).
            (resume (deliver (reading old.header x w))
              (λ _ v. (on_session read_header v, returned))).0)
          (overwrite_full content old.payload l)
      ∙ ap (λ (x : Effect W (Unit {0})). (resume x (λ _ v. (on_session read_header v, returned))).0)
          (deliver-some h filled o)
      ∙ one_step (run (h content) filled) (on_session read_header) (exec-run 0 (h content) filled).1

  -- A session that waits for a header and reads the header and the payload of a message runs its
  -- message handler once, with the payload of the message, whatever the handler does or throws; then
  -- it asks for the next header.
  pub receive_frame :
      (content : Bytes) (m : ComMessage) (h : MessageHandler W) (w : World W)
      → com_message content ≡ ok m
      → IsWaiting h w.session
      → steps (read_completes (received m.header) ∷ read_completes (received m.payload) ∷ []) w
        ≡ on_session read_header
            (run (h content) (on_session (λ s. record s { message_to_read = m; reads = [] }) w)).0
  unfolding read_payload
  receive_frame content m h w e (o, r, l) =
      let p = (com_message-fields content m e).1 in
      let waiting =
        on_session (read_payload (length content))
          (reading m.header w.session.message_to_read.payload w) in
      ap (λ (x : World W). step (read_completes (received m.payload)) x)
        (header_received content m w e r l)
      ∙ ap (λ (x : Bytes). step (read_completes (received x)) waiting) p
      ∙ payload_received (length content) h content waiting o refl
          (sym (length-resize w.session.message_to_read.payload (length content) 0))
      ∙ ap (λ (x : Bytes). on_session read_header (run (h content) (reading m.header x w)).0)
          (sym p)

  -- The read events of a sequence of frames.
  abbrev pub deliveries : List ComMessage → List (Event W)
  deliveries [] = []
  deliveries (m ∷ ms) =
      read_completes (received m.header) ∷ read_completes (received m.payload) ∷ deliveries ms

  -- A client that takes each message into its state.
  abbrev pub collect : (Bytes → W → W) → MessageHandler W
  collect f message = update (f message) done

  abbrev pub collected : (Bytes → W → W) → List ComMessage → W → W
  collected f [] c = c
  collected f (m ∷ ms) c = collected f ms (f m.payload c)

  pub collect_frame :
      (f : Bytes → W → W) (m : ComMessage) (w : World W)
      → IsFramed m
      → IsWaiting (collect f) w.session
      → steps (deliveries (m ∷ [])) w ≡ record {
        session = record w.session { message_to_read = m };
        client = f m.payload w.client;
      }
  unfolding run exec exec_with read_header
  collect_frame f m w e h =
      receive_frame m.payload m (collect f) w e h
      ∙ ap
          (λ (x : List ReadOp). record {
            session = record w.session { message_to_read = m; reads = x };
            client = f m.payload w.client;
          })
          (sym h.1)

  -- The client has come to the given state, and the session, which has changed its message buffer
  -- only, waits for a header.
  abbrev pub HasCollected : (Bytes → W → W) → W → AsioSession W → World W → Type 0
  HasCollected f c s w =
      (w.client ≡ c)
      × IsWaiting (collect f) w.session
      × ((b : ComMessage) × (w.session ≡ record s { message_to_read = b }))

  -- A session that waits for a header takes any sequence of frames off the wire: its client gets
  -- exactly their payloads, in their order, and the session waits for a header again, with no change
  -- but that of its message buffer.
  pub receive_frames :
      (f : Bytes → W → W) (ms : List ComMessage) (w : World W)
      → All IsFramed ms
      → IsWaiting (collect f) w.session
      → HasCollected f (collected f ms w.client) w.session (steps (deliveries ms) w)
  receive_frames f [] w a h = (refl, h, (w.session.message_to_read, refl))
  receive_frames f (m ∷ ms) w (e, a) h =
      let next : World W = record {
        session = record w.session { message_to_read = m };
        client = f m.payload w.client;
      } in
      subst
        (λ v. HasCollected f (collected f (m ∷ ms) w.client) w.session (steps (deliveries ms) v))
        (sym (collect_frame f m w e h))
        (receive_frames f ms next a (h.0, h.1, (com_message-fields m.payload m e).2))
