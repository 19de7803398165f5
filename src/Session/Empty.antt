-- ===== src/Session/Empty.antt =====
-- src/asio_session.cpp: message handlers that are empty functions.
use mathlib.Core.List.{append_assoc}
use liboizys.Common.{
  Option, sym, length, length-resize, overwrite_full, All, ℕ, zero, suc, ◌≡◌, ap, ◌∙◌, ◌++◌, refl,
  none, some, List, [], ◌∷◌, ok, throws,
}
use liboizys.ComMessage.{ComMessage}
use liboizys.ComMessage.RoundTrip.{com_message-fields}
use liboizys.Session.{
  AsioSession, Bytes, payload_read, Script, done, raise, sets_onmessage, sets_empty_onmessage,
  MessageHandler, ReadOp, header_read, World, Effect,
}
use liboizys.Session.Methods.{
  resume, read_payload, run, exec, exec_with, returned, on_session, read_header,
}
use liboizys.Session.Events.{
  client_runs, read_completes, received, step, steps, handle, read_done, payload_read_done, deliver,
}
use liboizys.Session.Clients.{deliver-none}
use liboizys.Session.Valid.{IsFramed}
use liboizys.Session.Receive.{reading, header_received, deliveries}
use liboizys.Session.Branches.{set_onmessage_new}

-- Client code that sets a number of empty message handlers and then the given one; an exception ends it.
abbrev pub sets_empties_and : {W : Type 0} → MessageHandler W → ℕ → Script W
sets_empties_and g zero = sets_onmessage g (λ r. elim r [ ok x ↦ done | throws e ↦ raise e ])
sets_empties_and g (suc n) =
    let rest = sets_empties_and g n in
    sets_empty_onmessage (λ r. elim r [ ok x ↦ rest | throws e ↦ raise e ])

abbrev pub header_reads : ℕ → List ReadOp
header_reads zero = []
header_reads (suc n) = header_read ∷ header_reads n

module _ {W : Type 0} (g : MessageHandler W) where
  -- On a session without a message handler, client code may set any number of empty message handlers and
  -- then one of its own: no call throws, the last handler is set, and each of the calls has started the
  -- read of a header, so that one more of them than there were empty handlers is under way at once,
  -- after the reads that were there.
  pub set_onmessage-empties :
      (n : ℕ) (w : World W)
      → w.session.onmessage ≡ none
      → run (sets_empties_and g n) w ≡ (
        on_session
            (λ s. record s { onmessage = some g; reads = s.reads ++ header_reads (suc n) })
            w,
        returned,
      )
  unfolding run exec exec_with read_header
  set_onmessage-empties zero w e = rw (set_onmessage_new (some g) w e) refl
  set_onmessage-empties (suc n) w e = rw (set_onmessage_new none w e) (
      set_onmessage-empties n (on_session (λ s. read_header (record s { onmessage = none })) w) refl
      ∙ ap (λ rs. (on_session (λ s. record s { onmessage = some g; reads = rs }) w, returned))
          (append_assoc w.session.reads (header_read ∷ []) (header_reads (suc n))))

module _ {W : Type 0} where
  -- The session waits for a header and has no message handler.
  abbrev HearsNothing : AsioSession W → Type 0
  HearsNothing s =
      (s.onmessage ≡ none) × (s.reads ≡ header_read ∷ []) × (length s.message_to_read.header ≡ 4)

  payload_dropped :
      (n : ℕ) (content : Bytes) (w : World W)
      → w.session.onmessage ≡ none
      → w.session.reads ≡ payload_read n ∷ []
      → length content ≡ length w.session.message_to_read.payload
      → step (read_completes (received content)) w
        ≡ on_session read_header (reading w.session.message_to_read.header content w)
  unfolding handle read_done payload_read_done
  payload_dropped n content w o r l =
      let old = w.session.message_to_read in
      ap (λ (ops : List ReadOp). (read_done ops (received content) w).0) r
      ∙ ap
          (λ (x : Bytes).
            (resume (deliver (reading old.header x w))
              (λ _ v. (on_session read_header v, returned))).0)
          (overwrite_full content old.payload l)
      ∙ ap (λ (x : Effect W (Unit {0})). (resume x (λ _ v. (on_session read_header v, returned))).0)
          (deliver-none (reading old.header content w) o)

  -- The session has changed its message buffer only, and waits for a header.
  abbrev pub HasDropped : World W → World W → Type 0
  HasDropped w v =
      (b : ComMessage) × (v
        ≡ on_session (λ s. record s { message_to_read = b; reads = header_read ∷ [] }) w)

  frame_dropped :
      (m : ComMessage) (w : World W)
      → IsFramed m
      → HearsNothing w.session
      → steps (read_completes (received m.header) ∷ read_completes (received m.payload) ∷ []) w
        ≡ on_session (λ s. record s { message_to_read = m; reads = header_read ∷ [] }) w
  unfolding read_payload read_header
  frame_dropped m w e (o, r, l) =
      let waiting =
        on_session (read_payload (length m.payload))
          (reading m.header w.session.message_to_read.payload w) in
      ap (λ (x : World W). step (read_completes (received m.payload)) x)
        (header_received m.payload m w e r l)
      ∙ payload_dropped (length m.payload) m.payload waiting o refl
          (sym (length-resize w.session.message_to_read.payload (length m.payload) 0))

  frames_dropped :
      (ms : List ComMessage) (w : World W)
      → All IsFramed ms
      → HearsNothing w.session
      → HasDropped w (steps (deliveries ms) w)
  frames_dropped [] w a (o, r, l) = (
    w.session.message_to_read,
    ap (λ (x : List ReadOp). on_session (λ s. record s { reads = x }) w) r,
  )
  frames_dropped (m ∷ ms) w (e, a) h =
      let next = on_session (λ s. record s { message_to_read = m; reads = header_read ∷ [] }) w in
      let four = (com_message-fields m.payload m e).2 in
      let (b, same) = frames_dropped ms next a (h.0, refl, four) in
      (b, ap (steps (deliveries ms)) (frame_dropped m w e h) ∙ same)

  starts_deaf :
      (w : World W)
      → w.session.onmessage ≡ none
      → w.session.reads ≡ []
      → step (client_runs (sets_empty_onmessage (λ _. done))) w
        ≡ on_session (λ s. record s { reads = header_read ∷ [] }) w
  unfolding handle run exec exec_with read_header
  starts_deaf w o idle =
      let call = set_onmessage_new none w o in
      ap (λ (x : Effect W (Unit {0})). (resume x (λ _ v. (v, returned))).0) call
      ∙ ap
          (λ (rs : List ReadOp).
            on_session (λ s. record s { onmessage = none; reads = rs ++ header_read ∷ [] }) w)
          idle
      ∙ ap
          (λ (h : Option (MessageHandler W)).
            on_session (λ s. record s { onmessage = h; reads = header_read ∷ [] }) w)
          (sym o)

  -- A session with no message handler, no read under way and a header buffer of four bytes that is given
  -- an empty message handler takes any sequence of frames off the wire and drops them: no client code runs, nothing changes but the
  -- message buffer, and it waits for the next header, still without a message handler.
  pub sets_empty_onmessage-deliveries :
      (ms : List ComMessage) (w : World W)
      → All IsFramed ms
      → w.session.onmessage ≡ none
      → w.session.reads ≡ []
      → length w.session.message_to_read.header ≡ 4
      → HasDropped w (steps (client_runs (sets_empty_onmessage (λ _. done)) ∷ deliveries ms) w)
  sets_empty_onmessage-deliveries ms w framed o idle l =
      let deaf = on_session (λ s. record s { reads = header_read ∷ [] }) w in
      let (b, same) = frames_dropped ms deaf framed (o, refl, l) in
      (b, ap (steps (deliveries ms)) (starts_deaf w o idle) ∙ same)
