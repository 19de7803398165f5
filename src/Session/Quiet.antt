-- ===== src/Session/Quiet.antt =====
-- src/asio_session.cpp with handlers that do not call the session: what is read queues nothing.
use liboizys.Common.{
  ◌≡◌, refl, sym, ap, ◌∙◌, some, inl, inr, List, [], ◌∷◌, Bool-cases, Option-cases, arith, length,
  drop, drop_all,
}
use liboizys.ComMessage.{ComMessage, parse_header}
use liboizys.Session.{
  Bytes, ErrorCode, bad_message, io_error, Script, done, CloseHandler, MessageHandler, AsioSession,
  World, Effect, ReadOp, header_read, payload_read,
}
use liboizys.Session.Methods.{
  shut, drop_onmessage, no_close_handler, no_message_handler, close_intern, run, exec, exec_with,
  read_header, read_payload,
}
use liboizys.Session.Branches.{close_intern_closed}
use liboizys.Session.Events.{
  ReadResult, read_completes, received, read_failed, step, handle, read_done, header_read_done,
  payload_read_done, accept_header, fill_header, fill_payload,
}
use liboizys.Session.Closing.{close_intern_lem}
use liboizys.Session.Handled.{IsHandled}
use liboizys.Session.Wire.Trace.{entered}
use liboizys.Session.Oblivious.{with_client, payload_world}

module _ {W : Type 0} where
  -- It leaves the session alone.
  abbrev pub IsQuiet : Script W → Type 0
  IsQuiet script = (w : World W) → (run script w).0.session ≡ w.session

  pub done-IsQuiet : IsQuiet done
  unfolding run exec exec_with
  done-IsQuiet w = refl

  abbrev queue_of : Effect W (Unit {0}) → List ComMessage
  queue_of x = x.0.session.write_queue

  drop_queue : (s : AsioSession W) → (drop_onmessage s).write_queue ≡ s.write_queue
  drop_queue s = ground arith

  module _ (g : CloseHandler W) (h : MessageHandler W)
      (closing : (err : ErrorCode) → IsQuiet (g err))
      (taking : (message : Bytes) → IsQuiet (h message)) where
    abbrev HasHandlers : AsioSession W → Type 0
    HasHandlers s = (s.onclose ≡ some g) × (s.onmessage ≡ some h)

    closed_queue :
        (err : ErrorCode) (w : World W)
        → HasHandlers w.session
        → queue_of (close_intern run err w) ≡ w.session.write_queue
    closed_queue err w (c, _) = elim (Bool-cases w.session.is_open) [
      | inr o ↦ ap queue_of (close_intern_closed run err w o)
      | inl o ↦
          ap queue_of (close_intern_lem err g w o c)
          ∙ drop_queue _
          ∙ ap (λ (s : AsioSession W). s.write_queue)
              (closing err (with_client (shut w.session) w.client))
    ]

    accepted_queue :
        (w : World W) → HasHandlers w.session → queue_of (accept_header w) ≡ w.session.write_queue
    unfolding accept_header read_payload
    accepted_queue w has = elim (Option-cases (parse_header w.session.message_to_read)) [
      | inl e ↦ rw (e, accept_header) (closed_queue bad_message w has)
      | inr (n, e) ↦ rw (e, accept_header) refl
    ]

    read_queue :
        (ops : List ReadOp) (r : ReadResult) (w : World W)
        → HasHandlers w.session
        → queue_of (read_done ops r w) ≡ w.session.write_queue
    unfolding read_done header_read_done read_header
    read_queue [] r w has = refl
    read_queue (header_read ∷ ops) (read_failed err bytes) w has =
        closed_queue (io_error err)
          (with_client (fill_header bytes (record w.session { reads = ops })) w.client) has
    read_queue (header_read ∷ ops) (received bytes) w has =
        accepted_queue (with_client (fill_header bytes (record w.session { reads = ops })) w.client)
          has
    read_queue (payload_read n ∷ ops) (read_failed err bytes) w has =
        unfold payload_read_done in
        closed_queue (io_error err)
          (with_client (fill_payload bytes (record w.session { reads = ops })) w.client) has
    read_queue (payload_read n ∷ ops) (received bytes) w has =
        let s = record w.session { reads = ops } in
        ap (λ (v : World W). v.session.write_queue)
          (payload_world g h
            (λ err t c c'. closing err (with_client t c) ∙ sym (closing err (with_client t c')))
            (λ m t c c'. taking m (with_client t c) ∙ sym (taking m (with_client t c'))) bytes s
            w.client has)
        ∙ ap (λ (t : AsioSession W). t.write_queue)
            (taking (fill_payload bytes s).message_to_read.payload
              (with_client (fill_payload bytes s) w.client))

  handled_queue :
      (g : CloseHandler W) (h : MessageHandler W) (r : ReadResult) (w : World W)
      → ((err : ErrorCode) → IsQuiet (g err))
      → ((message : Bytes) → IsQuiet (h message))
      → IsHandled g h w.session
      → (step (read_completes r) w).session.write_queue ≡ w.session.write_queue
  unfolding handle
  handled_queue g h r w closing taking (inl (o, c, m)) =
      read_queue g h closing taking w.session.reads r w (c, m)
  handled_queue g h r w closing taking (inr (o, c, m)) =
      read_queue no_close_handler no_message_handler (λ err. done-IsQuiet) (λ message. done-IsQuiet)
        w.session.reads r w (c, m)

  -- A read queues no message, if the handlers do not call the session.
  pub entered_quiet :
      (g : CloseHandler W) (h : MessageHandler W) (r : ReadResult) (w : World W)
      → ((err : ErrorCode) → IsQuiet (g err))
      → ((message : Bytes) → IsQuiet (h message))
      → IsHandled g h w.session
      → entered (read_completes r) w ≡ []
  entered_quiet g h r w closing taking held =
      let queue = w.session.write_queue in
      ap (λ (q : List ComMessage). drop (length queue) q)
        (handled_queue g h r w closing taking held)
      ∙ drop_all (length queue) queue (omega arith)
