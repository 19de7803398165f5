-- ===== src/Session/Handled.antt =====
-- A session of src/asio_session.cpp whose client has set both handlers, over its life.
use liboizys.Common.{
  Option, true, ◌≡◌, sym, subst, some, inl, inr, ◌⊎◌, List, [], ◌∷◌, Option-cases, Result-cases,
}
use liboizys.ComMessage.{ComMessage, com_message, parse_header}
use liboizys.Session.{
  Bytes, ErrorCode, success, bad_message, io_error, Script, CloseHandler, MessageHandler,
  AsioSession, World, finished, stuck, Effect, ReadOp, WriteOp, header_read, payload_read,
  header_write, payload_write,
}
use liboizys.Session.Methods.{
  returned, send, no_close_handler, no_message_handler, close_intern, close, set_onclose,
  set_onmessage, run, exec, enqueue, read_header, read_payload,
}
use liboizys.Session.Branches.{
  close_intern_closed, enqueue_elsewhere, set_onclose_again, set_onmessage_again, send_accepted,
  send_refused, write_header_elsewhere, write_payload_elsewhere,
}
use liboizys.Session.Events.{
  Event, ReadResult, WriteResult, read_completes, write_completes, client_runs, step, steps, handle,
  read_done, write_done, header_read_done, payload_read_done, header_write_done, payload_write_done,
  received, read_failed, written, write_failed, accept_header, deliver,
}
use liboizys.Session.Nesting.{exec-run}
use liboizys.Session.Closing.{IsRetired, close_intern_lem, steps-close_intern-IsRetired}
use liboizys.Session.Stable.{Calls, Ends, exec_with-Ends, Ends-swallow, Ends-resume}

module _ {W : Type 0} (g : CloseHandler W) (h : MessageHandler W) where
  -- The session is open and has the handlers of its client, or it is closed and has those that do
  -- nothing.
  abbrev pub IsHandled : AsioSession W → Type 0
  IsHandled s = ((s.is_open ≡ true) × (s.onclose ≡ some g) × (s.onmessage ≡ some h)) ⊎ IsRetired s

  Ends-at :
      (e : Effect W (Unit {0})) (v : World W)
      → e ≡ (v, returned)
      → IsHandled v.session
      → Ends (λ w. IsHandled w.session) e
  Ends-at e v same held = subst (Ends (λ w. IsHandled w.session)) (sym same) held

  -- A close, by whatever error.
  closed-Handled :
      (err : ErrorCode) (w : World W)
      → IsHandled w.session
      → Ends (λ v. IsHandled v.session) (close_intern run err w)
  closed-Handled err w (inr r) =
      Ends-at (close_intern run err w) w (close_intern_closed run err w r.0) (inr r)
  closed-Handled err w (inl (o, c, m)) =
      let same = close_intern_lem err g w o c in
      Ends-at (close_intern run err w) _ same (
        inr (
          subst (λ (e : Effect W (Unit {0})). IsRetired e.0.session) same
            (steps-close_intern-IsRetired err g h w [] o c m)))

  enqueue-Handled : (m : ComMessage) (s : AsioSession W) → IsHandled s → IsHandled (enqueue m s).0
  enqueue-Handled m s held = subst IsHandled (sym (enqueue_elsewhere m s)) held

  set_onclose-Handled :
      (new : Option (CloseHandler W)) (w : World W)
      → IsHandled w.session
      → Ends (λ v. IsHandled v.session) (set_onclose run new w)
  set_onclose-Handled new w (inl (o, c, m)) = rw (set_onclose_again run new g w c) (inl (o, c, m))
  set_onclose-Handled new w (inr r) = rw (set_onclose_again run new no_close_handler w r.1) (inr r)

  set_onmessage-Handled :
      (new : Option (MessageHandler W)) (w : World W)
      → IsHandled w.session
      → Ends (λ v. IsHandled v.session) (set_onmessage new w)
  set_onmessage-Handled new w (inl (o, c, m)) = rw (set_onmessage_again new h w m) (inl (o, c, m))
  set_onmessage-Handled new w (inr r) =
      rw (set_onmessage_again new no_message_handler w r.2) (inr r)

  send-Handled :
      (content : Bytes) (w : World W)
      → IsHandled w.session
      → Ends (λ v. IsHandled v.session) (send content w)
  send-Handled content w held = elim (Result-cases (com_message content)) [
    | inl (m, e) ↦ rw (send_accepted content m w e) (enqueue-Handled m w.session held)
    | inr (x, e) ↦ rw (send_refused content x w e) held
  ]

  IsHandled-calls : Calls run (λ w. IsHandled w.session)
  unfolding close
  IsHandled-calls = record {
    at_update = λ f w held. held;
    at_send = send-Handled;
    at_close = closed-Handled success;
    at_onclose = set_onclose-Handled;
    at_onmessage = set_onmessage-Handled;
  }

  run-Handled :
      (s : Script W) (w : World W) → IsHandled w.session → Ends (λ v. IsHandled v.session) (run s w)
  unfolding exec run
  run-Handled s w held =
      subst (Ends (λ v. IsHandled v.session)) (exec-run 1 s w).0
        (exec_with-Ends run (λ v. IsHandled v.session) IsHandled-calls s w held)

  deliver-Handled :
      (w : World W) → IsHandled w.session → Ends (λ v. IsHandled v.session) (deliver w)
  unfolding deliver
  deliver-Handled w held = elim (Option-cases w.session.onmessage) [
    | inl e ↦ rw (e, deliver) held
    | inr (f, e) ↦
        rw (e, deliver)
          (Ends-swallow (λ v. IsHandled v.session) (run (f w.session.message_to_read.payload) w)
            (run-Handled (f w.session.message_to_read.payload) w held))
  ]

  accept_header-Handled :
      (w : World W) → IsHandled w.session → Ends (λ v. IsHandled v.session) (accept_header w)
  unfolding read_payload accept_header
  accept_header-Handled w held = elim (Option-cases (parse_header w.session.message_to_read)) [
    | inl e ↦ rw (e, accept_header) (closed-Handled bad_message w held)
    | inr (n, e) ↦ rw (e, accept_header) held
  ]

  read_done-Handled :
      (ops : List ReadOp) (r : ReadResult) (w : World W)
      → IsHandled w.session
      → Ends (λ v. IsHandled v.session) (read_done ops r w)
  unfolding read_done header_read_done payload_read_done read_header
  read_done-Handled [] r w held = held
  read_done-Handled (header_read ∷ ops) (read_failed err bytes) w held =
      closed-Handled (io_error err) _ held
  read_done-Handled (header_read ∷ ops) (received bytes) w held = accept_header-Handled _ held
  read_done-Handled (payload_read n ∷ ops) (read_failed err bytes) w held =
      closed-Handled (io_error err) _ held
  read_done-Handled (payload_read n ∷ ops) (received bytes) w held =
      Ends-resume (λ v. IsHandled v.session) (λ v. IsHandled v.session) _ _ (deliver-Handled _ held)
        (λ r v hv. hv)

  write_done-Handled :
      (ops : List WriteOp) (r : WriteResult) (w : World W)
      → IsHandled w.session
      → Ends (λ v. IsHandled v.session) (write_done ops r w)
  unfolding write_done header_write_done payload_write_done
  write_done-Handled [] r w held = held
  write_done-Handled (header_write b ∷ ops) (write_failed err) w held =
      closed-Handled (io_error err) _ held
  write_done-Handled (payload_write b ∷ ops) (write_failed err) w held =
      closed-Handled (io_error err) _ held
  write_done-Handled (header_write b ∷ ops) written w held =
      subst IsHandled (sym (write_payload_elsewhere _)) held
  write_done-Handled (payload_write b ∷ ops) written w held =
      subst IsHandled (sym (write_header_elsewhere _)) held

  handle-Handled :
      (e : Event W) (w : World W)
      → IsHandled w.session
      → Ends (λ v. IsHandled v.session) (handle e w)
  unfolding handle
  handle-Handled (client_runs s) w held = run-Handled s w held
  handle-Handled (read_completes r) w held = read_done-Handled w.session.reads r w held
  handle-Handled (write_completes r) w held = write_done-Handled w.session.writes r w held

  Ends-Handled :
      (e : Effect W (Unit {0})) → Ends (λ v. IsHandled v.session) e → IsHandled e.0.session
  Ends-Handled (v, finished x) held = held
  Ends-Handled (v, stuck) held = absurd held

  -- A close by the client, seen from outside.
  pub close-IsHandled : (w : World W) → IsHandled w.session → IsHandled (close run w).0.session
  unfolding close
  close-IsHandled w held = Ends-Handled (close_intern run success w) (closed-Handled success w held)

  pub step-IsHandled :
      (e : Event W) (w : World W) → IsHandled w.session → IsHandled (step e w).session
  step-IsHandled e w held = Ends-Handled (handle e w) (handle-Handled e w held)

  -- A session whose client has set both handlers is, after any events, whatever its client does: open,
  -- with these handlers, or closed, with the handlers that do nothing.
  pub steps-IsHandled :
      (es : List (Event W)) (w : World W) → IsHandled w.session → IsHandled (steps es w).session
  steps-IsHandled [] w held = held
  steps-IsHandled (e ∷ es) w held = steps-IsHandled es (step e w) (step-IsHandled e w held)
