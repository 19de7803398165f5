-- ===== src/Session/Oblivious.antt =====
-- src/asio_session.cpp with client code that does not look at its state: what the session does then
-- does not depend on that state.
use liboizys.Common.{
  ◌≡◌, refl, sym, ap, ◌∙◌, some, inl, inr, List, [], ◌∷◌, Bool-cases, Option-cases,
}
use liboizys.ComMessage.{parse_header}
use liboizys.Session.{
  Bytes, ErrorCode, bad_message, io_error, Script, done, CloseHandler, MessageHandler, AsioSession,
  World, Effect, ReadOp, WriteOp, header_read, payload_read, header_write, payload_write,
}
use liboizys.Session.Methods.{
  returned, resume, on_session, shut, drop_onmessage, no_close_handler, no_message_handler, exec,
  exec_with, close_intern, run, read_header,
}
use liboizys.Session.Branches.{close_intern_closed}
use liboizys.Session.Events.{
  Event, ReadResult, WriteResult, client_runs, read_completes, write_completes, step, handle,
  read_done, write_done, header_read_done, payload_read_done, header_write_done, payload_write_done,
  received, read_failed, written, write_failed, accept_header, fill_header, fill_payload,
}
use liboizys.Session.Closing.{close_intern_lem}
use liboizys.Session.Nesting.{exec-run}
use liboizys.Session.Handled.{IsHandled}
use liboizys.Session.Receive.{deliver-some, one_step}

module _ {W : Type 0} where
  abbrev pub with_client : AsioSession W → W → World W
  with_client s c = record { session = s; client = c }

  -- What it does to the session is the same for any state of the client.
  abbrev pub IsOblivious : Script W → Type 0
  IsOblivious script =
      (s : AsioSession W) (c c' : W)
      → (run script (with_client s c)).0.session ≡ (run script (with_client s c')).0.session

  abbrev pub IsCompletion : Event W → Type 0
  IsCompletion (client_runs script) = ⊥
  IsCompletion (read_completes result) = Unit {0}
  IsCompletion (write_completes result) = Unit {0}

  module _ (g : CloseHandler W) (h : MessageHandler W)
      (closing : (err : ErrorCode) → IsOblivious (g err))
      (taking : (message : Bytes) → IsOblivious (h message)) where
    abbrev HasHandlers : AsioSession W → Type 0
    HasHandlers s = (s.onclose ≡ some g) × (s.onmessage ≡ some h)

    closed_session :
        (err : ErrorCode) (s : AsioSession W) (c c' : W)
        → HasHandlers s
        → (close_intern run err (with_client s c)).0.session
          ≡ (close_intern run err (with_client s c')).0.session
    closed_session err s c c' (e, _) = elim (Bool-cases s.is_open) [
      | inr o ↦
          ap (λ (x : Effect W (Unit {0})). x.0.session)
            (close_intern_closed run err (with_client s c) o)
          ∙ sym (
              ap (λ (x : Effect W (Unit {0})). x.0.session)
                (close_intern_closed run err (with_client s c') o))
      | inl o ↦
          ap (λ (x : Effect W (Unit {0})). x.0.session)
            (close_intern_lem err g (with_client s c) o e)
          ∙ ap
              (λ (t : AsioSession W). drop_onmessage (record t { onclose = some no_close_handler }))
              (closing err (shut s) c c')
          ∙ sym (
              ap (λ (x : Effect W (Unit {0})). x.0.session)
                (close_intern_lem err g (with_client s c') o e))
    ]

    pub payload_world :
        (bytes : Bytes) (s : AsioSession W) (c : W)
        → HasHandlers s
        → (payload_read_done (received bytes) (with_client s c)).0
          ≡ on_session read_header
              (run
                (h (fill_payload bytes s).message_to_read.payload)
                (with_client (fill_payload bytes s) c)).0
    unfolding payload_read_done
    payload_world bytes s c (_, m) =
        let w = with_client (fill_payload bytes s) c in
        let script = h w.session.message_to_read.payload in
        ap (λ (x : Effect W (Unit {0})). (resume x (λ _ v. (on_session read_header v, returned))).0)
          (deliver-some h w m)
        ∙ one_step (run script w) (on_session read_header) (exec-run 0 script w).1

    payload_session :
        (bytes : Bytes) (s : AsioSession W) (c c' : W)
        → HasHandlers s
        → (payload_read_done (received bytes) (with_client s c)).0.session
          ≡ (payload_read_done (received bytes) (with_client s c')).0.session
    payload_session bytes s c c' has =
        ap (λ (v : World W). v.session) (payload_world bytes s c has)
        ∙ ap read_header
            (taking (fill_payload bytes s).message_to_read.payload (fill_payload bytes s) c c')
        ∙ sym (ap (λ (v : World W). v.session) (payload_world bytes s c' has))

    accepted_session :
        (s : AsioSession W) (c c' : W)
        → HasHandlers s
        → (accept_header (with_client s c)).0.session ≡ (accept_header (with_client s c')).0.session
    unfolding accept_header
    accepted_session s c c' has = elim (Option-cases (parse_header s.message_to_read)) [
      | inl e ↦ rw (e, accept_header) (closed_session bad_message s c c' has)
      | inr (n, e) ↦ rw (e, accept_header) refl
    ]

    read_session :
        (ops : List ReadOp) (r : ReadResult) (s : AsioSession W) (c c' : W)
        → HasHandlers s
        → (read_done ops r (with_client s c)).0.session
          ≡ (read_done ops r (with_client s c')).0.session
    unfolding read_done header_read_done
    read_session [] r s c c' has = refl
    read_session (header_read ∷ ops) (read_failed err bytes) s c c' has =
        closed_session (io_error err) (fill_header bytes (record s { reads = ops })) c c' has
    read_session (header_read ∷ ops) (received bytes) s c c' has =
        accepted_session (fill_header bytes (record s { reads = ops })) c c' has
    read_session (payload_read n ∷ ops) (read_failed err bytes) s c c' has =
        unfold payload_read_done in
        closed_session (io_error err) (fill_payload bytes (record s { reads = ops })) c c' has
    read_session (payload_read n ∷ ops) (received bytes) s c c' has =
        payload_session bytes (record s { reads = ops }) c c' has

    write_session :
        (ops : List WriteOp) (r : WriteResult) (s : AsioSession W) (c c' : W)
        → HasHandlers s
        → (write_done ops r (with_client s c)).0.session
          ≡ (write_done ops r (with_client s c')).0.session
    unfolding write_done header_write_done payload_write_done
    write_session [] r s c c' has = refl
    write_session (header_write b ∷ ops) (write_failed err) s c c' has =
        closed_session (io_error err) (record s { writes = ops }) c c' has
    write_session (payload_write b ∷ ops) (write_failed err) s c c' has =
        closed_session (io_error err) (record s { writes = ops }) c c' has
    write_session (header_write b ∷ ops) written s c c' has = refl
    write_session (payload_write b ∷ ops) written s c c' has = refl

    -- A completion of a read or of a write, as opposed to a run of client code.
    pub completion_session :
        (e : Event W) (s : AsioSession W) (c c' : W)
        → IsCompletion e
        → HasHandlers s
        → (step e (with_client s c)).session ≡ (step e (with_client s c')).session
    unfolding handle
    completion_session (client_runs script) s c c' is has = absurd is
    completion_session (read_completes r) s c c' is has = read_session s.reads r s c c' has
    completion_session (write_completes r) s c c' is has = write_session s.writes r s c c' has

  -- Code that does nothing, as that of the handlers of a closed session.
  done-IsOblivious : IsOblivious done
  unfolding run exec exec_with
  done-IsOblivious s c c' = refl

  -- A session with handlers that do not look at the state of the client does with a completion what it
  -- does for any other state of the client.
  pub handled_session :
      (g : CloseHandler W) (h : MessageHandler W) (e : Event W) (s : AsioSession W) (c c' : W)
      → ((err : ErrorCode) → IsOblivious (g err))
      → ((message : Bytes) → IsOblivious (h message))
      → IsCompletion e
      → IsHandled g h s
      → (step e (with_client s c)).session ≡ (step e (with_client s c')).session
  handled_session g h e s c c' closing taking is (inl (o, e_c, e_m)) =
      completion_session g h closing taking e s c c' is (e_c, e_m)
  handled_session g h e s c c' closing taking is (inr (o, e_c, e_m)) =
      completion_session no_close_handler no_message_handler (λ err. done-IsOblivious)
        (λ message. done-IsOblivious) e s c c' is (e_c, e_m)
