-- ===== src/Session/Clients.antt =====
-- What the events of src/asio_session.cpp do to the state of the client: only handlers change it.
use liboizys.Common.{
  ℕ, Result, ok, throws, Exception, Result-cases, true, ◌≡◌, refl, sym, subst, some, none, inl, inr,
  List, [], ◌∷◌, Option-cases, Bool-cases, arith,
}
use liboizys.ComMessage.{parse_header, com_message}
use liboizys.Session.{
  done, raise, update, inspect, sends, Bytes, ErrorCode, success, bad_message, io_error, Script,
  CloseHandler, MessageHandler, AsioSession, World, finished, stuck, Effect, ReadOp, WriteOp,
  header_read, payload_read, header_write, payload_write,
}
use liboizys.Session.Methods.{
  returned, resume, swallow, on_session, shut, close_intern, close, run, exec, exec_with, enqueue,
  read_header,
}
use liboizys.Session.Branches.{
  close_intern_closed, close_intern_open, notify_closed_silent, send_accepted, send_refused,
}
use liboizys.Session.Events.{
  ReadResult, WriteResult, read_completes, write_completes, step, handle, read_done, write_done,
  header_read_done, payload_read_done, header_write_done, payload_write_done, received, read_failed,
  written, write_failed, accept_header, deliver, fill_payload,
}
use liboizys.Session.Receive.{deliver-some}
use liboizys.Session.Closing.{close_intern_lem}

pub deliver-none :
    {W : Type 0} (w : World W) → w.session.onmessage ≡ none → deliver w ≡ (w, returned)
unfolding deliver
deliver-none w e = ground arith

module _ {W : Type 0} (P : W → Type 0) where
  -- The run of client code keeps it.
  abbrev pub Keeps : Script W → Type 0
  Keeps s = (w : World W) → P w.client → P (run s w).0.client

  -- The handlers of a session do: its close handler does not run when it is closed.
  abbrev pub HandlersKeep : AsioSession W → Type 0
  HandlersKeep s =
      ((g : CloseHandler W)
        → s.is_open ≡ true
        → s.onclose ≡ some g
        → (err : ErrorCode) → Keeps (g err))
      × ((h : MessageHandler W) → s.onmessage ≡ some h → (message : Bytes) → Keeps (h message))

  closed_keeps :
      (err : ErrorCode) (w : World W)
      → HandlersKeep w.session
      → P w.client
      → P (close_intern run err w).0.client
  closed_keeps err w keep h = elim (Bool-cases w.session.is_open) [
    | inr o ↦ rw (close_intern_closed run err w o) h
    | inl o ↦ elim (Option-cases w.session.onclose) [
      | inl e ↦
          rw (close_intern_open run err w o, notify_closed_silent run err (on_session shut w) e) h
      | inr (g, e) ↦ rw (close_intern_lem err g w o e) (keep.0 g o e err (on_session shut w) h)
    ]
  ]

  swallowed :
      (e : Effect W (Unit {0})) (f : World W → World W)
      → ((v : World W) → (f v).client ≡ v.client)
      → P e.0.client
      → P (resume (swallow e) (λ _ v. (f v, returned))).0.client
  swallowed (v, finished x) f same h = subst P (sym (same v)) h
  swallowed (v, stuck) f same h = h

  payload_keeps :
      (bytes : Bytes) (w : World W)
      → HandlersKeep w.session
      → P w.client
      → P (payload_read_done (received bytes) w).0.client
  unfolding payload_read_done
  payload_keeps bytes w keep h = elim (Option-cases w.session.onmessage) [
    | inl e ↦ rw (deliver-none (on_session (fill_payload bytes) w) e) h
    | inr (g, e) ↦
        let w' = on_session (fill_payload bytes) w in
        rw (deliver-some g w' e) (
          swallowed (run (g w'.session.message_to_read.payload) w') (on_session read_header)
            (λ v. refl) (keep.1 g e w'.session.message_to_read.payload w' h))
  ]

  accept_header_keeps :
      (w : World W) → HandlersKeep w.session → P w.client → P (accept_header w).0.client
  unfolding accept_header
  accept_header_keeps w keep h = elim (Option-cases (parse_header w.session.message_to_read)) [
    | inl e ↦ rw (e, accept_header) (closed_keeps bad_message w keep h)
    | inr (n, e) ↦ rw (e, accept_header) h
  ]

  read_done_keeps :
      (ops : List ReadOp) (r : ReadResult) (w : World W)
      → HandlersKeep w.session
      → P w.client
      → P (read_done ops r w).0.client
  unfolding read_done header_read_done
  read_done_keeps [] r w keep h = h
  read_done_keeps (header_read ∷ ops) (read_failed err bytes) w keep h =
      closed_keeps (io_error err) _ keep h
  read_done_keeps (header_read ∷ ops) (received bytes) w keep h = accept_header_keeps _ keep h
  read_done_keeps (payload_read n ∷ ops) (read_failed err bytes) w keep h =
      unfold payload_read_done in closed_keeps (io_error err) _ keep h
  read_done_keeps (payload_read n ∷ ops) (received bytes) w keep h = payload_keeps bytes _ keep h

  write_done_keeps :
      (ops : List WriteOp) (r : WriteResult) (w : World W)
      → HandlersKeep w.session
      → P w.client
      → P (write_done ops r w).0.client
  unfolding write_done header_write_done payload_write_done
  write_done_keeps [] r w keep h = h
  write_done_keeps (header_write b ∷ ops) (write_failed err) w keep h =
      closed_keeps (io_error err) _ keep h
  write_done_keeps (payload_write b ∷ ops) (write_failed err) w keep h =
      closed_keeps (io_error err) _ keep h
  write_done_keeps (header_write b ∷ ops) written w keep h = h
  write_done_keeps (payload_write b ∷ ops) written w keep h = h

  -- What the handlers of a session keep, its events keep.
  pub read_keeps :
      (r : ReadResult) (w : World W)
      → HandlersKeep w.session
      → P w.client
      → P (step (read_completes r) w).client
  unfolding handle
  read_keeps r w keep h = read_done_keeps w.session.reads r w keep h

  pub write_keeps :
      (r : WriteResult) (w : World W)
      → HandlersKeep w.session
      → P w.client
      → P (step (write_completes r) w).client
  unfolding handle
  write_keeps r w keep h = write_done_keeps w.session.writes r w keep h

  pub close_keeps : (w : World W) → HandlersKeep w.session → P w.client → P (close run w).0.client
  unfolding close
  close_keeps w keep h = closed_keeps success w keep h

-- Client code keeps a property of its state if its parts do.
module _ {W : Type 0} (P : W → Type 0) where
  pub done-Keeps : Keeps P done
  unfolding run exec exec_with
  done-Keeps w h = h

  pub raise-Keeps : (x : Exception) → Keeps P (raise x)
  unfolding run exec exec_with
  raise-Keeps x w h = h

  pub update-Keeps :
      (f : W → W) (k : Script W) → ((c : W) → P c → P (f c)) → Keeps P k → Keeps P (update f k)
  unfolding run exec exec_with
  update-Keeps f k keep next w h = next (record w { client = f w.client }) (keep w.client h)

  pub inspect-Keeps : (k : W → Script W) → ((c : W) → Keeps P (k c)) → Keeps P (inspect k)
  unfolding run exec exec_with
  inspect-Keeps k next w h = next w.client w h

  pub sends-Keeps :
      (message : Bytes) (k : Result ℕ → Script W)
      → ((r : Result ℕ) → Keeps P (k r))
      → Keeps P (sends message k)
  unfolding run exec exec_with
  sends-Keeps message k next w h = elim (Result-cases (com_message message)) [
    | inl (m, e) ↦
        rw (send_accepted message m w e)
          (next (ok (enqueue m w.session).1) (on_session (λ s. (enqueue m s).0) w) h)
    | inr (x, e) ↦ rw (send_refused message x w e) (next (throws x) w h)
  ]
