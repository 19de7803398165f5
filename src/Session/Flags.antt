-- ===== src/Session/Flags.antt =====
-- The proof rule for the events of src/asio_session.cpp, for a property that looks only at the
-- socket's flag and at the handlers.
use liboizys.Common.{sym, subst, List, [], ◌∷◌}
use liboizys.ComMessage.{ComMessage}
use liboizys.Session.{
  ErrorCode, io_error, AsioSession, World, finished, stuck, Effect, ReadOp, WriteOp, header_write,
  payload_write,
}
use liboizys.Session.Methods.{run, close_intern}
use liboizys.Session.Branches.{write_header_elsewhere, write_payload_elsewhere}
use liboizys.Session.Events.{
  WriteResult, written, write_failed, Event, client_runs, read_completes, write_completes, handle,
  step, steps, write_done, header_write_done, payload_write_done,
}
use liboizys.Session.Stable.{IsStable, Ends, run-Ends}
use liboizys.Session.Blind.{closed-Ends, read_done-blind}

module _ {W : Type 0} where
  -- The transfers of a session may change without the property's noticing.
  abbrev pub IsFlags : (AsioSession W → Type 0) → Type 0
  IsFlags P =
      (s : AsioSession W) (m : ComMessage) (queue : List ComMessage) (rs : List ReadOp)
      (ws : List WriteOp)
      → P s
      → P (record s { message_to_read = m; write_queue = queue; reads = rs; writes = ws })

module _ {W : Type 0} (P : AsioSession W → Type 0) (st : IsStable P) (flags : IsFlags P) where
  closed-flags :
      (err : ErrorCode) (w : World W)
      → P w.session
      → Ends (λ v. P v.session) (close_intern run err w)
  closed-flags err w h = closed-Ends P st err w (st.at_shut w.session h)

  write_done-flags :
      (ops : List WriteOp) (r : WriteResult) (w : World W)
      → P w.session
      → Ends (λ v. P v.session) (write_done ops r w)
  unfolding write_done header_write_done payload_write_done
  write_done-flags [] r w h = h
  write_done-flags (header_write b ∷ ops) (write_failed err) w h =
      closed-flags (io_error err) _ (flags w.session _ _ _ _ h)
  write_done-flags (payload_write b ∷ ops) (write_failed err) w h =
      closed-flags (io_error err) _ (flags w.session _ _ _ _ h)
  write_done-flags (header_write b ∷ ops) written w h =
      subst P (sym (write_payload_elsewhere _)) (flags w.session _ _ _ _ h)
  write_done-flags (payload_write b ∷ ops) written w h =
      subst P (sym (write_header_elsewhere _)) (flags w.session _ _ _ _ h)

  pub handle-flags :
      (e : Event W) (w : World W) → P w.session → Ends (λ v. P v.session) (handle e w)
  unfolding handle
  handle-flags (client_runs script) w h = run-Ends P st script w h
  handle-flags (read_completes r) w h =
      read_done-blind P st (λ s m rs hs. flags s m s.write_queue rs s.writes hs) w.session.reads r w
        h
  handle-flags (write_completes r) w h = write_done-flags w.session.writes r w h

  Ends-world : (e : Effect W (Unit {0})) → Ends (λ v. P v.session) e → P e.0.session
  Ends-world (v, finished x) h = h
  Ends-world (v, stuck) h = absurd h

  -- What holds of the flag and the handlers and is kept by the calls holds for ever.
  pub steps-flags : (es : List (Event W)) (w : World W) → P w.session → P (steps es w).session
  steps-flags [] w h = h
  steps-flags (e ∷ es) w h =
      steps-flags es (step e w) (Ends-world (handle e w) (handle-flags e w h))
