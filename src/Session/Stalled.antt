-- ===== src/Session/Stalled.antt =====
-- What src/asio_session.cpp does with messages after a write has failed.
use mathlib.Core.List.{append_assoc, append-nil}
use liboizys.Common.{
  ℕ, ◌+◌, ◌≡◌, ◌≢◌, refl, sym, ap, ◌∙◌, ◌++◌, subst, List, [], ◌∷◌, ok, false, length,
}
use liboizys.ComMessage.{ComMessage, com_message}
use liboizys.Session.{
  Bytes, io_error, WriteOp, header_write, payload_write, AsioSession, World, Effect, finished,
  stuck,
}
use liboizys.Session.Methods.{enqueue, send, returned, read_header}
use liboizys.Session.Branches.{enqueue_next, enqueue_count, send_accepted}
use liboizys.Session.Events.{
  Event, client_runs, read_completes, write_completes, write_failed, handle, step, steps,
  WriteResult, write_done, header_write_done, payload_write_done,
}
use liboizys.Session.Stable.{IsStable, Ends, run-Ends, drop_keeps}
use liboizys.Session.Blind.{closed-Ends, read_done-blind}
use liboizys.Session.Valid.{IsWritesValid, WritesFront}

module _ {W : Type 0} where
  -- The socket is closed, no write is under way, and the queue is the given one, which is not empty,
  -- with more behind it.
  abbrev pub IsStalled : ComMessage → List ComMessage → AsioSession W → Type 0
  IsStalled m queue s =
      (s.is_open ≡ false)
      × (s.writes ≡ [])
      × ((more : List ComMessage) × (s.write_queue ≡ m ∷ queue ++ more))

module _ {W : Type 0} (m : ComMessage) (queue : List ComMessage) where
  enqueue-IsStalled :
      (next : ComMessage) (s : AsioSession W)
      → IsStalled m queue s
      → IsStalled m queue (enqueue next s).0
  enqueue-IsStalled next s (o, i, (more, q)) = rw (enqueue_next next m (queue ++ more) s q) (
    o,
    i,
    (more ++ next ∷ [], ap (λ (x : List ComMessage). m ∷ x) (append_assoc queue more (next ∷ []))),
  )

  IsStalled-stable : IsStable {W = W} (IsStalled m queue)
  unfolding read_header
  IsStalled-stable = record {
    at_enqueue = λ content next s e h. enqueue-IsStalled next s h;
    at_shut = λ s h. (refl, h.1, h.2);
    at_onclose = λ g s e h. h;
    at_reset = λ s o h. h;
    at_drop = drop_keeps (IsStalled m queue) (λ old s e h. h);
    at_onmessage = λ g s e h. h;
  }

  -- With no write under way, none is completed.
  write_done-idle :
      (ops : List WriteOp) (r : WriteResult) (w : World W)
      → ops ≡ []
      → write_done ops r w ≡ (w, returned)
  unfolding write_done
  write_done-idle [] r w i = refl
  write_done-idle (op ∷ ops) r w i = cc

  handle-IsStalled :
      (e : Event W) (w : World W)
      → IsStalled m queue w.session
      → Ends (λ v. IsStalled m queue v.session) (handle e w)
  unfolding handle
  handle-IsStalled (client_runs script) w h =
      run-Ends (IsStalled m queue) IsStalled-stable script w h
  handle-IsStalled (read_completes r) w h =
      read_done-blind (IsStalled m queue) IsStalled-stable (λ s b rs hs. hs) w.session.reads r w h
  handle-IsStalled (write_completes r) w h = rw (write_done-idle w.session.writes r w h.1) h

  Ends-IsStalled :
      (e : Effect W (Unit {0}))
      → Ends (λ v. IsStalled m queue v.session) e
      → IsStalled m queue e.0.session
  Ends-IsStalled (v, finished x) h = h
  Ends-IsStalled (v, stuck) h = absurd h

  steps-IsStalled :
      (es : List (Event W)) (w : World W)
      → IsStalled m queue w.session
      → IsStalled m queue (steps es w).session
  steps-IsStalled [] w h = h
  steps-IsStalled (e ∷ es) w h =
      steps-IsStalled es (step e w) (Ends-IsStalled (handle e w) (handle-IsStalled e w h))

  write_failed-IsStalled :
      (ops : List WriteOp) (err : ℕ) (w : World W)
      → w.session.write_queue ≡ m ∷ queue
      → WritesFront w.session.is_open (m ∷ queue) ops
      → ops ≢ []
      → Ends (λ v. IsStalled m queue v.session) (write_done ops (write_failed err) w)
  unfolding write_done header_write_done payload_write_done
  write_failed-IsStalled [] err w q f n = absurd (n refl)
  write_failed-IsStalled (header_write b ∷ []) err w q f n =
      closed-Ends (IsStalled m queue) IsStalled-stable (io_error err) _
        (refl, refl, ([], q ∙ ap (λ (x : List ComMessage). m ∷ x) (sym (append-nil queue))))
  write_failed-IsStalled (payload_write b ∷ []) err w q f n =
      closed-Ends (IsStalled m queue) IsStalled-stable (io_error err) _
        (refl, refl, ([], q ∙ ap (λ (x : List ComMessage). m ∷ x) (sym (append-nil queue))))
  write_failed-IsStalled (header_write b ∷ op ∷ ops) err w q f n = absurd f
  write_failed-IsStalled (payload_write b ∷ op ∷ ops) err w q f n = absurd f

  -- After a write of a session has failed whose queue and writes were valid, whatever happens: no write is
  -- ever under way again, and the queue keeps all its messages, the one that failed first, and only gets longer.
  pub steps-write_failed-IsStalled :
      (err : ℕ) (w : World W) (es : List (Event W))
      → IsWritesValid w.session
      → w.session.write_queue ≡ m ∷ queue
      → w.session.writes ≢ []
      → IsStalled m queue (steps es (step (write_completes (write_failed err)) w)).session
  unfolding handle
  steps-write_failed-IsStalled err w es v q n =
      steps-IsStalled es (step (write_completes (write_failed err)) w) (
        Ends-IsStalled (handle (write_completes (write_failed err)) w) (
          write_failed-IsStalled w.session.writes err w q
            (subst (λ x. WritesFront w.session.is_open x w.session.writes) q v.1) n))

  -- A stalled session still accepts messages: `send` returns the length of the queue, as if the
  -- message were to be sent.
  pub send-IsStalled :
      (content : Bytes) (next : ComMessage) (w : World W)
      → com_message content ≡ ok next
      → IsStalled m queue w.session
      → ((send content w).1 ≡ finished (ok (length w.session.write_queue + 1)))
        × IsStalled m queue (send content w).0.session
  send-IsStalled content next w e h =
      rw (send_accepted content next w e, enqueue_count next w.session)
        (refl, enqueue-IsStalled next w.session h)
