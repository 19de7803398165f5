-- ===== src/Session/Invariant.antt =====
-- The events of src/asio_session.cpp and the invariant of the session.
use liboizys.Common.{
  ℕ, true, ◌≡◌, ◌≢◌, refl, sym, ap, ◌∙◌, subst, some, none, arith, is_some, Bool, Option-cases, inl,
  inr, Option, List, [], ◌∷◌, length, length-overwrite, length-resize, All,
}
use liboizys.ComMessage.{ComMessage, parse_header}
use liboizys.ComMessage.Header.{parse_header-bounds}
use liboizys.Session.{
  MessageHandler, io_error, bad_message, ReadOp, WriteOp, header_read, payload_read, header_write,
  payload_write, AsioSession, World, finished, stuck, create_session, Effect,
}
use liboizys.Session.Methods.{read_header, read_payload, run, close_intern, set_onmessage}
use liboizys.Session.Events.{
  ReadResult, received, read_failed, WriteResult, written, write_failed, Event, client_runs,
  read_completes, write_completes, handle, step, steps, read_done, write_done, header_read_done,
  payload_read_done, accept_header, header_write_done, payload_write_done, pop,
}
use liboizys.Session.Branches.{
  write_header_none, write_header_elsewhere, write_payload_elsewhere, enqueue_elsewhere,
  write_header_front, write_payload_front,
}
use liboizys.Session.Blind.{closed-Ends, received_payload-Ends, read_done-blind}
use liboizys.Session.Stable.{IsStable, drop_keeps, Ends, run-Ends}
use liboizys.Session.Valid.{
  IsWritesValid, IsReadsValid, IsFramed, IsValid, writes_stable, reads_stable, WritesFront,
  ReadsMessage,
}

module _ {W : Type 0} where
  -- The handlers of a write whose operation was the only one.
  header_write_done-IsWritesValid :
      (m : ComMessage) (queue : List ComMessage) (r : WriteResult) (w : World W)
      → w.session.write_queue ≡ m ∷ queue
      → w.session.writes ≡ []
      → All IsFramed w.session.write_queue
      → Ends (λ v. IsWritesValid v.session) (header_write_done r w)
  unfolding header_write_done
  header_write_done-IsWritesValid m queue (write_failed err) w q o f =
      closed-Ends IsWritesValid writes_stable (io_error err) w (f, rw (q, o) refl)
  header_write_done-IsWritesValid m queue written w q o f =
      rw (write_payload_front m queue w.session q) (f, rw (q, o) refl)

  payload_write_done-IsWritesValid :
      (m : ComMessage) (queue : List ComMessage) (r : WriteResult) (w : World W)
      → w.session.write_queue ≡ m ∷ queue
      → w.session.writes ≡ []
      → All IsFramed w.session.write_queue
      → Ends (λ v. IsWritesValid v.session) (payload_write_done r w)
  unfolding payload_write_done
  payload_write_done-IsWritesValid m queue (write_failed err) w q o f =
      closed-Ends IsWritesValid writes_stable (io_error err) w (f, rw (q, o) refl)
  payload_write_done-IsWritesValid m [] written w q o f =
      rw
        (write_header_none (record w.session { write_queue = pop w.session.write_queue })
          (ap pop q))
        (subst (All IsFramed) (sym (ap pop q)) (subst (All IsFramed) q f).1, rw (q, o) tt)
  payload_write_done-IsWritesValid m (next ∷ queue) written w q o f =
      rw
        (write_header_front next queue
          (record w.session { write_queue = pop w.session.write_queue }) (ap pop q))
        (subst (All IsFramed) (sym (ap pop q)) (subst (All IsFramed) q f).1, rw (q, o) refl)

  write_done-IsWritesValid :
      (queue : List ComMessage) (ops : List WriteOp) (r : WriteResult) (w : World W)
      → w.session.write_queue ≡ queue
      → All IsFramed w.session.write_queue
      → WritesFront w.session.is_open queue ops
      → w.session.writes ≡ ops
      → Ends (λ v. IsWritesValid v.session) (write_done ops r w)
  unfolding write_done
  write_done-IsWritesValid queue [] r w q f h o = (f, rw (q, o) h)
  write_done-IsWritesValid [] (op ∷ ops) r w q f h o = absurd h
  write_done-IsWritesValid (m ∷ queue) (header_write b ∷ []) r w q f h o =
      header_write_done-IsWritesValid m queue r _ q refl f
  write_done-IsWritesValid (m ∷ queue) (payload_write b ∷ []) r w q f h o =
      payload_write_done-IsWritesValid m queue r _ q refl f
  write_done-IsWritesValid (m ∷ queue) (header_write b ∷ op ∷ ops) r w q f h o = absurd h
  write_done-IsWritesValid (m ∷ queue) (payload_write b ∷ op ∷ ops) r w q f h o = absurd h

  -- While a message is delivered there is a message handler and no read.
  IsDelivering : AsioSession W → Type 0
  IsDelivering s =
      (is_some s.onmessage ≡ true) × (s.reads ≡ []) × (length s.message_to_read.header ≡ 4)

  IsDelivering-stable : IsStable IsDelivering
  unfolding IsDelivering read_header
  IsDelivering-stable = record {
    at_enqueue = λ content m s e h. subst IsDelivering (sym (enqueue_elsewhere m s)) h;
    at_shut = λ s h. h;
    at_onclose = λ g s e h. h;
    at_reset = λ s o h. h;
    at_drop = drop_keeps IsDelivering (λ old s e h. (refl, h.1, h.2));
    at_onmessage = λ g s e h. absurd (ground arith);
  }

  ReadsMessage-header : (s : AsioSession W) → IsDelivering s → IsReadsValid (read_header s)
  unfolding IsDelivering read_header
  ReadsMessage-header s h = elim (Option-cases s.onmessage) [
    | inl e ↦ absurd (ground arith)
    | inr (g, e) ↦ rw (e, h.1) (tt, h.2)
  ]

  accept_header-IsReadsValid :
      (w : World W) → IsDelivering w.session → Ends (λ v. IsReadsValid v.session) (accept_header w)
  unfolding accept_header IsDelivering read_payload
  accept_header-IsReadsValid w h = elim (Option-cases w.session.onmessage) [
    | inl e ↦ absurd (ground arith)
    | inr (g, e) ↦ elim (Option-cases (parse_header w.session.message_to_read)) [
      | inl p ↦
          rw (p, accept_header)
            (closed-Ends IsReadsValid reads_stable bad_message w (rw (e, h.1) refl, h.2))
      | inr (n, p) ↦
          let (lo, hi) = parse_header-bounds w.session.message_to_read n p in
          rw (p, accept_header)
            (rw (e, h.1) (lo, hi, length-resize w.session.message_to_read.payload n 0), h.2)
    ]
  ]

  -- A read that fails closes the session.
  failed_read-IsReadsValid :
      (err : ℕ) (w : World W)
      → IsDelivering w.session
      → Ends (λ v. IsReadsValid v.session) (close_intern run (io_error err) w)
  unfolding IsDelivering
  failed_read-IsReadsValid err w h = elim (Option-cases w.session.onmessage) [
    | inl e ↦ absurd (ground arith)
    | inr (g, e) ↦ closed-Ends IsReadsValid reads_stable (io_error err) w (rw (e, h.1) refl, h.2)
  ]

  read_done-IsReadsValid :
      (handler : Option (MessageHandler W)) (ops : List ReadOp) (r : ReadResult) (w : World W)
      → w.session.onmessage ≡ handler
      → w.session.reads ≡ ops
      → ReadsMessage w.session.is_open handler ops w.session.message_to_read
      → length w.session.message_to_read.header ≡ 4
      → Ends (λ v. IsReadsValid v.session) (read_done ops r w)
  unfolding read_done header_read_done IsDelivering
  read_done-IsReadsValid none ops r w g o h l = absurd h
  read_done-IsReadsValid (some f) [] r w g o h l = (rw (g, o) h, l)
  read_done-IsReadsValid (some f) (header_read ∷ []) (read_failed err bytes) w g o h l =
      failed_read-IsReadsValid err _ (ap is_some g, refl, length-overwrite bytes _ ∙ l)
  read_done-IsReadsValid (some f) (header_read ∷ []) (received bytes) w g o h l =
      accept_header-IsReadsValid _ (ap is_some g, refl, length-overwrite bytes _ ∙ l)
  read_done-IsReadsValid (some f) (payload_read n ∷ []) (read_failed err bytes) w g o h l =
      unfold payload_read_done in failed_read-IsReadsValid err _ (ap is_some g, refl, l)
  read_done-IsReadsValid (some f) (payload_read n ∷ []) (received bytes) w g o h l =
      received_payload-Ends IsDelivering IsReadsValid IsDelivering-stable ReadsMessage-header bytes
        _ (ap is_some g, refl, l)
  read_done-IsReadsValid (some f) (header_read ∷ op ∷ ops) r w g o h l = absurd h
  read_done-IsReadsValid (some f) (payload_read n ∷ op ∷ ops) r w g o h l = absurd h

  -- No completed write touches the reads.
  write_done-IsReadsValid :
      (ops : List WriteOp) (r : WriteResult) (w : World W)
      → IsReadsValid w.session
      → Ends (λ v. IsReadsValid v.session) (write_done ops r w)
  unfolding write_done header_write_done payload_write_done
  write_done-IsReadsValid [] r w h = h
  write_done-IsReadsValid (header_write b ∷ ops) (write_failed err) w h =
      closed-Ends IsReadsValid reads_stable _ _ (reads_stable.at_shut w.session h)
  write_done-IsReadsValid (payload_write b ∷ ops) (write_failed err) w h =
      closed-Ends IsReadsValid reads_stable _ _ (reads_stable.at_shut w.session h)
  write_done-IsReadsValid (header_write b ∷ ops) written w h =
      subst IsReadsValid (sym (write_payload_elsewhere _)) h
  write_done-IsReadsValid (payload_write b ∷ ops) written w h =
      subst IsReadsValid (sym (write_header_elsewhere _)) h

  pub handle-IsWritesValid :
      (e : Event W) (w : World W)
      → IsWritesValid w.session
      → Ends (λ v. IsWritesValid v.session) (handle e w)
  unfolding handle
  handle-IsWritesValid (client_runs script) w h = run-Ends IsWritesValid writes_stable script w h
  handle-IsWritesValid (read_completes r) w h =
      read_done-blind IsWritesValid writes_stable (λ s m rs hs. hs) w.session.reads r w h
  handle-IsWritesValid (write_completes r) w h =
      write_done-IsWritesValid w.session.write_queue w.session.writes r w refl h.0 h.1 refl

  handle-IsReadsValid :
      (e : Event W) (w : World W)
      → IsReadsValid w.session
      → Ends (λ v. IsReadsValid v.session) (handle e w)
  unfolding handle
  handle-IsReadsValid (client_runs script) w h = run-Ends IsReadsValid reads_stable script w h
  handle-IsReadsValid (read_completes r) w h =
      read_done-IsReadsValid w.session.onmessage w.session.reads r w refl refl h.0 h.1
  handle-IsReadsValid (write_completes r) w h = write_done-IsReadsValid w.session.writes r w h

  Ends-IsValid :
      (r : Effect W (Unit {0}))
      → Ends (λ v. IsWritesValid v.session) r
      → Ends (λ v. IsReadsValid v.session) r
      → (r.1 ≢ stuck) × IsValid r.0.session
  Ends-IsValid (v, finished x) a b = (λ e. cc, record { writes_valid = a; reads_valid = b })
  Ends-IsValid (v, stuck) a b = absurd a

  -- In a valid session, which has a message handler, every event is handled to its end, whatever the
  -- client code does, empty handlers included, and leaves the session valid: a message handler, a buffer
  -- of four bytes for the header, one read
  -- under way (of a header, or of a payload whose buffer has its length), or at most one where the socket
  -- is closed, at most one write, of the header or the payload of the first message of the queue,
  -- and every queued message framed by the constructor.
  pub handle-IsValid :
      (e : Event W) (w : World W)
      → IsValid w.session
      → ((handle e w).1 ≢ stuck) × IsValid (handle e w).0.session
  handle-IsValid e w v =
      Ends-IsValid (handle e w) (handle-IsWritesValid e w v.writes_valid)
        (handle-IsReadsValid e w v.reads_valid)

  steps-IsValid :
      (es : List (Event W)) (w : World W) → IsValid w.session → IsValid (steps es w).session
  steps-IsValid [] w v = v
  steps-IsValid (e ∷ es) w v = steps-IsValid es (step e w) (handle-IsValid e w v).1

  -- A session that `create_session` returned, for an open socket or not, and that was then given a
  -- message handler, is valid after any sequence of events.
  pub steps-set_onmessage-IsValid :
      (sock : Bool) (g : MessageHandler W) (client : W) (es : List (Event W))
      → let w =
          (set_onmessage (some g) (record { session = create_session sock; client = client })).0 in
        IsValid (steps es w).session
  unfolding create_session set_onmessage
  steps-set_onmessage-IsValid sock g client es =
      steps-IsValid es _ (record { writes_valid = (tt, tt); reads_valid = (tt, refl) })
