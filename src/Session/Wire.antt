-- ===== src/Session/Wire.antt =====
-- What src/asio_session.cpp puts on the wire, and what it has yet to put there.
pub mod Trace
use mathlib.Core.List.{append_assoc, append-nil}
use liboizys.Common.{
  ℕ, ◌≡◌, refl, sym, ap, ◌∙◌, Bool, ◌++◌, subst, List, [], ◌∷◌, ok, All, All-append, arith,
}
use liboizys.ComMessage.{ComMessage, com_message}
use liboizys.ComMessage.RoundTrip.{com_message-payload}
use liboizys.Session.{
  Bytes, WriteOp, header_write, payload_write, AsioSession, World, Effect, finished, stuck,
  create_session,
}
use liboizys.Session.Methods.{enqueue, on_session, read_header}
use liboizys.Session.Branches.{
  enqueue_first, enqueue_next, enqueue_elsewhere, write_header_none, write_header_front,
  write_payload_front,
}
use liboizys.Session.Events.{
  Event, client_runs, read_completes, write_completes, written, write_failed, handle, step, steps,
  write_done, pop, header_write_done, payload_write_done,
}
use liboizys.Session.Stable.{IsStable, Ends, run-Ends, drop_keeps}
use liboizys.Session.Blind.{read_done-blind}
use liboizys.Session.Valid.{IsFramed, IsWritesValid, WritesFront, WritesFront-nil, writes_stable}
use liboizys.Session.Invariant.{handle-IsWritesValid}

abbrev pub frame : ComMessage → Bytes
frame m = m.header ++ m.payload

abbrev pub frames : List ComMessage → Bytes
frames [] = []
frames (m ∷ ms) = frame m ++ frames ms

pub frames-append : (ms more : List ComMessage) → frames (ms ++ more) ≡ frames ms ++ frames more
frames-append [] more = refl
frames-append (m ∷ ms) more = rw (frames-append ms more) (sym (append_assoc (frame m) _ _))

-- The bytes that are still to be written, for a queue and the writes under way.
abbrev pub unsent : List ComMessage → List WriteOp → Bytes
unsent [] ops = []
unsent (m ∷ queue) [] = []
unsent (m ∷ queue) (header_write bytes ∷ ops) = bytes ++ (m.payload ++ frames queue)
unsent (m ∷ queue) (payload_write bytes ∷ ops) = bytes ++ frames queue

-- A queue that is not empty is being written.
abbrev pub IsWriting : List ComMessage → List WriteOp → Type 0
IsWriting [] ops = Unit {0}
IsWriting (m ∷ queue) [] = ⊥
IsWriting (m ∷ queue) (op ∷ ops) = Unit {0}

-- The bytes that the oldest write has put on the wire when it is completed with no error.
abbrev pub buffer : List WriteOp → Bytes
buffer [] = []
buffer (header_write bytes ∷ ops) = bytes
buffer (payload_write bytes ∷ ops) = bytes

unsent-append :
    (m : ComMessage) (queue more : List ComMessage) (ops : List WriteOp)
    → IsWriting (m ∷ queue) ops
    → unsent (m ∷ queue ++ more) ops ≡ unsent (m ∷ queue) ops ++ frames more
unsent-append m queue more [] l = absurd l
unsent-append m queue more (header_write b ∷ ops) l =
    rw (frames-append queue more) (simp append_assoc)
unsent-append m queue more (payload_write b ∷ ops) l =
    rw (frames-append queue more) (simp append_assoc)

IsWriting-append :
    (m : ComMessage) (queue more : List ComMessage) (ops : List WriteOp)
    → IsWriting (m ∷ queue) ops
    → IsWriting (m ∷ queue ++ more) ops
IsWriting-append m queue more [] l = l
IsWriting-append m queue more (op ∷ ops) l = l

module _ {W : Type 0} where
  abbrev pub IsSending : AsioSession W → Type 0
  IsSending s = IsWritesValid s × IsWriting s.write_queue s.writes

  pub enqueue-unsent :
      (queue : List ComMessage) (m : ComMessage) (s : AsioSession W)
      → s.write_queue ≡ queue
      → IsSending s
      → ((enqueue m s).0.write_queue ≡ s.write_queue ++ m ∷ [])
        × (unsent (enqueue m s).0.write_queue (enqueue m s).0.writes
            ≡ unsent s.write_queue s.writes ++ frame m)
        × IsWriting (enqueue m s).0.write_queue (enqueue m s).0.writes
  enqueue-unsent [] m s q h =
      let idle : s.writes ≡ [] = WritesFront-nil s.is_open s.writes (rw q at h.0.1) in
      rw (enqueue_first m s q, q, idle) (refl, simp append-nil, tt)
  enqueue-unsent (first ∷ queue) m s q h =
      let writing : IsWriting (first ∷ queue) s.writes = rw q at h.1 in
      rw (enqueue_next m first queue s q, q)
        (
          refl,
          unsent-append first queue (m ∷ []) s.writes writing
              ∙ ap (λ t. unsent (first ∷ queue) s.writes ++ t) (append-nil (frame m)),
          IsWriting-append first queue (m ∷ []) s.writes writing,
        )

  -- The session has got more messages to send, and has put none of their bytes on the wire.
  abbrev pub Grown : AsioSession W → AsioSession W → Type 0
  Grown s t =
      (ms : List ComMessage) × All IsFramed ms
      × (t.write_queue ≡ s.write_queue ++ ms)
      × (unsent t.write_queue t.writes ≡ unsent s.write_queue s.writes ++ frames ms)
      × IsSending t

  Grown-enqueue :
      (s : AsioSession W) (content : Bytes) (m : ComMessage) (t : AsioSession W)
      → com_message content ≡ ok m
      → Grown s t
      → Grown s (enqueue m t).0
  Grown-enqueue s content m t e (ms, f, q, u, h) =
      let (q', u', l) = enqueue-unsent t.write_queue m t refl h in
      let framed : IsFramed m = com_message-payload content m e in
      (
        ms ++ m ∷ [],
        All-append IsFramed ms (m ∷ []) f (framed, tt),
        q' ∙ ap (λ (x : List ComMessage). x ++ m ∷ []) q ∙ append_assoc s.write_queue ms (m ∷ []),
        u'
            ∙ ap (λ (x : Bytes). x ++ frame m) u
            ∙ append_assoc (unsent s.write_queue s.writes) (frames ms) (frame m)
            ∙ ap (λ (x : Bytes). unsent s.write_queue s.writes ++ x)
                (sym (
                  frames-append ms (m ∷ [])
                  ∙ ap (λ (x : Bytes). frames ms ++ x) (append-nil (frame m)))),
        (writes_stable.at_enqueue content m t e h.0, l),
      )

  pub Grown-stable : (s : AsioSession W) → IsStable (Grown s)
  unfolding read_header
  Grown-stable s = record {
    at_enqueue = Grown-enqueue s;
    at_shut = λ t (ms, f, q, u, h). (ms, f, q, u, (writes_stable.at_shut t h.0, h.1));
    at_onclose = λ g t e h. h;
    at_reset = λ t o h. h;
    at_drop = drop_keeps (Grown s) (λ old t e h. h);
    at_onmessage = λ g t e h. h;
  }

  pub Grown-refl : (s : AsioSession W) → IsSending s → Grown s s
  Grown-refl s h = ([], tt, sym (append-nil s.write_queue), sym (append-nil _), h)

  -- A completed write takes its bytes off the front of what is to be sent.
  header_written :
      (m : ComMessage) (queue : List ComMessage) (b : Bytes) (w : World W)
      → w.session.write_queue ≡ m ∷ queue
      → w.session.writes ≡ []
      → Ends
          (λ v.
            IsWriting v.session.write_queue v.session.writes
            × (b ++ unsent v.session.write_queue v.session.writes
                ≡ unsent (m ∷ queue) (header_write b ∷ [])))
          (header_write_done written w)
  unfolding header_write_done
  header_written m queue b w q o = rw (write_payload_front m queue w.session q, q, o) (tt, refl)

  payload_written :
      (m : ComMessage) (queue : List ComMessage) (b : Bytes) (w : World W)
      → w.session.write_queue ≡ m ∷ queue
      → w.session.writes ≡ []
      → Ends
          (λ v.
            IsWriting v.session.write_queue v.session.writes
            × (b ++ unsent v.session.write_queue v.session.writes
                ≡ unsent (m ∷ queue) (payload_write b ∷ [])))
          (payload_write_done written w)
  unfolding payload_write_done
  payload_written m [] b w q o =
      rw
        (
          write_header_none (record w.session { write_queue = pop w.session.write_queue })
              (ap pop q),
          q,
        )
        (tt, refl)
  payload_written m (next ∷ queue) b w q o =
      rw
        (
          write_header_front next queue
              (record w.session { write_queue = pop w.session.write_queue }) (ap pop q),
          q,
          o,
        )
        (tt, simp append_assoc)

  pub write_done-unsent :
      (queue : List ComMessage) (ops : List WriteOp) (w : World W)
      → w.session.write_queue ≡ queue
      → WritesFront w.session.is_open queue ops
      → IsWriting queue ops
      → w.session.writes ≡ ops
      → Ends
          (λ v.
            IsWriting v.session.write_queue v.session.writes
            × (buffer ops ++ unsent v.session.write_queue v.session.writes ≡ unsent queue ops))
          (write_done ops written w)
  unfolding write_done
  write_done-unsent [] [] w q f l o = rw q (tt, refl)
  write_done-unsent [] (op ∷ ops) w q f l o = absurd f
  write_done-unsent (m ∷ queue) [] w q f l o = absurd l
  write_done-unsent (m ∷ queue) (header_write b ∷ []) w q f l o =
      header_written m queue b (on_session (λ s. record s { writes = [] }) w) q refl
  write_done-unsent (m ∷ queue) (payload_write b ∷ []) w q f l o =
      payload_written m queue b (on_session (λ s. record s { writes = [] }) w) q refl
  write_done-unsent (m ∷ queue) (header_write b ∷ op ∷ ops) w q f l o = absurd f
  write_done-unsent (m ∷ queue) (payload_write b ∷ op ∷ ops) w q f l o = absurd f
