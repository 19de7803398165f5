-- ===== src/Session/Wire/Trace.antt =====
-- The wire of src/asio_session.cpp over a sequence of events.
use mathlib.Core.List.{append_assoc, append-nil}
use liboizys.Common.{
  ◌≡◌, refl, sym, ap, ◌∙◌, Bool, ◌++◌, List, [], ◌∷◌, All, All-append, length, drop, drop-append,
  subst,
}
use liboizys.ComMessage.{ComMessage}
use liboizys.Session.{Bytes, WriteOp, AsioSession, World, Effect, finished, stuck, create_session}
use liboizys.Session.Events.{
  Event, client_runs, read_completes, write_completes, written, write_failed, handle, step, steps,
}
use liboizys.Session.Stable.{Ends, run-Ends}
use liboizys.Session.Blind.{read_done-blind}
use liboizys.Session.Valid.{IsFramed, IsWritesValid}
use liboizys.Session.Invariant.{handle-IsWritesValid}
use liboizys.Session.Wire.{
  frames, frames-append, unsent, IsWriting, buffer, IsSending, Grown, Grown-stable, Grown-refl,
  write_done-unsent,
}

module _ {W : Type 0} where
  -- What one event puts on the wire, and what a sequence of events does.
  abbrev pub taken : Event W → List WriteOp → Bytes
  taken (client_runs script) ops = []
  taken (read_completes r) ops = []
  taken (write_completes written) ops = buffer ops
  taken (write_completes (write_failed err)) ops = []

  abbrev pub wire : List (Event W) → World W → Bytes
  wire [] w = []
  wire (e ∷ es) w = taken e w.session.writes ++ wire es (step e w)

  -- No write of these events fails.
  abbrev pub NoWriteFails : List (Event W) → Type 0
  NoWriteFails [] = Unit {0}
  NoWriteFails (client_runs script ∷ es) = NoWriteFails es
  NoWriteFails (read_completes r ∷ es) = NoWriteFails es
  NoWriteFails (write_completes written ∷ es) = NoWriteFails es
  NoWriteFails (write_completes (write_failed err) ∷ es) = ⊥

  -- The messages that an event puts at the back of the queue, and that a sequence of events does.
  abbrev pub entered : Event W → World W → List ComMessage
  entered (client_runs script) w =
      drop (length w.session.write_queue) (step (client_runs script) w).session.write_queue
  entered (read_completes r) w =
      drop (length w.session.write_queue) (step (read_completes r) w).session.write_queue
  entered (write_completes r) w = []

  abbrev pub all_entered : List (Event W) → World W → List ComMessage
  all_entered [] w = []
  all_entered (e ∷ es) w = entered e w ++ all_entered es (step e w)

  -- What messages and bytes pass from one session to another.
  unfoldable pub Passes : Bytes → List ComMessage → AsioSession W → AsioSession W → Type 0
  Passes bytes ms s t =
      All IsFramed ms
      × (bytes ++ unsent t.write_queue t.writes ≡ unsent s.write_queue s.writes ++ frames ms)
      × IsSending t

  Grown-Passes :
      (s : AsioSession W) (e : Effect W (Unit {0}))
      → Ends (λ v. Grown s v.session) e
      → Passes [] (drop (length s.write_queue) e.0.session.write_queue) s e.0.session
  unfolding Passes
  Grown-Passes s (v, finished x) (ms, f, q, u, h) =
      let new : drop (length s.write_queue) v.session.write_queue ≡ ms =
        ap (λ (queue : List ComMessage). drop (length s.write_queue) queue) q
        ∙ drop-append s.write_queue ms in
      subst
        (λ (ns : List ComMessage).
          All IsFramed ns
          × (unsent v.session.write_queue v.session.writes
              ≡ unsent s.write_queue s.writes ++ frames ns)
          × IsSending v.session)
        (sym new) (f, u, h)
  Grown-Passes s (v, stuck) h = absurd h

  written-Passes :
      (bytes : Bytes) (s : AsioSession W) (e : Effect W (Unit {0}))
      → Ends (λ v. IsWritesValid v.session) e
      → Ends
          (λ v.
            IsWriting v.session.write_queue v.session.writes
            × (bytes ++ unsent v.session.write_queue v.session.writes
                ≡ unsent s.write_queue s.writes))
          e
      → Passes bytes [] s e.0.session
  unfolding Passes
  written-Passes bytes s (v, finished x) h (l, u) = (tt, u ∙ sym (append-nil _), (h, l))
  written-Passes bytes s (v, stuck) h l = absurd h

  pub step-Passes :
      (e : Event W) (w : World W)
      → NoWriteFails (e ∷ [])
      → IsSending w.session
      → Passes (taken e w.session.writes) (entered e w) w.session (step e w).session
  unfolding handle
  step-Passes (client_runs script) w n h =
      Grown-Passes w.session (handle (client_runs script) w)
        (run-Ends (Grown w.session) (Grown-stable w.session) script w (Grown-refl w.session h))
  step-Passes (read_completes r) w n h = Grown-Passes w.session (handle (read_completes r) w) (
      read_done-blind (Grown w.session) (Grown-stable w.session) (λ s m rs g. g) w.session.reads r w
        (Grown-refl w.session h))
  step-Passes (write_completes written) w n h =
      written-Passes (buffer w.session.writes) w.session (handle (write_completes written) w)
        (handle-IsWritesValid (write_completes written) w h.0)
        (write_done-unsent w.session.write_queue w.session.writes w refl h.0.1 h.1 refl)
  step-Passes (write_completes (write_failed err)) w n h = absurd n

  NoWriteFails-cons :
      (e : Event W) (es : List (Event W))
      → NoWriteFails (e ∷ es)
      → NoWriteFails (e ∷ []) × NoWriteFails es
  NoWriteFails-cons (client_runs script) es n = (tt, n)
  NoWriteFails-cons (read_completes r) es n = (tt, n)
  NoWriteFails-cons (write_completes written) es n = (tt, n)
  NoWriteFails-cons (write_completes (write_failed err)) es n = absurd n

  pub Passes-IsSending :
      (bytes : Bytes) (ms : List ComMessage) (s t : AsioSession W)
      → Passes bytes ms s t
      → IsSending t
  unfolding Passes
  Passes-IsSending bytes ms s t (f, u, h) = h

  Passes-trans :
      (bytes more : Bytes) (ms ns : List ComMessage) (s t u : AsioSession W)
      → Passes bytes ms s t
      → Passes more ns t u
      → Passes (bytes ++ more) (ms ++ ns) s u
  unfolding Passes
  Passes-trans bytes more ms ns s t u (f, p, h) (g, q, k) = (
    All-append IsFramed ms ns f g,
    append_assoc bytes more (unsent u.write_queue u.writes)
        ∙ ap (λ (x : Bytes). bytes ++ x) q
        ∙ sym (append_assoc bytes (unsent t.write_queue t.writes) (frames ns))
        ∙ ap (λ (x : Bytes). x ++ frames ns) p
        ∙ append_assoc (unsent s.write_queue s.writes) (frames ms) (frames ns)
        ∙ ap (λ (x : Bytes). unsent s.write_queue s.writes ++ x) (sym (frames-append ms ns)),
    k,
  )

  pub wire-Passes :
      (es : List (Event W)) (w : World W)
      → NoWriteFails es
      → IsSending w.session
      → Passes (wire es w) (all_entered es w) w.session (steps es w).session
  wire-Passes [] w n h = unfold Passes in (tt, sym (append-nil _), h)
  wire-Passes (e ∷ es) w n h =
      let (first, rest) = NoWriteFails-cons e es n in
      let passes = step-Passes e w first h in
      Passes-trans (taken e w.session.writes) (wire es (step e w)) (entered e w)
        (all_entered es (step e w)) w.session (step e w).session (steps es (step e w)).session
        passes
        (wire-Passes es (step e w) rest (
          Passes-IsSending (taken e w.session.writes) (entered e w) w.session (step e w).session
            passes))

  -- As long as no write fails, what a session has put on the wire and what it has yet to write are
  -- together the whole frames of the messages that have entered its queue, in the order in which they
  -- did, each of them written by the constructor of messages.
  pub wire-frames :
      (sock : Bool) (client : W) (es : List (Event W))
      → NoWriteFails es
      → let w : World W = record { session = create_session sock; client = client } in
        All IsFramed (all_entered es w)
        × (wire es w ++ unsent (steps es w).session.write_queue (steps es w).session.writes
            ≡ frames (all_entered es w))
  unfolding create_session Passes
  wire-frames sock client es n =
      let (f, u, h) =
        wire-Passes es (record { session = create_session sock; client = client }) n
          ((tt, tt), tt) in
      (f, u)
