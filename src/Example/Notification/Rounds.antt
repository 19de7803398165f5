-- ===== src/Example/Notification/Rounds.antt =====
-- example/notification/notification_server.cpp: what each client is sent, whatever the others do.
use mathlib.Core.List.{append_assoc, append-nil}
use liboizys.Common.{
  ℕ, ◌≡◌, ◌≢◌, refl, sym, ap, ◌∙◌, subst, Bool, true, false, some, none, inl, inr, List, [], ◌∷◌,
  ◌++◌, ◌==◌, if◌then◌else◌, All, Result, Bool-cases, arith,
}
use liboizys.ComMessage.{ComMessage}
use liboizys.Session.{Bytes}
use liboizys.Session.Events.{
  Event, ReadResult, read_completes, write_completes, written, write_failed, step,
}
use liboizys.Session.Valid.{writes_stable}
use liboizys.Session.Wire.{IsSending, frames, frames-append, enqueue-unsent}
use liboizys.Session.Wire.Trace.{taken, entered, NoWriteFails}
use liboizys.Session.Quiet.{done-IsQuiet, entered_quiet}
use liboizys.Session.Oblivious.{IsCompletion}
use liboizys.Example.SessionMap.{find}
use liboizys.Example.ServerMain.{accepts, reads, writes, ServerEvent, happens, timer, signal}
use liboizys.Example.ServerMain.Exits.{IsCalm, after}
use liboizys.Example.Hub.{Hub, Peer, onclose, at_session, hub_step, accept}
use liboizys.Example.Hub.Peers.{queued}
use liboizys.Example.Hub.Finds.{find-each}
use liboizys.Example.Notification.Broadcast.{notification_message, notification-IsFramed}
use liboizys.Example.Notification.Room.{
  ignores, notification_handlers, notification_api, on_timer, on_timer_lem,
}
use liboizys.Example.Notification.Sessions.{
  onclose-IsQuiet, dressed, dressed-IsHandled, unsent_of, Served, own_step, other_step,
  accept_keeps,
}

-- What a server event puts on the wire of the session at an id, and what a sequence of events does.
abbrev pub put_by : ℕ → ServerEvent → Hub → Bytes
put_by id (happens (accepts err)) h = []
put_by id (happens (reads at result)) h = []
put_by id (happens (writes at result)) h =
    if id == at
    then elim (find id h.server.sessions) [
      | none ↦ []
      | some p ↦ taken {W = Hub} (write_completes result) p.writes
    ]
    else []
put_by id timer h = []
put_by id signal h = []

abbrev pub after_one : ServerEvent → Hub → Hub
after_one e h = after notification_api (e ∷ []) h

abbrev pub hub_wire : ℕ → List ServerEvent → Hub → Bytes
hub_wire id [] h = []
hub_wire id (e ∷ es) h = put_by id e h ++ hub_wire id es (after_one e h)

-- No write of the session fails.
abbrev pub WritesWell : ℕ → ServerEvent → Type 0
WritesWell id (happens (accepts err)) = Unit {0}
WritesWell id (happens (reads at result)) = Unit {0}
WritesWell id (happens (writes at written)) = Unit {0}
WritesWell id (happens (writes at (write_failed err))) = id ≢ at
WritesWell id timer = Unit {0}
WritesWell id signal = Unit {0}

-- A notification for each round of the timer.
abbrev pub notices : List ServerEvent → List ComMessage
notices [] = []
notices (timer ∷ es) = notification_message ∷ notices es
notices (happens e ∷ es) = notices es
notices (signal ∷ es) = notices es

-- The session has put nothing on the wire and got no message.
kept :
    (id : ℕ) (p : Peer) (h : Hub)
    → find id h.server.sessions ≡ some p
    → IsSending p
    → Served id p [] [] h
kept id p h found sending = (p, found, sending, sym (append-nil (unsent_of p)))

timer_step :
    (id : ℕ) (p : Peer) (h : Hub)
    → find id h.server.sessions ≡ some p
    → IsSending p
    → Served id p [] (notification_message ∷ []) (on_timer h).0
timer_step id p h found sending =
    let m = notification_message in
    let (_, same, writing) = enqueue-unsent p.write_queue m p refl sending in
    (
      queued m p,
      ap (λ (r : Hub × Result (Unit {0})). find id r.0.server.sessions) (on_timer_lem h)
          ∙ find-each (queued m) id p h.server.sessions found,
      (writes_stable.at_enqueue m.payload m p notification-IsFramed sending.0, writing),
      same ∙ ap (λ (bytes : Bytes). unsent_of p ++ bytes) (sym (append-nil _)),
    )

quiet_read :
    (id : ℕ) (r : ReadResult) (p : Peer) (h : Hub)
    → entered (read_completes r) (dressed id p h) ≡ []
quiet_read id r p h =
    entered_quiet (onclose id) (ignores id) r (dressed id p h) (onclose-IsQuiet id)
      (λ message. done-IsQuiet) (dressed-IsHandled id p)

-- An event that is a completion of the session, or of another one.
completion_step :
    (id at : ℕ) (e : Event Hub) (p : Peer) (h : Hub)
    → IsCompletion e
    → (id ≡ at → NoWriteFails (e ∷ []))
    → entered e (dressed id p h) ≡ []
    → find id h.server.sessions ≡ some p
    → IsSending p
    → Served id p
        (if id == at then taken e p.writes else [])
        []
        (at_session notification_handlers at (step e) h)
completion_step id at e p h is calm quiet found sending = elim (Bool-cases (id == at)) [
  | inl same ↦
      let here : id ≡ at = ground arith in
      rw same (
        subst
          (λ (n : ℕ).
            Served id p (taken e p.writes) [] (at_session notification_handlers n (step e) h))
          here (own_step e id p h is (calm here) found sending quiet))
  | inr differ ↦
      let other : id ≢ at = λ same. ground arith in
      rw differ (
        kept id p (at_session notification_handlers at (step e) h)
          (other_step e id at p h is other found) sending)
]

no_bytes : (b : Bool) → ◌≡◌ {A = Bytes} (if b then [] else []) []
no_bytes true = refl
no_bytes false = refl

-- An event of the server, and what the session at an id then has.
one_step :
    (id : ℕ) (e : ServerEvent) (p : Peer) (h : Hub)
    → IsCalm e
    → WritesWell id e
    → find id h.server.sessions ≡ some p
    → IsSending p
    → Served id p (put_by id e h) (notices (e ∷ [])) (after_one e h)
unfolding after hub_step
one_step id (happens (accepts err)) p h calm well found sending =
    kept id p (accept notification_handlers err h) (accept_keeps err id p h found) sending
one_step id (happens (reads at r)) p h calm well found sending =
    subst
      (λ (bytes : Bytes).
        Served id p bytes [] (at_session notification_handlers at (step (read_completes r)) h))
      (no_bytes (id == at))
      (completion_step id at (read_completes r) p h tt (λ same. tt) (quiet_read id r p h) found
        sending)
one_step id (happens (writes at written)) p h calm well found sending =
    rw found
      (completion_step id at (write_completes written) p h tt (λ same. tt) refl found sending)
one_step id (happens (writes at (write_failed err))) p h calm well found sending = rw found (
    completion_step id at (write_completes (write_failed err)) p h tt (λ same. well same) refl found
      sending)
one_step id timer p h calm well found sending = timer_step id p h found sending
one_step id signal p h calm well found sending = absurd calm

notices-cons :
    (e : ServerEvent) (es : List ServerEvent) → notices (e ∷ es) ≡ notices (e ∷ []) ++ notices es
notices-cons (happens e) es = refl
notices-cons timer es = refl
notices-cons signal es = refl

after-cons :
    (e : ServerEvent) (es : List ServerEvent) (h : Hub)
    → after notification_api (e ∷ es) h ≡ after notification_api es (after_one e h)
unfolding after
after-cons (happens e) es h = refl
after-cons timer es h = refl
after-cons signal es h = refl

-- Whatever happens to the notification server, as long as no write of the session at an id fails: the bytes
-- that this session has put on the wire and those that it has yet to write are together what it had yet to
-- write before and then one whole frame with the notification for each round of the timer, in their order,
-- whatever the other sessions do, how often connections are accepted, and also if the session is closed.
pub each_round :
    (es : List ServerEvent) (id : ℕ) (p : Peer) (h : Hub)
    → All IsCalm es
    → All (WritesWell id) es
    → find id h.server.sessions ≡ some p
    → IsSending p
    → (q : Peer) × (find id (after notification_api es h).server.sessions ≡ some q)
      × IsSending q
      × (hub_wire id es h ++ unsent_of q ≡ unsent_of p ++ frames (notices es))
each_round [] id p h calm well found sending = unfold after in kept id p h found sending
each_round (e ∷ es) id p h (c, calm) (w, well) found sending =
    let (q, there, still, first) = one_step id e p h c w found sending in
    let (r, last, sends, more) = each_round es id q (after_one e h) calm well there still in
    (
      r,
      ap (λ (k : Hub). find id k.server.sessions) (after-cons e es h) ∙ last,
      sends,
      append_assoc (put_by id e h) (hub_wire id es (after_one e h)) (unsent_of r)
          ∙ ap (λ (bytes : Bytes). put_by id e h ++ bytes) more
          ∙ sym (append_assoc (put_by id e h) (unsent_of q) (frames (notices es)))
          ∙ ap (λ (bytes : Bytes). bytes ++ frames (notices es)) first
          ∙ append_assoc (unsent_of p) (frames (notices (e ∷ []))) (frames (notices es))
          ∙ ap (λ (bytes : Bytes). unsent_of p ++ bytes)
              (sym (frames-append (notices (e ∷ [])) (notices es)))
          ∙ ap (λ (ms : List ComMessage). unsent_of p ++ frames ms) (sym (notices-cons e es)),
    )
