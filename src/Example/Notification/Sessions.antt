-- ===== src/Example/Notification/Sessions.antt =====
-- example/notification/notification_server.cpp: a read or a write of one session, and a new connection, in the store of all sessions.
use liboizys.Common.{
  ℕ, ◌≡◌, ◌≢◌, refl, ap, ◌∙◌, Bool, true, false, some, inl, inr, List, [], ◌∷◌, ◌++◌, Bool-cases,
  Option-cases, arith,
}
use liboizys.ComMessage.{ComMessage}
use liboizys.Session.{Bytes, ErrorCode, World, create_session, AsioSession}
use liboizys.Session.Methods.{run, exec, exec_with}
use liboizys.Session.Events.{
  Event, ReadResult, WriteResult, read_completes, write_completes, written, write_failed, step,
}
use liboizys.Session.Wire.{IsSending, unsent, frames}
use liboizys.Session.Wire.Trace.{taken, entered, NoWriteFails, Passes, step-Passes}
use liboizys.Session.Quiet.{IsQuiet}
use liboizys.Session.Oblivious.{IsCompletion}
use liboizys.Session.Handled.{IsHandled}
use liboizys.Session.Clients.{
  Keeps, HandlersKeep, done-Keeps, update-Keeps, read_keeps, write_keeps,
}
use liboizys.Example.Program.{print, connection_closed}
use liboizys.Example.SessionMap
use liboizys.Example.SessionMap.{
  Server, find, remove, add, has_id, create_id, create_id_loop, emplace,
}
use liboizys.Example.SessionMap.Ids.{add_free}
use liboizys.Example.Hub.{Hub, Peer, onclose, removes, dress, undress, at_session, accept}
use liboizys.Example.Hub.Finds.{find-update, find-update_other}
use liboizys.Example.Hub.Registry.{accept-add, connected, dress-HandlersKeep}
use liboizys.Example.Notification.Room.{ignores, notification_handlers, notification-KeepRegistry}

-- The close handler leaves the map alone, and the session.
removes_sessions : (id : ℕ) (h : Hub) → (removes id h).server.sessions ≡ h.server.sessions
unfolding removes remove
removes_sessions id h = elim (Option-cases (find id h.server.sessions)) [
  | inl e ↦ rw (e, removes, remove) refl
  | inr (p, e) ↦ rw (e, removes, remove) refl
]

pub onclose-IsQuiet : (id : ℕ) (err : ErrorCode) → IsQuiet (onclose id err)
unfolding onclose run exec exec_with
onclose-IsQuiet id err w = refl

abbrev HasSessions : List (ℕ × Peer) → Hub → Type 0
HasSessions xs h = h.server.sessions ≡ xs

onclose-Keeps :
    (xs : List (ℕ × Peer)) (id : ℕ) (err : ErrorCode) → Keeps (HasSessions xs) (onclose id err)
unfolding onclose
onclose-Keeps xs id err =
    update-Keeps (HasSessions xs)
      (λ h. removes id (record h { output = print connection_closed h.output }))
      liboizys.Session.done
      (λ h same.
        removes_sessions id (record h { output = print connection_closed h.output }) ∙ same)
      (done-Keeps (HasSessions xs))

abbrev pub dressed : ℕ → Peer → Hub → World Hub
dressed id p h = record { session = dress notification_handlers id p; client = h }

pub dressed-IsHandled :
    (id : ℕ) (p : Peer) → IsHandled (onclose id) (ignores id) (dress notification_handlers id p)
dressed-IsHandled id p = elim (Bool-cases p.is_open) [
  | inl o ↦ inl (o, rw o refl, rw o refl)
  | inr o ↦ inr (o, rw o refl, rw o refl)
]

dressed_keeps :
    (xs : List (ℕ × Peer)) (id : ℕ) (p : Peer)
    → HandlersKeep (HasSessions xs) (dress notification_handlers id p)
dressed_keeps xs id p =
    dress-HandlersKeep (HasSessions xs) notification_handlers id p (onclose-Keeps xs id)
      (λ message. done-Keeps (HasSessions xs))

-- A read or a write of a session changes the map at its id only.
step-HasSessions :
    (e : Event Hub) (id : ℕ) (p : Peer) (h : Hub)
    → IsCompletion e
    → HasSessions h.server.sessions (step e (dressed id p h)).client
step-HasSessions (liboizys.Session.Events.client_runs script) id p h is = absurd is
step-HasSessions (read_completes r) id p h is =
    read_keeps (HasSessions h.server.sessions) r (dressed id p h)
      (dressed_keeps h.server.sessions id p) refl
step-HasSessions (write_completes r) id p h is =
    write_keeps (HasSessions h.server.sessions) r (dressed id p h)
      (dressed_keeps h.server.sessions id p) refl

abbrev pub unsent_of : Peer → Bytes
unsent_of p = unsent p.write_queue p.writes

-- The session at an id, after it has put bytes on the wire and got messages.
abbrev pub Served : ℕ → Peer → Bytes → List ComMessage → Hub → Type 0
Served id p bytes ms h =
    (q : Peer) × (find id h.server.sessions ≡ some q)
    × IsSending q
    × (bytes ++ unsent_of q ≡ unsent_of p ++ frames ms)

pub own_step :
    (e : Event Hub) (id : ℕ) (p : Peer) (h : Hub)
    → IsCompletion e
    → NoWriteFails (e ∷ [])
    → find id h.server.sessions ≡ some p
    → IsSending p
    → entered e (dressed id p h) ≡ []
    → Served id p (taken e p.writes) [] (at_session notification_handlers id (step e) h)
unfolding at_session Passes
own_step e id p h is calm found sending quiet =
    let w = dressed id p h in
    let (_, same, still) = step-Passes e w calm sending in
    let v = step e w in
    rw (found, at_session)
      (
        undress v.session,
        ap (λ (xs : List (ℕ × Peer)). find id (SessionMap.update id (undress v.session) xs))
              (step-HasSessions e id p h is)
            ∙ find-update id (undress v.session) p h.server.sessions found,
        still,
        same ∙ ap (λ (ms : List ComMessage). unsent_of p ++ frames ms) quiet,
      )

pub other_step :
    (e : Event Hub) (id at : ℕ) (p : Peer) (h : Hub)
    → IsCompletion e
    → id ≢ at
    → find id h.server.sessions ≡ some p
    → find id (at_session notification_handlers at (step e) h).server.sessions ≡ some p
unfolding at_session
other_step e id at p h is differ found = elim (Option-cases (find at h.server.sessions)) [
  | inl missing ↦ rw (missing, at_session) found
  | inr (q, there) ↦
      rw (there, at_session)
        (ap
            (λ (xs : List (ℕ × Peer)).
              find id (SessionMap.update at (undress (step e (dressed at q h)).session) xs))
            (step-HasSessions e at q h is)
          ∙ find-update_other at id _ p h.server.sessions differ found)
]

taken_differs :
    (id new : ℕ) (p : Peer) (s : Server Peer)
    → find id s.sessions ≡ some p
    → has_id new s ≡ false
    → id ≢ new
unfolding has_id
taken_differs id new p s found free = λ e. absurd (cc)

found_behind :
    (id new : ℕ) (p : Peer) (xs : List (ℕ × Peer))
    → id ≢ new
    → find id xs ≡ some p
    → find id ((new, create_session true) ∷ xs) ≡ some p
unfolding find
found_behind id new p xs other found = ground arith

-- A connection that is accepted, or not, leaves the other sessions alone.
pub accept_keeps :
    (err : Bool) (id : ℕ) (p : Peer) (h : Hub)
    → find id h.server.sessions ≡ some p
    → find id (accept notification_handlers err h).server.sessions ≡ some p
unfolding accept
accept_keeps true id p h found = found
accept_keeps false id p h found = elim (Option-cases (add (create_session true) h.server)) [
  | inl e ↦ rw (e, accept) found
  | inr ((s, new), e) ↦
      let (same, free) = add_free (create_session true) h.server s new e in
      let other : id ≢ new = taken_differs id new p h.server found free in
      ap (λ (k : Hub). find id k.server.sessions)
        (accept-add notification_handlers notification-KeepRegistry new s h e)
      ∙ find-update_other new id connected p s.sessions other
          (ap (find id) same ∙ found_behind id new p h.server.sessions other found)
]
