-- ===== src/Example/Hub/Registry.antt =====
-- The ids of the sessions of the chat and the notification server over any events.
use liboizys.Common.{
  some_injective, ℕ, ◌+◌, ◌≡◌, ◌<◌, ◌^◌, refl, sym, ap, ◌∙◌, subst, true, false, some, List, [],
  ◌∷◌, Option-cases, Bool-cases, inl, inr, arith, length, is_some,
}
use liboizys.Session.{
  done, Bytes, ErrorCode, World, create_session, Effect, header_read, CloseHandler, MessageHandler,
}
use liboizys.Session.Methods.{
  run, exec, exec_with, set_onclose, set_onmessage, read_header, returned,
}
use liboizys.Session.Clients.{Keeps, HandlersKeep, done-Keeps, update-Keeps, close_keeps}
use liboizys.Example.Program.{Line, print, new_connection, connection_closed}
use liboizys.Example.SessionMap.{Server, find, add, remove, emplace, has_id}
use liboizys.Example.SessionMap
use liboizys.Example.SessionMap.Ids.{ids, member, member-ids, IsFree, add_lem}
use liboizys.Example.ServerMain.{running}
use liboizys.Example.Hub.{
  onclose, Hub, Peer, Handlers, undress, put, dress, at_session, setup, accept, removes,
  close_session, close_each,
}

-- The server runs, and has the sessions of these ids.
abbrev pub Registered : List ℕ → ℕ → Hub → Type 0
Registered keys n h = (h.status ≡ running) × (ids h.server.sessions ≡ keys) × (h.server.id ≡ n)

pub ids-update :
    (id : ℕ) (p : Peer) (xs : List (ℕ × Peer)) → ids (SessionMap.update id p xs) ≡ ids xs
unfolding SessionMap.update
ids-update id p [] = refl
ids-update id p ((key, old) ∷ rest) = ground (arith, ids-update id p rest)

pub put-Registered :
    (keys : List ℕ) (n id : ℕ) (p : Peer) (h : Hub)
    → Registered keys n h
    → Registered keys n (put id p h)
put-Registered keys n id p h (status, same, next) =
    (status, ids-update id p h.server.sessions ∙ same, next)

-- The handlers that a server gives to a session of the map leave the map's ids alone.
abbrev pub KeepRegistry : Handlers → Type 0
KeepRegistry handlers =
    (keys : List ℕ) (n id : ℕ)
    → member id keys ≡ true
    → ((err : ErrorCode) → Keeps (Registered keys n) (handlers.onclose id err))
      × ((message : Bytes) → Keeps (Registered keys n) (handlers.onmessage id message))

-- `remove` finds what the map has, and does nothing to it.
pub removes_registered :
    (id : ℕ) (h : Hub) → member id (ids h.server.sessions) ≡ true → removes id h ≡ h
unfolding removes
removes_registered id h known = elim (Option-cases (find id h.server.sessions)) [
  | inl e ↦ absurd (grind (arith, member-ids id h.server.sessions))
  | inr (p, e) ↦ rw (e, removes, remove) refl
]

pub removes-Registered :
    (keys : List ℕ) (n id : ℕ) (line : Line) (h : Hub)
    → member id keys ≡ true
    → Registered keys n h
    → Registered keys n (removes id (record h { output = print line h.output }))
removes-Registered keys n id line h known (status, same, next) =
    let h' : Hub = record h { output = print line h.output } in
    subst (Registered keys n) (sym (removes_registered id h' (ap (member id) same ∙ known)))
      (status, same, next)

pub onclose-Keeps :
    (keys : List ℕ) (n id : ℕ) (err : ErrorCode)
    → member id keys ≡ true
    → Keeps (Registered keys n) (onclose id err)
unfolding onclose
onclose-Keeps keys n id err known =
    update-Keeps (Registered keys n)
      (λ h. removes id (record h { output = print connection_closed h.output })) done
      (λ h r. removes-Registered keys n id connection_closed h known r)
      (done-Keeps (Registered keys n))

-- What the handlers of a server keep, a session of the map with its handlers keeps.
pub dress-HandlersKeep :
    (P : Hub → Type 0) (handlers : Handlers) (id : ℕ) (p : Peer)
    → ((err : ErrorCode) → Keeps P (handlers.onclose id err))
    → ((message : Bytes) → Keeps P (handlers.onmessage id message))
    → HandlersKeep P (dress handlers id p)
dress-HandlersKeep P handlers id p closing taking = (
  λ g o e err.
      subst (λ (f : CloseHandler Hub). Keeps P (f err)) (some_injective e)
        (elim (Bool-cases p.is_open) [ inl o ↦ rw o (closing err) | inr o ↦ rw o (done-Keeps P) ]),
  λ g e message.
      subst (λ (f : MessageHandler Hub). Keeps P (f message)) (some_injective e)
        (elim (Bool-cases p.is_open) [
          | inl o ↦ rw o (taking message)
          | inr o ↦ rw o (done-Keeps P)
        ]),
)

-- What the accepted connection is in the map.
abbrev pub connected : Peer
connected = record (undress {W = Hub} (create_session true)) { reads = header_read ∷ [] }

module _ (handlers : Handlers) (keep : KeepRegistry handlers) where
  find-member :
      (id : ℕ) (keys : List ℕ) (p : Peer) (h : Hub)
      → ids h.server.sessions ≡ keys
      → find id h.server.sessions ≡ some p
      → member id keys ≡ true
  find-member id keys p h same found =
      ap (member id) (sym same) ∙ sym (member-ids id h.server.sessions) ∙ ap is_some found

  -- What happens to one session, if its handlers keep the ids.
  pub at_session-Registered :
      (keys : List ℕ) (n id : ℕ) (f : World Hub → World Hub) (h : Hub)
      → ((w : World Hub)
          → HandlersKeep (Registered keys n) w.session
          → Registered keys n w.client
          → Registered keys n (f w).client)
      → Registered keys n h
      → Registered keys n (at_session handlers id f h)
  unfolding at_session
  at_session-Registered keys n id f h kept r = elim (Option-cases (find id h.server.sessions)) [
    | inl e ↦ rw (e, at_session) r
    | inr (p, e) ↦
        rw (e, at_session)
          (let known = find-member id keys p h r.1 e in
            let w : World Hub = record { session = dress handlers id p; client = h } in
            put-Registered keys n id (undress (f w).session) (f w).client (
              kept w
                (dress-HandlersKeep (Registered keys n) handlers id p (keep keys n id known).0
                  (keep keys n id known).1)
                r))
  ]

  pub close_each-Registered :
      (keys : List ℕ) (n : ℕ) (closing : List ℕ) (h : Hub)
      → Registered keys n h
      → Registered keys n (close_each handlers closing h)
  unfolding close_each
  close_each-Registered keys n [] h r = r
  close_each-Registered keys n (id ∷ rest) h r =
      close_each-Registered keys n rest (at_session handlers id close_session h) (
        at_session-Registered keys n id close_session h
          (λ w hs c. close_keeps (Registered keys n) w hs c) r)

  setup_lem :
      (id : ℕ) (h : Hub)
      → run (setup handlers id) (record { session = create_session true; client = h })
        ≡ (record { session = dress handlers id connected; client = h }, returned)
  unfolding setup run exec exec_with set_onclose set_onmessage create_session read_header
  setup_lem id h = refl

  pub accept-add :
      (id : ℕ) (s : Server Peer) (h : Hub)
      → add (create_session true) h.server ≡ some (s, id)
      → accept handlers false h
        ≡ put id connected (record h { server = s; output = print new_connection h.output })
  unfolding accept
  accept-add id s h found =
      rw (found, accept)
        (ap (λ (e : Effect Hub (Unit {0})). put id (undress e.0.session) e.0.client)
          (setup_lem id (record h { server = s; output = print new_connection h.output })))

  pub accepted-Registered :
      (h : Hub)
      → h.status ≡ running
      → h.server.id < 2 ^ 32
      → length h.server.sessions + 1 < 2 ^ 32
      → (id : ℕ) × IsFree id h.server
        × Registered (id ∷ ids h.server.sessions) id (accept handlers false h)
  accepted-Registered h status small few =
      let (id, found, free) = add_lem (create_session true) h.server small few in
      let s : Server Peer = record {
        sessions = (id, create_session true) ∷ h.server.sessions;
        id = id;
      } in
      (
        id,
        free,
        subst (Registered (id ∷ ids h.server.sessions) id) (sym (accept-add id s h found))
            (status, ids-update id connected s.sessions, refl),
      )
