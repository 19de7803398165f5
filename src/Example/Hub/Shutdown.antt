-- ===== src/Example/Hub/Shutdown.antt =====
-- `close()` of the chat and of the notification server, in the store of all sessions:
-- example/chat/chat_server.cpp and example/notification/notification_server.cpp.
use mathlib.Core.List.{append_assoc, append-nil}
use liboizys.Common.{
  ℕ, ◌≡◌, refl, sym, ap, ◌∙◌, Bool, true, false, List, [], ◌∷◌, ◌++◌, if◌then◌else◌, is_some,
  Bool-cases, inl, inr, All,
}
use liboizys.Session.{AsioSession, World, MessageHandler, Effect, success}
use liboizys.Session.Methods.{
  run, exec, exec_with, on_session, shut, drop_onmessage, close_intern, notify_closed,
}
use liboizys.Session.Branches.{close_intern_closed}
use liboizys.Session.Closing.{close_intern_lem}
use liboizys.Example.Program.{Output, connection_closed}
use liboizys.Example.SessionMap.Ids.{ids, member, member-ids}
use liboizys.Example.SessionMap.Keys.{each}
use liboizys.Example.SessionMap.Places.{IsMap, IsNew, update_at, find_at, IsNew-append, IsNew-nil}
use liboizys.Example.Hub.{
  Hub, Handlers, Peer, undress, put, onclose, dress, at_session, close_session, close_each, close,
  with_sessions,
}
use liboizys.Example.Hub.Registry.{removes_registered}

-- The session after its close.
abbrev pub closed_peer : Peer → Peer
closed_peer p = record (undress p) { is_open = false }

-- What the close handlers of the open sessions print.
abbrev pub closing_lines : List (ℕ × Peer) → Output
closing_lines [] = []
closing_lines ((id, p) ∷ rest) =
    if p.is_open then connection_closed ∷ closing_lines rest else closing_lines rest

abbrev lines_of : Peer → Output
lines_of p = if p.is_open then connection_closed ∷ [] else []

abbrev add_lines : Output → Hub → Hub
add_lines out h = record h { output = h.output ++ out }

module _ (onmessage : ℕ → MessageHandler Hub) where
  abbrev handlers : Handlers
  handlers = record { onclose = onclose; onmessage = onmessage }

  closes_open :
      (id : ℕ) (p : Peer) (h : Hub)
      → p.is_open ≡ true
      → member id (ids h.server.sessions) ≡ true
      → let w = close_session (record { session = dress handlers id p; client = h }) in
        put id (undress w.session) w.client
        ≡ put id (closed_peer p) (add_lines (connection_closed ∷ []) h)
  unfolding onclose run exec exec_with liboizys.Session.Methods.close
  closes_open id p h is_open known =
      let w : World Hub = record { session = dress handlers id p; client = h } in
      ap (λ (e : Effect Hub (Unit {0})). put id (undress e.0.session) e.0.client)
        (close_intern_lem success (onclose id) w is_open (rw is_open refl))
      ∙ ap (λ (c : Hub). put id (closed_peer p) c)
          (removes_registered id (add_lines (connection_closed ∷ []) h) known)

  closes_closed :
      (id : ℕ) (p : Peer) (h : Hub)
      → p.is_open ≡ false
      → let w = close_session (record { session = dress handlers id p; client = h }) in
        put id (undress w.session) w.client ≡ put id (closed_peer p) (add_lines [] h)
  unfolding liboizys.Session.Methods.close
  closes_closed id p h is_closed =
      let w : World Hub = record { session = dress handlers id p; client = h } in
      ap (λ (e : Effect Hub (Unit {0})). put id (undress e.0.session) e.0.client)
        (close_intern_closed run success w is_closed)
      ∙ ap (λ (b : Bool). put id (record (undress p) { is_open = b }) h) is_closed
      ∙ ap (λ (out : Output). put id (closed_peer p) (record h { output = out }))
          (sym (append-nil h.output))

  closes_at :
      (id : ℕ) (p : Peer) (front back : List (ℕ × Peer)) (h : Hub)
      → IsNew front id
      → at_session handlers id close_session (with_sessions (front ++ (id, p) ∷ back) h)
        ≡ with_sessions (front ++ (id, closed_peer p) ∷ back) (add_lines (lines_of p) h)
  unfolding at_session
  closes_at id p front back h new =
      let xs = front ++ (id, p) ∷ back in
      let h' = with_sessions xs h in
      let found = find_at id p front back new in
      let known : member id (ids xs) ≡ true = sym (member-ids id xs) ∙ ap is_some found in
      rw (found, at_session)
        (elim (Bool-cases p.is_open) [
          | inl o ↦
              closes_open id p h' o known
              ∙ ap
                  (λ (b : Bool).
                    put id (closed_peer p)
                      (add_lines (if b then connection_closed ∷ [] else []) h'))
                  (sym o)
          | inr o ↦
              closes_closed id p h' o
              ∙ ap
                  (λ (b : Bool).
                    put id (closed_peer p)
                      (add_lines (if b then connection_closed ∷ [] else []) h'))
                  (sym o)
        ])
      ∙ ap (λ (ys : List (ℕ × Peer)). with_sessions ys (add_lines (lines_of p) h))
          (update_at id (closed_peer p) p front back new)

  lines_append :
      (out : Output) (id : ℕ) (p : Peer) (rest : List (ℕ × Peer))
      → (out ++ lines_of p) ++ closing_lines rest ≡ out ++ closing_lines ((id, p) ∷ rest)
  lines_append out id p rest =
      append_assoc out (lines_of p) (closing_lines rest)
      ∙ elim (Bool-cases p.is_open) [ inl o ↦ rw o refl | inr o ↦ rw o refl ]

  close_each_lem :
      (front rest : List (ℕ × Peer)) (h : Hub)
      → All (IsNew front) (ids rest)
      → IsMap rest
      → close_each handlers (ids rest) (with_sessions (front ++ rest) h)
        ≡ with_sessions (front ++ each closed_peer rest) (add_lines (closing_lines rest) h)
  unfolding close_each
  close_each_lem front [] h new distinct =
      ap (λ (out : Output). with_sessions (front ++ []) (record h { output = out }))
        (sym (append-nil h.output))
  close_each_lem front ((id, p) ∷ rest) h (new, news) (others, distinct) =
      let here : List (ℕ × Peer) = (id, closed_peer p) ∷ [] in
      let h' = add_lines (lines_of p) h in
      ap (λ (c : Hub). close_each handlers (ids rest) c) (closes_at id p front rest h new)
      ∙ ap (λ (xs : List (ℕ × Peer)). close_each handlers (ids rest) (with_sessions xs h'))
          (sym (append_assoc front here rest))
      ∙ close_each_lem (front ++ here) rest h'
          (IsNew-append front id (closed_peer p) (ids rest) news others) distinct
      ∙ ap (λ (xs : List (ℕ × Peer)). with_sessions xs (add_lines (closing_lines rest) h'))
          (append_assoc front here (each closed_peer rest))
      ∙ ap
          (λ (out : Output).
            with_sessions (front ++ each closed_peer ((id, p) ∷ rest)) (record h { output = out }))
          (lines_append h.output id p rest)

  -- Closing a server whose sessions have different ids closes every one of them, in the map's order:
  -- for each that was open its close handler prints a line, and nothing is printed for the others. All
  -- stay in the map, though each of those handlers calls `remove`.
  pub shutdown_closes :
      (h : Hub)
      → IsMap h.server.sessions
      → close handlers h
        ≡ with_sessions
            (each closed_peer h.server.sessions)
            (add_lines (closing_lines h.server.sessions) h)
  unfolding close
  shutdown_closes h distinct =
      close_each_lem [] h.server.sessions h (IsNew-nil Peer (ids h.server.sessions)) distinct
