-- ===== src/Example/Chat/Room/Frames.antt =====
-- example/chat/chat_server.cpp: a whole frame that a session receives, in the store of all sessions.
use liboizys.Common.{
  ℕ, ◌≡◌, ◌≢◌, refl, sym, ap, ◌∙◌, subst, true, Option, some, List, [], ◌∷◌, ◌==◌, All, length,
  Bool-cases, inl, inr, length-resize,
}
use liboizys.ComMessage.{ComMessage}
use liboizys.Session.{Bytes, World, header_read}
use liboizys.Session.Methods.{read_payload}
use liboizys.Session.Events.{received}
use liboizys.Session.Valid.{IsFramed}
use liboizys.Session.Receive.{header_received}
use liboizys.Example.Program.{print, chat_line}
use liboizys.Example.ServerMain.{reads}
use liboizys.Example.SessionMap
use liboizys.Example.SessionMap.{find}
use liboizys.Example.SessionMap.Keys.{each}
use liboizys.Example.SessionMap.Places.{IsMap}
use liboizys.Example.Hub.Finds.{find-update}
use liboizys.Example.Hub.{Hub, Peer, put, undress, dress, at_session, hub_step, with_sessions}
use liboizys.Example.Hub.Registry.{ids-update}
use liboizys.Example.Hub.Peers.{queued}
use liboizys.Example.Chat.Room.{chat_handlers}
use liboizys.Example.Chat.Room.Broadcast.{broadcast, received_by, hub_step_broadcasts}

update-IsMap :
    (id : ℕ) (p : Peer) (xs : List (ℕ × Peer)) → IsMap xs → IsMap (SessionMap.update id p xs)
unfolding SessionMap.update
update-IsMap id p [] distinct = tt
update-IsMap id p ((key, old) ∷ rest) (new, distinct) = elim (Bool-cases (key == id)) [
  | inl own ↦ rw own (new, distinct)
  | inr foreign ↦
      rw foreign (
        subst (All (λ k. k ≢ key)) (sym (ids-update id p rest)) new,
        update-IsMap id p rest distinct,
      )
]

update-update :
    (id : ℕ) (f : Peer → Peer) (p q : Peer) (xs : List (ℕ × Peer))
    → SessionMap.update id p (each f (SessionMap.update id q xs))
      ≡ SessionMap.update id p (each f xs)
unfolding SessionMap.update
update-update id f p q [] = refl
update-update id f p q ((key, old) ∷ rest) = elim (Bool-cases (key == id)) [
  | inl own ↦ simp (own)
  | inr foreign ↦ simp (foreign, update-update id f p q rest)
]

-- The session that waits for the payload of a message.
abbrev pub half_read : ComMessage → Peer → Peer
half_read m p = read_payload (length m.payload) (record (undress p) {
  message_to_read = record { header = m.header; payload = p.message_to_read.payload };
  reads = [];
})

module _ (parse : Bytes → Option (Bytes × Bytes)) where
  pub header_step :
      (id : ℕ) (p : Peer) (m : ComMessage) (h : Hub)
      → IsFramed m
      → find id h.server.sessions ≡ some p
      → p.reads ≡ header_read ∷ []
      → length p.message_to_read.header ≡ 4
      → hub_step (chat_handlers parse) (reads id (received m.header)) h ≡ put id (half_read m p) h
  unfolding hub_step at_session read_payload
  header_step id p m h framed found waiting four =
      let w : World Hub = record { session = dress (chat_handlers parse) id p; client = h } in
      rw (found, at_session)
        (ap (λ (v : World Hub). put id (undress v.session) v.client)
          (header_received m.payload m w framed waiting four))

  -- When an open session of the chat server that waits for a header reads a whole frame whose message
  -- can be parsed, the message is printed and put into the queue of every session of the map, once, and
  -- the session that has read it waits for a header again.
  pub frame_broadcasts :
      (id : ℕ) (p : Peer) (m : ComMessage) (user content : Bytes) (h : Hub)
      → IsFramed m
      → parse m.payload ≡ some (user, content)
      → IsMap h.server.sessions
      → find id h.server.sessions ≡ some p
      → p.is_open ≡ true
      → p.reads ≡ header_read ∷ []
      → length p.message_to_read.header ≡ 4
      → hub_step
          (chat_handlers parse)
          (reads id (received m.payload))
          (hub_step (chat_handlers parse) (reads id (received m.header)) h)
        ≡ record h {
          server = record h.server {
            sessions = broadcast id m (record p { message_to_read = m }) h.server.sessions;
          };
          output = print (chat_line user content) h.output;
        }
  unfolding read_payload
  frame_broadcasts id p m user content h framed parsed distinct found is_open waiting four =
      let xs = h.server.sessions in
      let q = half_read m p in
      let n = length m.payload in
      let h' : Hub = record h { output = print (chat_line user content) h.output } in
      ap (λ (c : Hub). hub_step (chat_handlers parse) (reads id (received m.payload)) c)
        (header_step id p m h framed found waiting four)
      ∙ hub_step_broadcasts parse id n q m user content (put id q h) framed parsed
          (update-IsMap id q xs distinct) (find-update id q p xs found) is_open refl
          (sym (length-resize p.message_to_read.payload n 0))
      ∙ ap (λ (ys : List (ℕ × Peer)). with_sessions ys h')
          (update-update id (queued m) (received_by m q) q xs)
