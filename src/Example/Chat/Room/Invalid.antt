-- ===== src/Example/Chat/Room/Invalid.antt =====
-- example/chat/chat_server.cpp: a frame whose message cannot be parsed.
use liboizys.Common.{
  ℕ, ◌≡◌, refl, sym, ap, ◌∙◌, true, Option, none, some, List, [], ◌∷◌, ◌==◌, length, is_some,
  Bool-cases, inl, inr, length-resize,
}
use liboizys.ComMessage.{ComMessage}
use liboizys.Session.{Bytes, AsioSession, World, header_read, payload_read}
use liboizys.Session.Methods.{run, exec, exec_with, on_session, read_header, read_payload}
use liboizys.Session.Events.{received}
use liboizys.Session.Valid.{IsFramed}
use liboizys.Session.Receive.{payload_received}
use liboizys.Example.Program.{print, invalid_line}
use liboizys.Example.ServerMain.{reads}
use liboizys.Example.SessionMap
use liboizys.Example.SessionMap.{find}
use liboizys.Example.SessionMap.Ids.{ids, member, member-ids}
use liboizys.Example.Hub.{Hub, Peer, put, undress, dress, at_session, hub_step, with_sessions}
use liboizys.Example.Hub.Registry.{removes_registered}
use liboizys.Example.Chat.Room.{onmessage, chat_handlers}
use liboizys.Example.Chat.Room.Frames.{half_read, header_step}
use liboizys.Example.Hub.Finds.{find-update}

abbrev says_invalid : Hub → Hub
says_invalid h = record h { output = print invalid_line h.output }

-- The session that has read a message, which was not sent to anyone.
abbrev pub passed_over : ComMessage → Peer → Peer
passed_over m p = read_header (record (undress p) { message_to_read = m; reads = [] })

put-put :
    (id : ℕ) (p q : Peer) (xs : List (ℕ × Peer))
    → SessionMap.update id p (SessionMap.update id q xs) ≡ SessionMap.update id p xs
unfolding SessionMap.update
put-put id p q [] = refl
put-put id p q ((key, old) ∷ rest) = elim (Bool-cases (key == id)) [
  | inl own ↦ simp (own)
  | inr foreign ↦ simp (foreign, put-put id p q rest)
]

module _ (parse : Bytes → Option (Bytes × Bytes)) where
  run-invalid :
      (id : ℕ) (message : Bytes) (w : World Hub)
      → parse message ≡ none
      → member id (ids w.client.server.sessions) ≡ true
      → (run (onmessage parse id message) w).0 ≡ record w { client = says_invalid w.client }
  unfolding onmessage run exec exec_with
  run-invalid id message w invalid known =
      rw (invalid, onmessage)
        (ap (λ (h : Hub). record w { client = h })
          (removes_registered id (says_invalid w.client) known))

  payload_invalid :
      (id n : ℕ) (q : Peer) (m : ComMessage) (h : Hub)
      → parse m.payload ≡ none
      → find id h.server.sessions ≡ some q
      → q.is_open ≡ true
      → q.reads ≡ payload_read n ∷ []
      → q.message_to_read.header ≡ m.header
      → length m.payload ≡ length q.message_to_read.payload
      → hub_step (chat_handlers parse) (reads id (received m.payload)) h
        ≡ put id (passed_over m q) (says_invalid h)
  unfolding hub_step at_session read_header
  payload_invalid id n q m h invalid found is_open waiting same full =
      let w : World Hub = record { session = dress (chat_handlers parse) id q; client = h } in
      let s : AsioSession Hub = record w.session {
        message_to_read = record q.message_to_read { payload = m.payload };
        reads = [];
      } in
      let known : member id (ids h.server.sessions) ≡ true =
        sym (member-ids id h.server.sessions) ∙ ap is_some found in
      rw (found, at_session)
        (ap (λ (v : World Hub). put id (undress v.session) v.client)
            (payload_received n (onmessage parse id) m.payload w (rw is_open refl) waiting full
              ∙ ap (λ (v : World Hub). on_session read_header v)
                  (run-invalid id m.payload (record { session = s; client = h }) invalid known))
          ∙ ap
              (λ (x : Bytes).
                put id (passed_over (record { header = x; payload = m.payload }) q)
                  (says_invalid h))
              same)

  -- When an open session of the chat server that waits for a header reads a whole frame whose message
  -- cannot be parsed, an error is printed and nobody gets the message. The session is neither closed
  -- nor taken out of the map, though the handler calls `remove`: it waits for a header again.
  pub frame_invalid :
      (id : ℕ) (p : Peer) (m : ComMessage) (h : Hub)
      → IsFramed m
      → parse m.payload ≡ none
      → find id h.server.sessions ≡ some p
      → p.is_open ≡ true
      → p.reads ≡ header_read ∷ []
      → length p.message_to_read.header ≡ 4
      → hub_step
          (chat_handlers parse)
          (reads id (received m.payload))
          (hub_step (chat_handlers parse) (reads id (received m.header)) h)
        ≡ record h {
          server = record h.server {
            sessions = SessionMap.update id (passed_over m p) h.server.sessions;
          };
          output = print invalid_line h.output;
        }
  unfolding read_payload read_header
  frame_invalid id p m h framed invalid found is_open waiting four =
      let xs = h.server.sessions in
      let q = half_read m p in
      let n = length m.payload in
      ap (λ (c : Hub). hub_step (chat_handlers parse) (reads id (received m.payload)) c)
        (header_step parse id p m h framed found waiting four)
      ∙ payload_invalid id n q m (put id q h) invalid (find-update id q p xs found) is_open refl
          refl (sym (length-resize p.message_to_read.payload n 0))
      ∙ ap (λ (ys : List (ℕ × Peer)). with_sessions ys (says_invalid h))
          (put-put id (passed_over m p) q xs)
