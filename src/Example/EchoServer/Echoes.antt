-- ===== src/Example/EchoServer/Echoes.antt =====
-- example/echo/echo_server.cpp: what the server sends for what it receives.
use mathlib.Core.List.{append_assoc, append-nil}
use liboizys.Common.{◌≡◌, refl, sym, ap, ◌∙◌, ◌++◌, subst, List, [], ◌∷◌, All}
use liboizys.ComMessage.{ComMessage}
use liboizys.ComMessage.RoundTrip.{com_message-fields}
use liboizys.Session.{Bytes, AsioSession, World, create_session}
use liboizys.Session.Methods.{
  on_session, enqueue, read_header, run, exec, exec_with, set_onclose, set_onmessage,
}
use liboizys.Session.Branches.{send_accepted, enqueue_elsewhere}
use liboizys.Session.Events.{steps}
use liboizys.Session.Valid.{IsFramed, writes_stable}
use liboizys.Session.Wire.{IsSending, unsent, frame, frames, enqueue-unsent}
use liboizys.Session.Receive.{IsWaiting, deliveries, receive_frame}
use liboizys.Example.Program.{new_connection, Output, print, message_line}
use liboizys.Example.EchoServer.{onmessage, accepted}

abbrev pub unsent_of : {W : Type 0} → AsioSession W → Bytes
unsent_of s = unsent s.write_queue s.writes

-- The handler prints the message and puts its frame into the queue.
pub run-onmessage :
    (m : ComMessage) (w : World Output)
    → IsFramed m
    → (run (onmessage m.payload) w).0 ≡ record {
      session = (enqueue m w.session).0;
      client = print (message_line m.payload) w.client;
    }
unfolding run exec exec_with onmessage
run-onmessage m w e =
    rw (send_accepted m.payload m (record w { client = print (message_line m.payload) w.client }) e)

abbrev pub echoed : ComMessage → World Output → World Output
echoed m w = record {
  session = read_header (enqueue m (record w.session { message_to_read = m; reads = [] })).0;
  client = print (message_line m.payload) w.client;
}

pub echo_frame :
    (m : ComMessage) (w : World Output)
    → IsFramed m
    → IsWaiting onmessage w.session
    → steps (deliveries (m ∷ [])) w ≡ echoed m w
echo_frame m w e h =
    receive_frame m.payload m onmessage w e h
    ∙ ap (on_session read_header)
        (run-onmessage m (on_session (λ s. record s { message_to_read = m; reads = [] }) w) e)

-- The server still waits for a header, and is sending.
abbrev pub IsEchoing : AsioSession Output → Type 0
IsEchoing s = IsSending s × IsWaiting onmessage s

echoed-IsEchoing :
    (m : ComMessage) (w : World Output)
    → IsFramed m
    → IsEchoing w.session
    → IsEchoing (echoed m w).session
      × (unsent_of (echoed m w).session ≡ unsent_of w.session ++ frame m)
unfolding read_header
echoed-IsEchoing m w e (sending, waiting) =
    let s = record w.session { message_to_read = m; reads = [] } in
    let (_, grown, writing) = enqueue-unsent s.write_queue m s refl sending in
    let header_size = (com_message-fields m.payload m e).2 in
    (
      (
        (writes_stable.at_enqueue m.payload m s e sending.0, writing),
        rw (enqueue_elsewhere m s) (waiting.0, refl, header_size),
      ),
      grown,
    )

abbrev pub lines : List ComMessage → Output → Output
lines [] out = out
lines (m ∷ ms) out = lines ms (print (message_line m.payload) out)

abbrev pub HasEchoed : Output → Bytes → World Output → Type 0
HasEchoed out bytes w = (w.client ≡ out) × (unsent_of w.session ≡ bytes) × IsEchoing w.session

echo_frames_from :
    (ms : List ComMessage) (w : World Output)
    → All IsFramed ms
    → IsEchoing w.session
    → HasEchoed (lines ms w.client) (unsent_of w.session ++ frames ms) (steps (deliveries ms) w)
echo_frames_from [] w a h = (refl, sym (append-nil (unsent_of w.session)), h)
echo_frames_from (m ∷ ms) w (e, a) h =
    let (still, grown) = echoed-IsEchoing m w e h in
    let rest = echo_frames_from ms (echoed m w) a still in
    subst
      (λ v.
        HasEchoed (lines (m ∷ ms) w.client) (unsent_of w.session ++ frames (m ∷ ms))
          (steps (deliveries ms) v))
      (sym (echo_frame m w e h.1))
      (
        rest.0,
        rest.1
            ∙ ap (λ (x : Bytes). x ++ frames ms) grown
            ∙ append_assoc (unsent_of w.session) (frame m) (frames ms),
        rest.2,
      )

pub accepted-IsEchoing :
    (out : Output)
    → IsEchoing (accepted out).session
      × (unsent_of (accepted out).session ≡ [])
      × ((accepted out).client ≡ print new_connection out)
unfolding accepted run exec exec_with create_session set_onclose set_onmessage
accepted-IsEchoing out = ((((tt, tt), tt), (refl, refl, refl)), refl, refl)

-- A connection that the echo server has accepted, and to which any messages are delivered before a
-- write is completed, prints each of them, after the line for the connection, has exactly their frames to
-- send, in their order, and goes on waiting for a message.
pub echo_frames :
    (ms : List ComMessage) (out : Output)
    → All IsFramed ms
    → HasEchoed
        (lines ms (print new_connection out))
        (frames ms)
        (steps (deliveries ms) (accepted out))
echo_frames ms out a =
    let (echoing, idle, quiet) = accepted-IsEchoing out in
    let w = accepted out in
    subst (λ (x : Output). HasEchoed (lines ms x) (frames ms) (steps (deliveries ms) w)) quiet
      (subst
        (λ (x : Bytes). HasEchoed (lines ms w.client) (x ++ frames ms) (steps (deliveries ms) w))
        idle (echo_frames_from ms w a echoing))
