-- ===== src/Example/Hub/Peers.antt =====
-- What the sessions in the map of the chat and of the notification server do with a message.
use liboizys.Common.{ℕ, ◌≡◌, ap, ok}
use liboizys.ComMessage.{ComMessage}
use liboizys.Session.{Effect}
use liboizys.Session.Methods.{enqueue}
use liboizys.Session.Branches.{send_accepted}
use liboizys.Session.Valid.{IsFramed}
use liboizys.Example.SessionMap.Sessions.{result_of}
use liboizys.Example.Hub.{Peer, peers}

abbrev pub queued : ComMessage → Peer → Peer
queued m p = (enqueue m p).0

pub send-queued :
    (m : ComMessage) (p : Peer)
    → IsFramed m
    → peers.send m.payload p ≡ (queued m p, ok (enqueue m p).1)
unfolding peers
send-queued m p framed =
    ap (λ (e : Effect (Unit {0}) ℕ). (e.0.session, result_of e.1))
      (send_accepted m.payload m (record { session = p; client = tt }) framed)
