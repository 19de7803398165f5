-- ===== src/Example/Notification/Broadcast.antt =====
-- example/notification/notification_server.cpp: what the timer sends.
use liboizys.Common.{◌≡◌, refl, ap, [], ◌∷◌, ok, Result}
use liboizys.ComMessage.{ComMessage, com_message, header_byte}
use liboizys.Session.{World}
use liboizys.Session.Valid.{IsFramed}
use liboizys.Example.Program.{Output, print, notify_line}
use liboizys.Example.SessionMap.{Server}
use liboizys.Example.SessionMap.Keys.{each}
use liboizys.Example.SessionMap.Sessions.{asio_sessions, queued, send_all-queued}
use liboizys.Example.Notification.{notification, notify}

abbrev pub notification_message : ComMessage
notification_message = record { header = 0 ∷ 0 ∷ 0 ∷ 6 ∷ []; payload = notification }

pub notification-IsFramed : IsFramed notification_message
unfolding com_message header_byte
notification-IsFramed = refl

-- The timer of the notification server puts "notify" into the queue of every session, prints it, and no exception keeps it from
-- being started again.
pub notify_lem :
    (s : Server (World (Unit {0}))) (out : Output)
    → notify asio_sessions (s, out) ≡ (
      (
        record s { sessions = each (queued notification_message) s.sessions },
        print notify_line out,
      ),
      ok tt,
    )
unfolding notify
notify_lem s out =
    ap (λ (e : Server (World (Unit {0})) × Result (Unit {0})). ((e.0, print notify_line out), e.1))
      (send_all-queued notification_message s notification-IsFramed)
