-- ===== src/Example/EchoServer/Independent.antt =====
-- example/echo/echo_server.cpp: what a connection does depends on its own reads and writes only.
use liboizys.Common.{
  ℕ, Bool, Bool-cases, Option-cases, true, false, ◌≡◌, refl, ap, ◌≢◌, Result-cases, subst, ◌∙◌, inl,
  inr, ◌⊎◌, List, [], ◌∷◌, ◌++◌, none, ◌==◌, if◌then◌else◌, some, length, get_elem?,
  get_elem?-set_elem, get_elem?-set_elem_other, get_elem?-append, get_elem?-last, arith,
}
use liboizys.ComMessage.{ComMessage, com_message}
use liboizys.Session.{Bytes, ErrorCode, AsioSession, World, create_session}
use liboizys.Session.Methods.{run, exec, exec_with, set_onclose, set_onmessage}
use liboizys.Session.Events.{Event, step, steps, read_completes, write_completes}
use liboizys.Session.Branches.{send_accepted, send_refused}
use liboizys.Session.Wire.{frames}
use liboizys.Session.Wire.Trace.{wire, taken}
use liboizys.Session.Handled.{IsHandled, step-IsHandled}
use liboizys.Session.Oblivious.{IsOblivious, IsCompletion, with_client, handled_session}
use liboizys.Example.Program.{Output, message_line, print}
use liboizys.Example.ServerMain.{HubEvent, accepts, reads, writes}
use liboizys.Example.EchoServer.{onclose, onmessage, accepted, Host, do_accept, at_place, host_step}
use liboizys.Example.EchoServer.Echoes.{unsent_of}
use liboizys.Example.EchoServer.Talk.{Talk, Talk-frames}

onclose-IsOblivious : (err : ErrorCode) → IsOblivious (onclose err)
unfolding onclose run exec exec_with
onclose-IsOblivious err s c c' = refl

onmessage-IsOblivious : (message : Bytes) → IsOblivious (onmessage message)
unfolding onmessage run exec exec_with
onmessage-IsOblivious message s c c' = elim (Result-cases (com_message message)) [
  | inl (m, e) ↦
      rw
        (
          send_accepted message m (with_client s (print (message_line message) c)) e,
          send_accepted message m (with_client s (print (message_line message) c')) e,
        )
        refl
  | inr (x, e) ↦
      rw
        (
          send_refused message x (with_client s (print (message_line message) c)) e,
          send_refused message x (with_client s (print (message_line message) c')) e,
        )
        refl
]

-- The completions of a connection, by its place, among the events of the server.
abbrev pub own : ℕ → List HubEvent → List (Event Output)
own place [] = []
own place (accepts err ∷ es) = own place es
own place (reads at result ∷ es) =
    let rest = own place es in if place == at then read_completes result ∷ rest else rest
own place (writes at result ∷ es) =
    let rest = own place es in if place == at then write_completes result ∷ rest else rest

abbrev pub hosts : List HubEvent → Host → Host
hosts [] host = host
hosts (e ∷ es) host = hosts es (host_step e host)

-- The connection at a place is that of a world, whose output may differ.
abbrev pub IsAt : ℕ → World Output → Host → Type 0
IsAt place w host =
    (get_elem? host.sessions place ≡ some w.session) × IsHandled onclose onmessage w.session

-- Its own completion.
own-IsAt :
    (place : ℕ) (e : Event Output) (w : World Output) (host : Host)
    → IsCompletion e
    → IsAt place w host
    → IsAt place (step e w) (at_place place e host)
unfolding at_place
own-IsAt place e w host is (here, held) =
    let v = with_client w.session host.output in
    let same =
      handled_session onclose onmessage e w.session host.output w.client onclose-IsOblivious
        onmessage-IsOblivious is held in
    (
      rw (here, at_place)
          (get_elem?-set_elem place w.session (step e v).session host.sessions here ∙ ap some same),
      step-IsHandled onclose onmessage e w held,
    )

-- A completion of another connection.
other-IsAt :
    (place at : ℕ) (e : Event Output) (w : World Output) (host : Host)
    → place ≢ at
    → IsAt place w host
    → IsAt place w (at_place at e host)
unfolding at_place
other-IsAt place at e w host differ (here, held) =
    elim (Option-cases (get_elem? host.sessions at)) [
      | inl missing ↦ rw (missing, at_place) (here, held)
      | inr (s, there) ↦
          rw (there, at_place)
            (get_elem?-set_elem_other place at _ host.sessions differ ∙ here, held)
    ]

completed-IsAt :
    (place at : ℕ) (e : Event Output) (w : World Output) (host : Host)
    → IsCompletion e
    → IsAt place w host
    → (((place == at) ≡ true) × IsAt place (step e w) (at_place at e host))
      ⊎ (((place == at) ≡ false) × IsAt place w (at_place at e host))
completed-IsAt place at e w host is h = elim (Bool-cases (place == at)) [
  | inl same ↦
      let eq : place ≡ at = ground arith in
      inl (
        same,
        subst (λ n. IsAt place (step e w) (at_place n e host)) eq (own-IsAt place e w host is h),
      )
  | inr differ ↦
      let other : place ≢ at = λ eq. ground arith in
      inr (differ, other-IsAt place at e w host other h)
]

accepted-IsAt :
    (place : ℕ) (err : Bool) (w : World Output) (host : Host)
    → IsAt place w host
    → IsAt place w (do_accept err host)
unfolding do_accept
accepted-IsAt place true w host h = h
accepted-IsAt place false w host (here, held) =
    (get_elem?-append place w.session host.sessions _ here, held)

-- Whatever else happens to the echo server, which goes on accepting connections and serving the others, a
-- connection is after any events what its own reads and writes alone make of it.
pub hosts-IsAt :
    (es : List HubEvent) (place : ℕ) (w : World Output) (host : Host)
    → IsAt place w host
    → IsAt place (steps (own place es) w) (hosts es host)
unfolding host_step
hosts-IsAt [] place w host h = h
hosts-IsAt (accepts err ∷ es) place w host h =
    hosts-IsAt es place w (do_accept err host) (accepted-IsAt place err w host h)
hosts-IsAt (reads at result ∷ es) place w host h =
    elim (completed-IsAt place at (read_completes result) w host tt h) [
      | inl (same, next) ↦ rw same (hosts-IsAt es place _ _ next)
      | inr (differ, next) ↦ rw differ (hosts-IsAt es place _ _ next)
    ]
hosts-IsAt (writes at result ∷ es) place w host h =
    elim (completed-IsAt place at (write_completes result) w host tt h) [
      | inl (same, next) ↦ rw same (hosts-IsAt es place _ _ next)
      | inr (differ, next) ↦ rw differ (hosts-IsAt es place _ _ next)
    ]

accepted-IsHandled : (out : Output) → IsHandled onclose onmessage (accepted out).session
unfolding accepted run exec exec_with create_session set_onclose set_onmessage
accepted-IsHandled out = inl (refl, refl, refl)

opened-IsAt :
    (host : Host) → IsAt (length host.sessions) (accepted host.output) (do_accept false host)
unfolding do_accept
opened-IsAt host =
    (get_elem?-last (accepted host.output).session host.sessions, accepted-IsHandled host.output)

-- What an event of the server puts on the wire of the connection at a place, and what a sequence of
-- events does.
abbrev pub put : ℕ → HubEvent → Host → Bytes
put place (accepts err) host = []
put place (reads at result) host = []
put place (writes at result) host =
    if place == at
    then elim (get_elem? host.sessions place) [
      | none ↦ []
      | some s ↦ taken {W = Output} (write_completes result) s.writes
    ]
    else []

abbrev pub host_wire : ℕ → List HubEvent → Host → Bytes
host_wire place [] host = []
host_wire place (e ∷ es) host = put place e host ++ host_wire place es (host_step e host)

host_wire-own :
    (es : List HubEvent) (place : ℕ) (w : World Output) (host : Host)
    → IsAt place w host
    → host_wire place es host ≡ wire (own place es) w
unfolding host_step
host_wire-own [] place w host h = refl
host_wire-own (accepts err ∷ es) place w host h =
    host_wire-own es place w (do_accept err host) (accepted-IsAt place err w host h)
host_wire-own (reads at result ∷ es) place w host h =
    elim (completed-IsAt place at (read_completes result) w host tt h) [
      | inl (same, next) ↦ rw same (host_wire-own es place _ _ next)
      | inr (differ, next) ↦ rw differ (host_wire-own es place _ _ next)
    ]
host_wire-own (writes at result ∷ es) place w host h =
    elim (completed-IsAt place at (write_completes result) w host tt h) [
      | inl (same, next) ↦
          rw (same, h.0)
            (ap (λ bytes. taken {W = Output} (write_completes result) w.session.writes ++ bytes)
              (host_wire-own es place _ _ next))
      | inr (differ, next) ↦ rw differ (host_wire-own es place _ _ next)
    ]

-- Whatever else happens to the echo server, before and after it accepts a connection, and however the
-- reads and writes of all its connections are interleaved: if this connection gets messages, and no
-- write of its own fails, the bytes that it has put on the wire and those that it has yet to write are
-- together the whole frames of its own messages, in their order, and of no others.
pub echo_each :
    (before es : List HubEvent) (ms : List ComMessage) (host : Host)
    → Talk none ms (own (length (hosts before host).sessions) es)
    → let now = hosts before host in
      let place = length now.sessions in
      let opened = do_accept false now in
      (s : AsioSession Output) × (get_elem? (hosts es opened).sessions place ≡ some s)
      × (host_wire place es opened ++ unsent_of s ≡ frames ms)
echo_each before es ms host talk =
    let now = hosts before host in
    let place = length now.sessions in
    let w = accepted now.output in
    let at = hosts-IsAt es place w (do_accept false now) (opened-IsAt now) in
    let s = (steps (own place es) w).session in
    (
      s,
      at.0,
      ap (λ bytes. bytes ++ unsent_of s)
            (host_wire-own es place w (do_accept false now) (opened-IsAt now))
          ∙ (Talk-frames now.output talk).0,
    )
