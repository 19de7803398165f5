-- ===== src/Example/EchoServer/Talk.antt =====
-- example/echo/echo_server.cpp: a connection whose reads and writes are interleaved in any way.
use liboizys.Common.{
  ◌≡◌, refl, sym, ap, ◌∙◌, ◌++◌, Option, some, none, List, [], ◌∷◌, length, drop_all, drop-append,
  length-resize, arith,
}
use liboizys.ComMessage.{ComMessage}
use liboizys.ComMessage.RoundTrip.{com_message-fields}
use liboizys.Session.{AsioSession, World, WriteOp, header_write, payload_write, payload_read}
use liboizys.Session.Methods.{on_session, read_payload, read_header}
use liboizys.Session.Branches.{enqueue_elsewhere, write_header_elsewhere, write_payload_elsewhere}
use liboizys.Session.Events.{
  pop, Event, read_completes, write_completes, received, written, step, steps, handle, write_done,
  header_write_done, payload_write_done,
}
use liboizys.Session.Valid.{IsFramed}
use liboizys.Session.Wire.{IsSending, frames, enqueue-unsent}
use liboizys.Session.Wire.Trace.{
  wire, entered, all_entered, NoWriteFails, step-Passes, Passes-IsSending, wire-Passes, Passes,
  taken,
}
use liboizys.Session.Receive.{IsWaiting, reading, header_received, payload_received}
use liboizys.Example.Program.{Output, print, message_line, new_connection}
use liboizys.Example.EchoServer.{onmessage, accepted}
use liboizys.Example.EchoServer.Echoes.{run-onmessage, unsent_of, lines, accepted-IsEchoing}

-- The reads and writes of a connection, in any order, in which it gets messages: the message whose
-- header it has got at the beginning, and the messages that are complete at the end. No write fails.
pub data Talk : Option ComMessage → List ComMessage → List (Event Output) → Type 0 where
  stop : {p : Option ComMessage} → Talk p [] []
  header :
      {ms : List ComMessage} {es : List (Event Output)} (m : ComMessage)
      → IsFramed m
      → Talk (some m) ms es
      → Talk none ms (read_completes (received m.header) ∷ es)
  payload :
      {ms : List ComMessage} {es : List (Event Output)} {m : ComMessage}
      → Talk none ms es
      → Talk (some m) (m ∷ ms) (read_completes (received m.payload) ∷ es)
  wrote :
      {p : Option ComMessage} {ms : List ComMessage} {es : List (Event Output)}
      → Talk p ms es
      → Talk p ms (write_completes written ∷ es)

-- What the session reads next.
abbrev pub IsReading : Option ComMessage → AsioSession Output → Type 0
IsReading none s = IsWaiting onmessage s
IsReading (some m) s =
    IsFramed m
    × (s.onmessage ≡ some onmessage)
    × (s.reads ≡ payload_read (length m.payload) ∷ [])
    × (s.message_to_read.header ≡ m.header)
    × (length s.message_to_read.payload ≡ length m.payload)

Talk-NoWriteFails :
    {p : Option ComMessage} {ms : List ComMessage} {es : List (Event Output)}
    → Talk p ms es
    → NoWriteFails es
Talk-NoWriteFails stop = tt
Talk-NoWriteFails (header m framed t) = Talk-NoWriteFails t
Talk-NoWriteFails (payload t) = Talk-NoWriteFails t
Talk-NoWriteFails (wrote t) = Talk-NoWriteFails t

-- What an event leaves: the next read, the messages that it queues, and the output.
abbrev Leaves : Option ComMessage → List ComMessage → Event Output → World Output → Type 0
Leaves p ms e w =
    IsReading p (step e w).session × (entered e w ≡ ms) × ((step e w).client ≡ lines ms w.client)

header-Leaves :
    (m : ComMessage) (w : World Output)
    → IsFramed m
    → IsReading none w.session
    → Leaves (some m) [] (read_completes (received m.header)) w
unfolding read_payload
header-Leaves m w framed (o, r, l) =
    let old = w.session.message_to_read.payload in
    let n = length m.payload in
    rw (header_received m.payload m w framed r l) (
      (framed, o, refl, refl, length-resize old n 0),
      drop_all (length w.session.write_queue) w.session.write_queue (omega arith),
      refl,
    )

payload-Leaves :
    (m : ComMessage) (w : World Output)
    → IsSending w.session
    → IsReading (some m) w.session
    → Leaves none (m ∷ []) (read_completes (received m.payload)) w
unfolding read_header
payload-Leaves m w sending (framed, o, r, same, l) =
    let filled = reading w.session.message_to_read.header m.payload w in
    let (grown, _, _) = enqueue-unsent w.session.write_queue m filled.session refl sending in
    rw
      (
        payload_received (length m.payload) onmessage m.payload w o r (sym l),
        run-onmessage m filled framed,
        enqueue_elsewhere m filled.session,
        grown,
      )
      (
        (o, refl, ap length same ∙ (com_message-fields m.payload m framed).2),
        drop-append w.session.write_queue (m ∷ []),
        refl,
      )

-- A write that has been completed changes the queue and the writes only.
abbrev IsElsewhere : World Output → World Output → Type 0
IsElsewhere w v =
    (queue : List ComMessage) × (ops : List WriteOp) × (v
      ≡ on_session (λ s. record s { write_queue = queue; writes = ops }) w)

write_done-IsElsewhere :
    (ops : List WriteOp) (w : World Output) → IsElsewhere w (write_done ops written w).0
unfolding write_done header_write_done payload_write_done
write_done-IsElsewhere [] w = (w.session.write_queue, w.session.writes, refl)
write_done-IsElsewhere (header_write b ∷ ops) w = (
  _,
  _,
  ap (λ (s : AsioSession Output). record w { session = s })
      (write_payload_elsewhere (record w.session { writes = ops })),
)
write_done-IsElsewhere (payload_write b ∷ ops) w = (
  _,
  _,
  ap (λ (s : AsioSession Output). record w { session = s })
      (write_header_elsewhere
        (record w.session { writes = ops; write_queue = pop w.session.write_queue })),
)

IsReading-elsewhere :
    (p : Option ComMessage) (w v : World Output)
    → IsElsewhere w v
    → IsReading p w.session
    → IsReading p v.session × (v.client ≡ w.client)
IsReading-elsewhere none w v (queue, ops, same) h = rw same (h, refl)
IsReading-elsewhere (some m) w v (queue, ops, same) h = rw same (h, refl)

written-Leaves :
    (p : Option ComMessage) (w : World Output)
    → IsReading p w.session
    → Leaves p [] (write_completes written) w
unfolding handle
written-Leaves p w h =
    let (next, quiet) =
      IsReading-elsewhere p w (step (write_completes written) w)
        (write_done-IsElsewhere w.session.writes w) h in
    (next, refl, quiet)

Holds : List ComMessage → List (Event Output) → World Output → Type 0
Holds ms es w = (all_entered es w ≡ ms) × ((steps es w).client ≡ lines ms w.client)

lines-append :
    (ms ns : List ComMessage) (out : Output) → lines (ms ++ ns) out ≡ lines ns (lines ms out)
lines-append [] ns out = refl
lines-append (m ∷ ms) ns out = lines-append ms ns (print (message_line m.payload) out)

sent_on :
    (e : Event Output) (w : World Output)
    → NoWriteFails (e ∷ [])
    → IsSending w.session
    → IsSending (step e w).session
sent_on e w calm sending =
    Passes-IsSending (taken e w.session.writes) (entered e w) w.session (step e w).session
      (step-Passes e w calm sending)

-- An event, and then more of them.
Holds-cons :
    (p : Option ComMessage) (ms ns : List ComMessage) (e : Event Output) (es : List (Event Output))
    (w : World Output)
    → Leaves p ms e w
    → Holds ns es (step e w)
    → Holds (ms ++ ns) (e ∷ es) w
unfolding Holds
Holds-cons p ms ns e es w (next, queued, said) (more, told) = (
  ap (λ xs. xs ++ all_entered es (step e w)) queued ∙ ap (λ xs. ms ++ xs) more,
  told ∙ ap (lines ns) said ∙ sym (lines-append ms ns w.client),
)

Talk-Holds :
    {p : Option ComMessage} {ms : List ComMessage} {es : List (Event Output)} (w : World Output)
    → Talk p ms es
    → IsReading p w.session
    → IsSending w.session
    → Holds ms es w
Talk-Holds w stop h sending = unfold Holds in (refl, refl)
Talk-Holds w (header {ms} {es} m framed t) h sending =
    let e = read_completes (received m.header) in
    let one = header-Leaves m w framed h in
    Holds-cons (some m) [] ms e es w one (Talk-Holds (step e w) t one.0 (sent_on e w tt sending))
Talk-Holds w (payload {ms} {es} {m} t) h sending =
    let e = read_completes (received m.payload) in
    let one = payload-Leaves m w sending h in
    Holds-cons none (m ∷ []) ms e es w one (Talk-Holds (step e w) t one.0 (sent_on e w tt sending))
Talk-Holds w (wrote {p} {ms} {es} t) h sending =
    let e = write_completes written in
    let one = written-Leaves p w h in
    Holds-cons p [] ms e es w one (Talk-Holds (step e w) t one.0 (sent_on e w tt sending))

-- A connection that the echo server has accepted, whose reads and writes are interleaved in any way, where
-- each read that is completed gets the whole header or payload of a message, none with an error, and no
-- write fails: the bytes that it has put on the wire and those that it has yet to
-- write are together the whole frames of the messages that it has got, in their order; and each of
-- them has been printed.
pub Talk-frames :
    {ms : List ComMessage} {es : List (Event Output)} (out : Output)
    → Talk none ms es
    → let w = accepted out in
      (wire es w ++ unsent_of (steps es w).session ≡ frames ms)
      × ((steps es w).client ≡ lines ms (print new_connection out))
unfolding Passes Holds
Talk-frames {ms} {es} out t =
    let w = accepted out in
    let (ready, idle, quiet) = accepted-IsEchoing out in
    let (queued, said) = Talk-Holds w t ready.1 ready.0 in
    let passes = wire-Passes es w (Talk-NoWriteFails t) ready.0 in
    (
      passes.1 ∙ ap (λ bytes. bytes ++ frames (all_entered es w)) idle ∙ ap frames queued,
      said ∙ ap (lines ms) quiet,
    )
