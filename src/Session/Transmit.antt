-- ===== src/Session/Transmit.antt =====
-- A session of src/asio_session.cpp sends, and another one receives what it has put on the wire.
use mathlib.Core.List.{append_assoc, append-nil}
use liboizys.Common.{ℕ, ◌≡◌, refl, sym, ap, ◌∙◌, ◌++◌, List, [], ◌∷◌, All}
use liboizys.ComMessage.{ComMessage}
use liboizys.Session.{Bytes, Script, done, sends, header_write, WriteOp, AsioSession, World, Effect}
use liboizys.Session.Methods.{returned, resume, enqueue, on_session, run, exec, exec_with}
use liboizys.Session.Branches.{send_accepted, enqueue_first, enqueue_next}
use liboizys.Session.Events.{
  Event, client_runs, read_completes, write_completes, received, read_failed, written, handle, step,
  steps,
}
use liboizys.Session.Valid.{IsFramed}
use liboizys.Session.Wire.{frame, frames}
use liboizys.Session.Wire.Trace.{wire}
use liboizys.Session.Receive.{
  IsWaiting, deliveries, collect, collected, HasCollected, receive_frames,
}

module _ {W : Type 0} where
  -- The world with messages to send, the first of which has just begun to be written.
  abbrev pub pending : List ComMessage → World W → World W
  pending [] w = record w { session = record w.session { write_queue = []; writes = [] } }
  pending (m ∷ ms) w = record w {
    session = record w.session { write_queue = m ∷ ms; writes = header_write m.header ∷ [] };
  }

  -- Client code that sends the contents of messages.
  abbrev pub sends_each : List ComMessage → Script W
  sends_each [] = done
  sends_each (m ∷ ms) = sends m.payload (λ r. sends_each ms)

  -- Each message is written with no error: its header and its payload.
  abbrev pub completions : List ComMessage → List (Event W)
  completions [] = []
  completions (m ∷ ms) = write_completes written ∷ write_completes written ∷ completions ms

  round_steps :
      (m : ComMessage) (ms : List ComMessage) (w : World W)
      → steps (completions (m ∷ [])) (pending (m ∷ ms) w) ≡ pending ms w
  unfolding handle
  round_steps m [] w = refl
  round_steps m (m' ∷ ms) w = refl

  pub drain_steps :
      (ms : List ComMessage) (w : World W) → steps (completions ms) (pending ms w) ≡ pending [] w
  drain_steps [] w = refl
  drain_steps (m ∷ ms) w =
      ap (λ (x : World W). steps (completions ms) x) (round_steps m ms w) ∙ drain_steps ms w

  round_wire :
      (m : ComMessage) (ms : List ComMessage) (es : List (Event W)) (w : World W)
      → wire (write_completes written ∷ write_completes written ∷ es) (pending (m ∷ ms) w)
        ≡ frame m ++ wire es (steps (completions (m ∷ [])) (pending (m ∷ ms) w))
  unfolding handle
  round_wire m ms es w = sym (append_assoc m.header m.payload _)

  pub drain_wire :
      (ms : List ComMessage) (w : World W) → wire (completions ms) (pending ms w) ≡ frames ms
  drain_wire [] w = refl
  drain_wire (m ∷ ms) w =
      round_wire m ms (completions ms) w
      ∙ ap (λ (x : World W). frame m ++ wire (completions ms) x) (round_steps m ms w)
      ∙ ap (λ (x : Bytes). frame m ++ x) (drain_wire ms w)

  pub enqueue-pending :
      (m : ComMessage) (queue : List ComMessage) (w : World W)
      → on_session (λ s. (enqueue m s).0) (pending queue w) ≡ pending (queue ++ m ∷ []) w
  enqueue-pending m [] w =
      ap (λ (s : AsioSession W). record w { session = s })
        (enqueue_first m (record w.session { write_queue = []; writes = [] }) refl)
  enqueue-pending m (first ∷ queue) w =
      ap (λ (s : AsioSession W). record w { session = s })
        (enqueue_next m first queue (pending (first ∷ queue) w).session refl)

  sends_each_lem :
      (queue ms : List ComMessage) (w : World W)
      → All IsFramed ms
      → run (sends_each ms) (pending queue w) ≡ (pending (queue ++ ms) w, returned)
  unfolding run exec exec_with
  sends_each_lem queue [] w framed =
      ap (λ (x : List ComMessage). (pending x w, returned)) (sym (append-nil queue))
  sends_each_lem queue (m ∷ ms) w (e, framed) =
      ap (λ (x : Effect W ℕ). resume x (λ r w'. run (sends_each ms) w'))
        (send_accepted m.payload m (pending queue w) e)
      ∙ ap (λ (x : World W). run (sends_each ms) x) (enqueue-pending m queue w)
      ∙ sends_each_lem (queue ++ m ∷ []) ms w framed
      ∙ ap (λ (x : List ComMessage). (pending x w, returned)) (append_assoc queue (m ∷ []) ms)

  -- Nothing is to be written.
  abbrev pub IsIdle : AsioSession W → Type 0
  IsIdle s = (s.write_queue ≡ []) × (s.writes ≡ [])

  pub pending-IsIdle : (w : World W) → IsIdle w.session → pending [] w ≡ w
  pending-IsIdle w (q, o) =
      ap
        (λ (x : List ComMessage). record w {
          session = record w.session { write_queue = x; writes = [] };
        })
        (sym q)
      ∙ ap (λ (x : List WriteOp). record w { session = record w.session { writes = x } }) (sym o)

  started :
      (ms : List ComMessage) (w : World W)
      → All IsFramed ms
      → IsIdle w.session
      → step (client_runs (sends_each ms)) w ≡ pending ms w
  unfolding handle
  started ms w framed idle =
      ap (λ (x : World W). (run (sends_each ms) x).0) (sym (pending-IsIdle w idle))
      ∙ ap (λ (x : Effect W (Unit {0})). x.0) (sends_each_lem [] ms w framed)

  -- The events of a client that sends messages, each of which is then written with no error.
  abbrev pub transmission : List ComMessage → List (Event W)
  transmission ms = client_runs (sends_each ms) ∷ completions ms

  -- A session with nothing to write whose client sends messages puts exactly their frames on the wire,
  -- in their order, when every write is completed with no error; and it is then as it was before.
  pub transmission_lem :
      (ms : List ComMessage) (w : World W)
      → All IsFramed ms
      → IsIdle w.session
      → (wire (transmission ms) w ≡ frames ms) × (steps (transmission ms) w ≡ w)
  transmission_lem ms w framed idle =
      let begun = started ms w framed idle in
      (
        ap (λ (x : World W). wire (completions ms) x) begun ∙ drain_wire ms w,
        ap (λ (x : World W). steps (completions ms) x) begun
            ∙ drain_steps ms w
            ∙ pending-IsIdle w idle,
      )

-- The bytes that the reads of events take off the wire.
abbrev pub arriving : {W : Type 0} → List (Event W) → Bytes
arriving [] = []
arriving (read_completes (received bytes) ∷ es) = bytes ++ arriving es
arriving (read_completes (read_failed err bytes) ∷ es) = bytes ++ arriving es
arriving (e ∷ es) = arriving es

pub arriving-deliveries :
    (W : Type 0) (ms : List ComMessage) → arriving {W = W} (deliveries ms) ≡ frames ms
arriving-deliveries W [] = refl
arriving-deliveries W (m ∷ ms) =
    sym (append_assoc m.header m.payload _)
    ∙ ap (λ (x : Bytes). frame m ++ x) (arriving-deliveries W ms)

-- A session with nothing to write, whose client sends messages and whose writes are completed with no
-- error, and a session that waits for a header: the bytes that the first writes are those that the
-- reads of the second take, the client of the second gets exactly the contents, in their order, and the
-- first session is then as it was before.
pub sent_arrives :
    {V W : Type 0} (f : Bytes → W → W) (ms : List ComMessage) (sender : World V)
    (receiver : World W)
    → All IsFramed ms
    → IsIdle sender.session
    → IsWaiting (collect f) receiver.session
    → (arriving (deliveries {W = W} ms) ≡ wire (transmission ms) sender)
      × (steps (transmission ms) sender ≡ sender)
      × HasCollected f
          (collected f ms receiver.client)
          receiver.session
          (steps (deliveries ms) receiver)
sent_arrives f ms sender receiver framed idle waiting =
    let (bytes, same) = transmission_lem ms sender framed idle in
    (arriving-deliveries _ ms ∙ sym bytes, same, receive_frames f ms receiver framed waiting)
