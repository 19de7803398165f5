-- ===== src/Example/Chat/Client/Lines.antt =====
-- example/chat/chat_client.cpp: what becomes of the lines that are typed.
use Prim.Native.Nat.{◌+◌}
use liboizys.Common.{
  ℕ, ◌≡◌, ◌≢◌, ◌≤◌, refl, ap, ◌∙◌, true, false, some, Option, List, [], ◌∷◌, ◌++◌, ok, throws,
  Exception, Result, length, drop, drop_all, Bool, if◌then◌else◌, All, arith, length-append,
}
use liboizys.ComMessage.{ComMessage, com_message}
use liboizys.Session.{Bytes, sends, done, World, Effect, finished}
use liboizys.Session.Methods.{on_session, enqueue, run, exec, exec_with, resume}
use liboizys.Session.Branches.{send_accepted, send_refused}
use liboizys.Example.Program.{proceed, error_line, print, exits, Progress}
use liboizys.Example.Chat.{State, do_read}
use liboizys.Example.Chat.Client.{
  Client, ClientEvent, console_reads, getline, consume_line, after_send, line_read, client_step,
  client_loop,
}

-- No byte of a line is its end.
abbrev pub IsLine : Bytes → Type 0
IsLine line = All (λ b. b ≢ b'\n') line

getline_lem : (line rest : Bytes) → IsLine line → getline (line ++ b'\n' ∷ rest) ≡ some (line, rest)
unfolding getline
getline_lem [] rest plain = refl
getline_lem (b ∷ line) rest (other, plain) = ground (arith, getline_lem line rest plain)

run_sends :
    (content : Bytes) (m : ComMessage) (w : World State)
    → com_message content ≡ ok m
    → run (sends content (proceed done)) w ≡ (on_session (λ s. (enqueue m s).0) w, finished (ok tt))
unfolding run exec exec_with
run_sends content m w e =
    ap (λ (x : Effect State ℕ). resume x (λ r v. run (proceed done r) v))
      (send_accepted content m w e)

run_sends_refused :
    (content : Bytes) (x : Exception) (w : World State)
    → com_message content ≡ throws x
    → run (sends content (proceed done)) w ≡ (w, finished (throws x))
unfolding run exec exec_with
run_sends_refused content x w e =
    ap (λ (v : Effect State ℕ). resume v (λ r u. run (proceed done r) u))
      (send_refused content x w e)

module _ (parse : Bytes → Option (Bytes × Bytes)) (serialize : Bytes → Bytes → Bytes) where
  line_read_lem :
      (b : ℕ) (line more bytes : Bytes) (c : Client)
      → IsLine (b ∷ line)
      → c.console.buffer ++ bytes ≡ (b ∷ line) ++ b'\n' ∷ more
      → line_read parse serialize bytes c ≡ (
          let (w, outcome) =
            run (sends (serialize c.console.user (b ∷ line)) (proceed done)) c.world in
          after_send outcome (record {
            world = w;
            console = record c.console {
              buffer = drop (length (b ∷ line) + 1) more;
              reading = false;
            };
          }))
  unfolding line_read consume_line do_read
  line_read_lem b line more bytes c plain same =
      rw (same, getline_lem (b ∷ line) more plain, line_read) refl

  -- A line that is typed, whatever follows it: its message is put into the queue of the session, and the
  -- client waits for a next line. As many of the bytes that follow it are thrown away as the line and
  -- its end have.
  pub typed_line :
      (b : ℕ) (line more bytes : Bytes) (m : ComMessage) (c : Client)
      → IsLine (b ∷ line)
      → c.console.reading ≡ true
      → c.console.buffer ++ bytes ≡ (b ∷ line) ++ b'\n' ∷ more
      → com_message (serialize c.console.user (b ∷ line)) ≡ ok m
      → client_step parse serialize (console_reads bytes) c ≡ (
        record {
          world = on_session (λ s. (enqueue m s).0) c.world;
          console = record c.console { buffer = drop (length (b ∷ line) + 1) more; reading = true };
        },
        ok tt,
      )
  unfolding client_step after_send
  typed_line b line more bytes m c plain reading same framed =
      ap (λ (r : Bool). if r then line_read parse serialize bytes c else (c, ok tt)) reading
      ∙ line_read_lem b line more bytes c plain same
      ∙ ap
          (λ (e : Effect State (Unit {0})). after_send e.1 (record {
            world = e.0;
            console = record c.console {
              buffer = drop (length (b ∷ line) + 1) more;
              reading = false;
            };
          }))
          (run_sends (serialize c.console.user (b ∷ line)) m c.world framed)

  -- A typed line that is read together with a line before it that is as long or longer is lost: only
  -- the message of the first is put into the queue, and nothing of the second is left.
  pub second_line_lost :
      (user : Bytes) (b : ℕ) (line second : Bytes) (m : ComMessage) (w : World State)
      → IsLine (b ∷ line)
      → length second ≤ length (b ∷ line)
      → com_message (serialize user (b ∷ line)) ≡ ok m
      → client_step parse serialize
          (console_reads ((b ∷ line) ++ (b'\n' ∷ (second ++ b'\n' ∷ []))))
          (record { world = w; console = record { user = user; buffer = []; reading = true } })
        ≡ (
          record {
            world = on_session (λ s. (enqueue m s).0) w;
            console = record { user = user; buffer = []; reading = true };
          },
          ok tt,
        )
  second_line_lost user b line second m w plain shorter framed =
      let more = second ++ b'\n' ∷ [] in
      typed_line b line more ((b ∷ line) ++ b'\n' ∷ more) m
        (record { world = w; console = record { user = user; buffer = []; reading = true } }) plain
        refl refl framed
      ∙ ap
          (λ (rest : Bytes). (
            record {
              world = on_session (λ s. (enqueue m s).0) w;
              console = record { user = user; buffer = rest; reading = true };
            },
            ok tt,
          ))
          (drop_all (length (b ∷ line) + 1) more (omega (arith, length-append second (b'\n' ∷ []))))

  line_refused :
      (b : ℕ) (line more bytes : Bytes) (x : Exception) (c : Client)
      → IsLine (b ∷ line)
      → c.console.reading ≡ true
      → c.console.buffer ++ bytes ≡ (b ∷ line) ++ b'\n' ∷ more
      → com_message (serialize c.console.user (b ∷ line)) ≡ throws x
      → client_step parse serialize (console_reads bytes) c ≡ (
        record {
          world = c.world;
          console = record c.console {
            buffer = drop (length (b ∷ line) + 1) more;
            reading = false;
          };
        },
        throws x,
      )
  unfolding client_step after_send
  line_refused b line more bytes x c plain reading same refused =
      ap (λ (r : Bool). if r then line_read parse serialize bytes c else (c, ok tt)) reading
      ∙ line_read_lem b line more bytes c plain same
      ∙ ap
          (λ (e : Effect State (Unit {0})). after_send e.1 (record {
            world = e.0;
            console = record c.console {
              buffer = drop (length (b ∷ line) + 1) more;
              reading = false;
            };
          }))
          (run_sends_refused (serialize c.console.user (b ∷ line)) x c.world refused)

  raised_ends :
      (e : ClientEvent) (es : List ClientEvent) (code : ℕ) (c c' : Client) (x : Exception)
      → c.world.client.shutdown_requested ≡ false
      → client_step parse serialize e c ≡ (c', throws x)
      → client_loop parse serialize (e ∷ es) code c
        ≡ exits (print (error_line x) c'.world.client.output) code
  unfolding client_loop
  raised_ends e es code c c' x alive stepped =
      ap
        (λ (r : Client × Result (Unit {0})).
          let next : Progress Client = elim r.1 [
            | ok done' ↦ client_loop parse serialize es code r.0
            | throws y ↦ exits (print (error_line y) r.0.world.client.output) code
          ] in
          if c.world.client.shutdown_requested then exits c.world.client.output code else next)
        stepped
      ∙ ap
          (λ (b : Bool).
            if b
            then exits c.world.client.output code
            else exits (print (error_line x) c'.world.client.output) code)
          alive

  -- A typed line whose message `send` refuses, as it does one that is too large, ends the client: the
  -- exception leaves the loop, is printed, and nothing after it is looked at.
  pub refused_line_ends :
      (b : ℕ) (line more bytes : Bytes) (x : Exception) (es : List ClientEvent) (code : ℕ)
      (c : Client)
      → IsLine (b ∷ line)
      → c.world.client.shutdown_requested ≡ false
      → c.console.reading ≡ true
      → c.console.buffer ++ bytes ≡ (b ∷ line) ++ b'\n' ∷ more
      → com_message (serialize c.console.user (b ∷ line)) ≡ throws x
      → client_loop parse serialize (console_reads bytes ∷ es) code c
        ≡ exits (print (error_line x) c.world.client.output) code
  refused_line_ends b line more bytes x es code c plain alive reading same refused =
      raised_ends (console_reads bytes) es code c
        (record {
          world = c.world;
          console = record c.console {
            buffer = drop (length (b ∷ line) + 1) more;
            reading = false;
          };
        })
        x alive (line_refused b line more bytes x c plain reading same refused)
