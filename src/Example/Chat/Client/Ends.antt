-- ===== src/Example/Chat/Client/Ends.antt =====
-- example/chat/chat_client.cpp: how the client ends.
use liboizys.Common.{
  ℕ, ◌≡◌, refl, ap, ◌∙◌, Bool, Bool-cases, true, false, inl, inr, Option, List, [], ◌∷◌, ◌++◌,
  Result, ok, throws, if◌then◌else◌,
}
use liboizys.Session.{Bytes, create_session}
use liboizys.Session.Methods.{run, exec, exec_with, set_onclose, set_onmessage}
use liboizys.Example.Options.{ClientApplication}
use liboizys.Example.Usage.{chat_client_usage}
use liboizys.Example.Program.{Output, Progress, exits, error_line, print}
use liboizys.Example.Chat.Client.{
  Client, ClientEvent, signal, client_step, client_loop, client_start, client_main,
}

-- The program has come to its end, with an exit code.
abbrev pub HasExited : {S : Type 0} → ℕ → Progress S → Type 0
HasExited code progress = (out : Output) × (progress ≡ exits out code)

module _ (parse : Bytes → Option (Bytes × Bytes)) (serialize : Bytes → Bytes → Bytes) where
  -- What follows an event, if there was no shutdown before.
  abbrev next : List ClientEvent → ℕ → Client × Result (Unit {0}) → Progress Client
  next es code r = elim r.1 [
    | ok sent ↦ client_loop parse serialize es code r.0
    | throws x ↦ exits (print (error_line x) r.0.world.client.output) code
  ]

  loop-cons :
      (e : ClientEvent) (es : List ClientEvent) (code : ℕ) (c : Client)
      → client_loop parse serialize (e ∷ es) code c ≡ (
          if c.world.client.shutdown_requested
          then exits c.world.client.output code
          else next es code (client_step parse serialize e c))
  unfolding client_loop
  loop-cons e es code c = refl

  shut_ends :
      (es : List ClientEvent) (code : ℕ) (c : Client)
      → c.world.client.shutdown_requested ≡ true
      → HasExited code (client_loop parse serialize es code c)
  unfolding client_loop
  shut_ends [] code c shut = (c.world.client.output, rw shut refl)
  shut_ends (e ∷ es) code c shut = (c.world.client.output, rw (loop-cons e es code c, shut) refl)

  -- One event, and then events after which the client has ended.
  next_ends :
      (es : List ClientEvent) (code : ℕ) (c : Client) (r : Result (Unit {0}))
      → HasExited code (client_loop parse serialize es code c)
      → HasExited code (next es code (c, r))
  next_ends es code c (ok sent) ended = ended
  next_ends es code c (throws x) ended = (print (error_line x) c.world.client.output, refl)

  signal_ends :
      (more : List ClientEvent) (code : ℕ) (c : Client)
      → HasExited code (next more code (client_step parse serialize signal c))
  unfolding client_step
  signal_ends more code c = shut_ends more code (client_step parse serialize signal c).0 refl

  goes_on :
      (e : ClientEvent) (es : List ClientEvent) (code : ℕ) (c : Client)
      → HasExited code (next es code (client_step parse serialize e c))
      → HasExited code (client_loop parse serialize (e ∷ es) code c)
  goes_on e es code c ended = elim (Bool-cases c.world.client.shutdown_requested) [
    | inl shut ↦ shut_ends (e ∷ es) code c shut
    | inr alive ↦ (
      ended.0,
      loop-cons e es code c
          ∙ ap
              (λ (b : Bool).
                if b
                then exits c.world.client.output code
                else next es code (client_step parse serialize e c))
              alive
          ∙ ended.1,
    )
  ]

  -- The loop ends at a signal at the latest.
  loop_ends :
      (es more : List ClientEvent) (code : ℕ) (c : Client)
      → HasExited code (client_loop parse serialize (es ++ signal ∷ more) code c)
  loop_ends [] more code c = goes_on signal more code c (signal_ends more code c)
  loop_ends (e ∷ es) more code c =
      let r = client_step parse serialize e c in
      goes_on e (es ++ signal ∷ more) code c
        (next_ends (es ++ signal ∷ more) code r.0 r.1 (loop_ends es more code r.0))

  connects_ends :
      (user : Bytes) (app : ClientApplication) (connected : Result (Unit {0}))
      (es more : List ClientEvent)
      → app.show_help ≡ false
      → HasExited app.exit_code
          (client_main parse serialize user app connected (es ++ signal ∷ more))
  unfolding client_main client_start run exec exec_with create_session set_onclose set_onmessage
  connects_ends user app (throws e) es more no_help = (error_line e ∷ [], rw no_help refl)
  connects_ends user app (ok opened) es more no_help =
      rw no_help (loop_ends es more app.exit_code _)

  -- The chat client ends at its first signal at the latest, whatever its command line, whether or not it
  -- can connect, and whatever comes from the console and from the server before, also with exceptions:
  -- it never waits for more then, nor is its behaviour undefined, and it returns the exit code of its
  -- command line.
  pub client_main_ends :
      (user : Bytes) (app : ClientApplication) (connected : Result (Unit {0}))
      (es more : List ClientEvent)
      → HasExited app.exit_code
          (client_main parse serialize user app connected (es ++ signal ∷ more))
  unfolding client_main
  client_main_ends user app connected es more = elim (Bool-cases app.show_help) [
    | inl help ↦ (chat_client_usage, rw help refl)
    | inr no_help ↦ connects_ends user app connected es more no_help
  ]
