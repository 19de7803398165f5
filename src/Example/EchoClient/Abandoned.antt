-- ===== src/Example/EchoClient/Abandoned.antt =====
-- example/echo/echo_client.cpp: the client when its connection is lost before there is a reply.
use liboizys.Common.{
  ℕ, ◌≡◌, ◌⊎◌, inl, inr, refl, ap, ◌∙◌, ◌++◌, Bool, true, false, List, [], ◌∷◌, ok, All, All-append,
}
use liboizys.ComMessage.{ComMessage}
use liboizys.Session.{Bytes, World, create_session}
use liboizys.Session.Events.{
  Event, client_runs, read_completes, write_completes, received, read_failed, handle, step,
}
use liboizys.Session.Oblivious.{IsCompletion}
use liboizys.Session.Valid.{IsFramed}
use liboizys.Example.EchoClient.Lost.{
  IsAbandoned, step-IsAbandoned, Awaits, Waiting, write_waits, received_waits, failed_ends,
}
use liboizys.Example.EchoClient.{State, run_loop, left, caught, main}
use liboizys.Example.Options.{Application}
use liboizys.Example.Program.{waits}
use liboizys.Example.EchoClient.Replies.{begun, start_accepted, main-connected, run_loop_waits}

loop_goes_on :
    (es : List (Event State)) (w : World State)
    → All IsCompletion es
    → w.client.finished_waiting ≡ false
    → IsAbandoned w.session
    → (run_loop es w).client ≡ w.client
unfolding run_loop
loop_goes_on [] w c waiting h = refl
loop_goes_on (e ∷ es) w (c, cs) waiting h =
    let (same, h') = step-IsAbandoned e w c h in
    ap (λ (v : World State). v.client) (run_loop_waits e es w waiting)
    ∙ loop_goes_on es (step e w) cs (ap (λ (s : State). s.finished_waiting) same ∙ waiting) h'
    ∙ same

-- Completions in which no reply is complete: at most one read is, and that is the read of the header,
-- unless it has been before (`true`).
abbrev pub NoReply : Bool → List (Event State) → Type 0
NoReply got [] = Unit {0}
NoReply got (client_runs script ∷ es) = ⊥
NoReply got (write_completes r ∷ es) = NoReply got es
NoReply got (read_completes (read_failed err bytes) ∷ es) = NoReply got es
NoReply false (read_completes (received bytes) ∷ es) = NoReply true es
NoReply true (read_completes (received bytes) ∷ es) = ⊥

NoReply-IsCompletion : (got : Bool) (es : List (Event State)) → NoReply got es → All IsCompletion es
NoReply-IsCompletion got [] h = tt
NoReply-IsCompletion got (client_runs script ∷ es) h = absurd h
NoReply-IsCompletion got (write_completes r ∷ es) h = (tt, NoReply-IsCompletion got es h)
NoReply-IsCompletion got (read_completes (read_failed err bytes) ∷ es) h =
    (tt, NoReply-IsCompletion got es h)
NoReply-IsCompletion false (read_completes (received bytes) ∷ es) h =
    (tt, NoReply-IsCompletion true es h)
NoReply-IsCompletion true (read_completes (received bytes) ∷ es) h = absurd h

left_waiting :
    (code : ℕ) (w : World State) → w.client.finished_waiting ≡ false → left code w ≡ waits w
unfolding left
left_waiting code w waiting = rw (waiting, left) refl

-- An event that leaves the client waiting, and then more of them.
loop_on :
    (got : Bool) (e : Event State) (before es : List (Event State)) (err : ℕ) (bytes : Bytes)
    (w : World State)
    → w.client.finished_waiting ≡ false
    → Waiting got w (step e w)
    → ((step e w).client.finished_waiting ≡ false
        → Awaits got (step e w).session ⊎ IsAbandoned (step e w).session
        → (run_loop (before ++ read_completes (read_failed err bytes) ∷ es) (step e w)).client
          ≡ (step e w).client)
    → (run_loop (e ∷ before ++ read_completes (read_failed err bytes) ∷ es) w).client ≡ w.client
loop_on got e before es err bytes w waiting (same, next) goes_on =
    ap (λ (v : World State). v.client)
      (run_loop_waits e (before ++ read_completes (read_failed err bytes) ∷ es) w waiting)
    ∙ goes_on (ap (λ (s : State). s.finished_waiting) same ∙ waiting) next
    ∙ same

-- With a loss after completions without a reply, the loop goes on for ever.
loop_waits :
    (got : Bool) (before es : List (Event State)) (err : ℕ) (bytes : Bytes) (w : World State)
    → NoReply got before
    → All IsCompletion es
    → w.client.finished_waiting ≡ false
    → Awaits got w.session ⊎ IsAbandoned w.session
    → (run_loop (before ++ read_completes (read_failed err bytes) ∷ es) w).client ≡ w.client
unfolding handle
loop_waits got before es err bytes w h cs waiting (inr gone) =
    loop_goes_on (before ++ read_completes (read_failed err bytes) ∷ es) w
      (All-append IsCompletion before (read_completes (read_failed err bytes) ∷ es)
        (NoReply-IsCompletion got before h) (tt, cs))
      waiting gone
loop_waits got [] es err bytes w h cs waiting (inl a) =
    let lost = read_completes (read_failed err bytes) in
    let (same, gone) = failed_ends got err bytes w a in
    ap (λ (v : World State). v.client) (run_loop_waits lost es w waiting)
    ∙ loop_goes_on es (step lost w) cs (ap (λ (s : State). s.finished_waiting) same ∙ waiting) gone
    ∙ same
loop_waits got (client_runs script ∷ before) es err bytes w h cs waiting (inl a) = absurd h
loop_waits got (write_completes r ∷ before) es err bytes w h cs waiting (inl a) =
    loop_on got (write_completes r) before es err bytes w waiting
      (write_waits got w.session.writes r w a)
      (loop_waits got before es err bytes (step (write_completes r) w) h cs)
loop_waits got (read_completes (read_failed err' bytes') ∷ before) es err bytes w h cs waiting
      (inl a) =
    let (same, gone) = failed_ends got err' bytes' w a in
    loop_on got (read_completes (read_failed err' bytes')) before es err bytes w waiting
      (same, inr gone)
      (loop_waits got before es err bytes (step (read_completes (read_failed err' bytes')) w) h cs)
loop_waits false (read_completes (received bytes') ∷ before) es err bytes w h cs waiting (inl a) =
    loop_on true (read_completes (received bytes')) before es err bytes w waiting
      (received_waits bytes' w a)
      (loop_waits true before es err bytes (step (read_completes (received bytes')) w) h cs)
loop_waits true (read_completes (received bytes') ∷ before) es err bytes w h cs waiting (inl a) =
    absurd h

-- If the echo client, which was not asked for help, has connected and sends a message that can be sent,
-- loses its connection before a reply is complete, that is if a read fails after any completions of
-- which at most one is a read with no error, that of the header of the reply, then it never ends:
-- whatever completions follow, its loop still waits, and it has printed nothing. It has no close handler
-- that would tell it.
pub waits_for_ever :
    (app : Application) (m : ComMessage) (before es : List (Event State)) (err : ℕ) (bytes : Bytes)
    → app.show_help ≡ false
    → IsFramed m
    → NoReply false before
    → All IsCompletion es
    → (w : World State) × (main app
          (ok tt)
          m.payload
          (before ++ read_completes (read_failed err bytes) ∷ es)
        ≡ waits w)
      × (w.client ≡ record { finished_waiting = false; output = [] })
unfolding caught create_session
waits_for_ever app m before es err bytes no_help framed none_yet cs =
    let all = before ++ read_completes (read_failed err bytes) ∷ es in
    let kept =
      loop_waits false before es err bytes (begun m) none_yet cs refl
        (inl (refl, refl, refl, refl)) in
    (
      run_loop all (begun m),
      main-connected app m.payload all no_help
          ∙ ap (caught app.exit_code all) (start_accepted m framed)
          ∙ left_waiting app.exit_code (run_loop all (begun m))
              (ap (λ (s : State). s.finished_waiting) kept),
      kept,
    )
