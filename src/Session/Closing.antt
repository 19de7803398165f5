-- ===== src/Session/Closing.antt =====
-- How a session of src/asio_session.cpp is closed, and what becomes of its handlers.
use liboizys.Common.{
  true, false, ◌≡◌, ◌≢◌, refl, sym, ap, ◌∙◌, subst, some, none, arith, is_some, Option-cases, inl,
  inr, List, throws, handler_already_set,
}
use liboizys.Session.{
  ErrorCode, success, CloseHandler, MessageHandler, AsioSession, World, finished, stuck, Effect,
}
use liboizys.Session.Methods.{
  returned, resume, swallow, on_session, shut, drop_onmessage, no_close_handler, no_message_handler,
  close_intern, set_onclose, set_onmessage, run, read_header,
}
use liboizys.Session.Branches.{
  close_intern_open, close_intern_closed, notify_closed_handler, notify_closed_silent,
  set_onclose_closed, enqueue_elsewhere, drop_onmessage-some, set_onclose_again,
  set_onmessage_again,
}
use liboizys.Session.Events.{Event, steps}
use liboizys.Session.Nesting.{exec-run}
use liboizys.Session.Blind.{closed-Ends}
use liboizys.Session.Flags.{steps-flags}
use liboizys.Session.Stable.{IsStable, Ends, drop_keeps, run-Ends}

module _ {W : Type 0} where
  -- The socket is closed, and the handlers are those that do nothing.
  abbrev pub IsRetired : AsioSession W → Type 0
  IsRetired s =
      (s.is_open ≡ false)
      × (s.onclose ≡ some no_close_handler)
      × (s.onmessage ≡ some no_message_handler)

  IsRetired-stable : IsStable IsRetired
  IsRetired-stable = record {
    at_enqueue = λ content m s e h. subst IsRetired (sym (enqueue_elsewhere m s)) h;
    at_shut = λ s h. (refl, h.1, h.2);
    at_onclose = λ g s e h. absurd (cc);
    at_reset = λ s o h. (o, refl, h.2);
    at_drop = drop_keeps IsRetired (λ old s e h. (h.0, h.1, refl));
    at_onmessage = λ g s e h. absurd (cc);
  }

  -- The notification of a session with both handlers leaves a message handler, which is dropped.
  abbrev HasOnmessage : AsioSession W → Type 0
  HasOnmessage s = is_some s.onmessage ≡ true

  HasOnmessage-stable : IsStable HasOnmessage
  unfolding read_header
  HasOnmessage-stable = record {
    at_enqueue = λ content m s e h. subst HasOnmessage (sym (enqueue_elsewhere m s)) h;
    at_shut = λ s h. h;
    at_onclose = λ g s e h. h;
    at_reset = λ s o h. h;
    at_drop = drop_keeps HasOnmessage (λ old s e h. refl);
    at_onmessage = λ g s e h. absurd (ground arith);
  }

  abbrev pub IsClosed : AsioSession W → Type 0
  IsClosed s = s.is_open ≡ false

  drop-IsRetired :
      (s : AsioSession W)
      → (s.is_open ≡ false) × (s.onclose ≡ some no_close_handler) × HasOnmessage s
      → IsRetired (drop_onmessage s)
  drop-IsRetired s h = elim (Option-cases s.onmessage) [
    | inl e ↦ absurd (ground arith)
    | inr (old, e) ↦ subst IsRetired (sym (drop_onmessage-some old s e)) (h.0, h.1, refl)
  ]

  pub IsClosed-stable : IsStable IsClosed
  unfolding read_header
  IsClosed-stable = record {
    at_enqueue = λ content m s e h. subst IsClosed (sym (enqueue_elsewhere m s)) h;
    at_shut = λ s h. refl;
    at_onclose = λ g s e h. h;
    at_reset = λ s o h. h;
    at_drop = drop_keeps IsClosed (λ old s e h. h);
    at_onmessage = λ g s e h. h;
  }

  two_steps :
      (e : Effect W (Unit {0})) (f g : World W → World W)
      → e.1 ≢ stuck
      → resume (resume (swallow e) (λ _ v. (f v, returned))) (λ _ v. (g v, returned))
        ≡ (g (f e.0), returned)
  two_steps (v, finished r) f g h = refl
  two_steps (v, stuck) f g h = absurd (h refl)

  -- Closing an open session with a close handler runs the handler once, with the error, on the
  -- session whose socket is closed already; whatever the handler does or throws, the close finishes,
  -- and then the handlers are replaced.
  pub close_intern_lem :
      (err : ErrorCode) (g : CloseHandler W) (w : World W)
      → w.session.is_open ≡ true
      → w.session.onclose ≡ some g
      → close_intern run err w ≡ (
        on_session
            (λ s. drop_onmessage (record s { onclose = some no_close_handler }))
            (run (g err) (on_session shut w)).0,
        returned,
      )
  close_intern_lem err g w o e =
      rw (close_intern_open run err w o, notify_closed_handler run err g (on_session shut w) e)
        (two_steps (run (g err) (on_session shut w)) _ _ (exec-run 0 (g err) (on_session shut w)).1)

  Ends-fact :
      (P : AsioSession W → Type 0) (e : Effect W (Unit {0}))
      → Ends (λ v. P v.session) e
      → P e.0.session
  Ends-fact P (v, finished x) h = h
  Ends-fact P (v, stuck) h = absurd h

  -- A session with both handlers that is closed, by its client or by an error, has no handler of its
  -- client from then on: whatever happens to it afterwards, its socket stays closed and both handlers
  -- are the ones that do nothing.
  pub steps-close_intern-IsRetired :
      (err : ErrorCode) (g : CloseHandler W) (old : MessageHandler W) (w : World W)
      (es : List (Event W))
      → w.session.is_open ≡ true
      → w.session.onclose ≡ some g
      → w.session.onmessage ≡ some old
      → IsRetired (steps es (close_intern run err w).0).session
  steps-close_intern-IsRetired err g old w es o e m =
      steps-flags IsRetired IsRetired-stable (λ s b queue rs ws h. h) es _
        (rw (close_intern_lem err g w o e) (
          drop-IsRetired (record after.session { onclose = some no_close_handler })
            (
              Ends-fact IsClosed (run (g err) (on_session shut w))
                  (run-Ends IsClosed IsClosed-stable (g err) (on_session shut w) refl),
              refl,
              Ends-fact HasOnmessage (run (g err) (on_session shut w)) (
                  run-Ends HasOnmessage HasOnmessage-stable (g err) (on_session shut w)
                    (ap is_some m)),
            )))
    where
      after : World W
      after = (run (g err) (on_session shut w)).0

  -- A second close does nothing: no handler runs, and nothing changes.
  pub close_intern-close_intern :
      (err again : ErrorCode) (w : World W)
      → close_intern run again (close_intern run err w).0 ≡ ((close_intern run err w).0, returned)
  close_intern-close_intern err again w = close_intern_closed run again (close_intern run err w).0 (
      Ends-fact IsClosed (close_intern run err w) (closed-Ends IsClosed IsClosed-stable err w refl))

  -- A session with both handlers that is closed, by its client or by an error, refuses new handlers
  -- from then on, whatever happens to it afterwards: those that the close has put in the place of the
  -- client's count as set.
  pub close_intern_refuses :
      (err : ErrorCode) (g later : CloseHandler W) (old next : MessageHandler W) (w : World W)
      (es : List (Event W))
      → w.session.is_open ≡ true
      → w.session.onclose ≡ some g
      → w.session.onmessage ≡ some old
      → let v = steps es (close_intern run err w).0 in
        (set_onclose run (some later) v ≡ (v, finished (throws handler_already_set)))
        × (set_onmessage (some next) v ≡ (v, finished (throws handler_already_set)))
  close_intern_refuses err g later old next w es o c m =
      let v = steps es (close_intern run err w).0 in
      let retired = steps-close_intern-IsRetired err g old w es o c m in
      (
        set_onclose_again run (some later) no_close_handler v retired.1,
        set_onmessage_again (some next) no_message_handler v retired.2,
      )

  swallow_world : (e : Effect W (Unit {0})) → (swallow e).0 ≡ e.0
  swallow_world (v, finished r) = refl
  swallow_world (v, stuck) = refl

  drop_onmessage_onclose : (s : AsioSession W) → (drop_onmessage s).onclose ≡ s.onclose
  drop_onmessage_onclose s = ground arith

  drop_onmessage_is_open : (s : AsioSession W) → (drop_onmessage s).is_open ≡ s.is_open
  drop_onmessage_is_open s = ground arith

  close_intern_silent :
      (err : ErrorCode) (w : World W)
      → w.session.onclose ≡ none
      → w.session.is_open ≡ true
      → close_intern run err w ≡ (on_session (λ s. drop_onmessage (shut s)) w, returned)
  close_intern_silent err w e o =
      rw (close_intern_open run err w o, notify_closed_silent run err (on_session shut w) e)

  -- A close handler that is set after the close runs at once, but is told of no error, whatever the
  -- error was that the session was closed by.
  pub set_onclose-close_intern :
      (err : ErrorCode) (g : CloseHandler W) (w : World W)
      → w.session.onclose ≡ none
      → w.session.is_open ≡ true
      → (set_onclose run (some g) (close_intern run err w).0).0
        ≡ (run
            (g success)
            (on_session (λ s. record (drop_onmessage (shut s)) { onclose = some g }) w)).0
  set_onclose-close_intern err g w e o =
      let w' : World W = on_session (λ s. drop_onmessage (shut s)) w in
      rw
        (
          close_intern_silent err w e o,
          set_onclose_closed run g w' (drop_onmessage_onclose (shut w.session) ∙ e)
              (drop_onmessage_is_open (shut w.session)),
        )
        (swallow_world _)
