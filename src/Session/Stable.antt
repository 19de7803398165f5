-- ===== src/Session/Stable.antt =====
-- The proof rule for client code of src/asio_session.cpp: what it keeps,
-- its handlers included.
mod Rule
pub use Rule.*
use liboizys.Common.{
  true, false, ◌≡◌, refl, sym, subst, some, none, arith, is_some, Option, Option-cases, Bool-cases,
  inl, inr, Result, ok, Result-cases,
}
use liboizys.ComMessage.{ComMessage, com_message}
use liboizys.Session.{
  Bytes, ErrorCode, success, Script, done, raise, update, inspect, sends, closes, sets_onclose,
  sets_onmessage, CloseHandler, MessageHandler, AsioSession, World, finished, stuck, Effect,
}
use liboizys.Session.Methods.{
  resume, swallow, send, enqueue, read_header, set_onmessage, close_intern, notify_closed, close,
  set_onclose, exec_with, exec, run, shut, drop_onmessage, on_session, no_close_handler,
  no_message_handler,
}
use liboizys.Session.Branches.{
  send_accepted, send_refused, set_onmessage_new, set_onmessage_again, set_onclose_again,
  set_onclose_open, set_onclose_closed, set_onclose_empty, notify_closed_silent,
  notify_closed_handler, close_intern_open, close_intern_closed, drop_onmessage-none,
  drop_onmessage-some,
}

module _ {W : Type 0} where
  -- The socket is closed and there is a close handler.
  abbrev pub IsCalm : AsioSession W → Type 0
  IsCalm s = (s.is_open ≡ false) × (is_some s.onclose ≡ true)

  send-Ends :
      (P : AsioSession W → Type 0)
      → IsStable P
      → (m : Bytes) (w : World W) → P w.session
      → Ends (λ v. P v.session) (send m w)
  send-Ends P st m w h = elim (Result-cases (com_message m)) [
    | inl (c, e) ↦ rw (send_accepted m c w e) (st.at_enqueue m c w.session e h)
    | inr (x, e) ↦ rw (send_refused m x w e) h
  ]

  set_onmessage-Ends :
      (P : AsioSession W → Type 0)
      → IsStable P
      → (g : Option (MessageHandler W)) (w : World W) → P w.session
      → Ends (λ v. P v.session) (set_onmessage g w)
  set_onmessage-Ends P st g w h = elim (Option-cases w.session.onmessage) [
    | inl e ↦ rw (set_onmessage_new g w e) (st.at_onmessage g w.session e h)
    | inr (old, e) ↦ rw (set_onmessage_again g old w e) h
  ]

  enqueue-IsCalm : (m : ComMessage) (s : AsioSession W) → IsCalm s → IsCalm (enqueue m s).0
  unfolding enqueue
  enqueue-IsCalm m s c = ground arith

  drop-IsCalm : (s : AsioSession W) → IsCalm s → IsCalm (drop_onmessage s)
  drop-IsCalm s c = ground arith

  IsCalm-stable : (P : AsioSession W → Type 0) → IsStable P → IsStable (λ s. P s × IsCalm s)
  unfolding read_header
  IsCalm-stable P st = record {
    at_enqueue = λ content m s e h. (st.at_enqueue content m s e h.0, enqueue-IsCalm m s h.1);
    at_shut = λ s h. (st.at_shut s h.0, (refl, h.1.1));
    at_onclose = λ g s e h. (st.at_onclose g s e h.0, absurd (ground arith));
    at_reset = λ s o h. (st.at_reset s o h.0, (h.1.0, refl));
    at_drop = λ s h. (st.at_drop s h.0, drop-IsCalm s h.1);
    at_onmessage = λ g s e h. (st.at_onmessage g s e h.0, h.1);
  }

  pub onclose_of_calm : (s : AsioSession W) → IsCalm s → (g : CloseHandler W) × (s.onclose ≡ some g)
  onclose_of_calm s c = elim (Option-cases s.onclose) [
    | inl e ↦ absurd (ground arith)
    | inr found ↦ found
  ]

  -- Where the socket is closed and a close handler is set, no call runs a handler.
  pub IsCalm-calls :
      (invoke : Script W → World W → Effect W (Unit {0})) (P : AsioSession W → Type 0)
      → IsStable P
      → Calls invoke (λ w. P w.session × IsCalm w.session)
  unfolding close
  IsCalm-calls invoke P st = record {
    at_update = λ f w h. h;
    at_send = λ m w h. send-Ends _ (IsCalm-stable P st) m w h;
    at_close = λ w h. rw (close_intern_closed invoke success w h.1.0) h;
    at_onclose = λ g w h.
        let (old, e) = onclose_of_calm w.session h.1 in rw (set_onclose_again invoke g old w e) h;
    at_onmessage = λ g w h. set_onmessage-Ends _ (IsCalm-stable P st) g w h;
  }

  -- So in client code, whatever would run the handlers.
  pub IsCalm-Ends :
      (invoke : Script W → World W → Effect W (Unit {0})) (P : AsioSession W → Type 0)
      → IsStable P
      → (s : Script W) (w : World W) → P w.session × IsCalm w.session
      → Ends (λ v. P v.session × IsCalm v.session) (exec_with invoke s w)
  IsCalm-Ends invoke P st = exec_with-Ends invoke _ (IsCalm-calls invoke P st)

  -- What `invoke` has to do for the calls that run a handler.
  abbrev pub Invokes :
      (Script W → World W → Effect W (Unit {0})) → (AsioSession W → Type 0) → Type 0
  Invokes invoke P =
      (s : Script W) (w : World W)
      → P w.session × IsCalm w.session
      → Ends (λ v. P v.session × IsCalm v.session) (invoke s w)

  module _ (invoke : Script W → World W → Effect W (Unit {0})) (P : AsioSession W → Type 0)
      (st : IsStable P) (keeps : Invokes invoke P) where
    notify_closed-Ends :
        (err : ErrorCode) (w : World W)
        → P w.session
        → w.session.is_open ≡ false
        → Ends (λ v. P v.session × (v.session.is_open ≡ false)) (notify_closed invoke err w)
    notify_closed-Ends err w h o = elim (Option-cases w.session.onclose) [
      | inl e ↦ rw (notify_closed_silent invoke err w e) (h, o)
      | inr (g, e) ↦ rw (notify_closed_handler invoke err g w e) (
          Ends-resume (λ v. P v.session × IsCalm v.session)
            (λ v. P v.session × (v.session.is_open ≡ false)) (swallow (invoke (g err) w)) _
            (Ends-swallow (λ v. P v.session × IsCalm v.session) (invoke (g err) w)
              (keeps (g err) w (h, (o, ground arith))))
            (λ r v hv. (st.at_reset v.session hv.1.0 hv.0, hv.1.0)))
    ]

    -- A close keeps it, if the socket's closing does, and leaves the socket closed.
    pub close_intern-Ends :
        (err : ErrorCode) (w : World W)
        → P (shut w.session)
        → Ends (λ v. P v.session × (v.session.is_open ≡ false)) (close_intern invoke err w)
    close_intern-Ends err w h = elim (Bool-cases w.session.is_open) [
      | inl o ↦ rw (close_intern_open invoke err w o) (
          Ends-resume (λ v. P v.session × (v.session.is_open ≡ false))
            (λ v. P v.session × (v.session.is_open ≡ false))
            (notify_closed invoke err (on_session shut w)) _
            (notify_closed-Ends err (on_session shut w) h refl)
            (λ r v hv. (st.at_drop v.session hv.0, drop_keeps_open v.session hv.1)))
      | inr o ↦ rw (close_intern_closed invoke err w o) (subst P (shut_closed w.session o) h, o)
    ]

    set_onclose_closed-Ends :
        (g : Option (CloseHandler W)) (w : World W)
        → w.session.onclose ≡ none
        → w.session.is_open ≡ false
        → P w.session
        → Ends (λ v. P v.session) (set_onclose invoke g w)
    set_onclose_closed-Ends none w e o h =
        rw (set_onclose_empty invoke w e o) (st.at_onclose none w.session e h)
    set_onclose_closed-Ends (some g) w e o h =
        let w' = on_session (λ s. record s { onclose = some g }) w in
        rw (set_onclose_closed invoke g w e o) (
          Ends-swallow (λ v. P v.session) (invoke (g success) w')
            (Ends-weaken (λ v. P v.session × IsCalm v.session) (λ v. P v.session) (λ v hv. hv.0)
              (invoke (g success) w')
              (keeps (g success) w' (st.at_onclose (some g) w.session e h, (o, refl)))))

    pub set_onclose-Ends :
        (g : Option (CloseHandler W)) (w : World W)
        → P w.session
        → Ends (λ v. P v.session) (set_onclose invoke g w)
    set_onclose-Ends g w h = elim (Option-cases w.session.onclose) [
      | inr (old, e) ↦ rw (set_onclose_again invoke g old w e) h
      | inl e ↦ elim (Bool-cases w.session.is_open) [
        | inl o ↦ rw (set_onclose_open invoke g w e o) (st.at_onclose g w.session e h)
        | inr o ↦ set_onclose_closed-Ends g w e o h
      ]
    ]

    invoke_calls : Calls invoke (λ w. P w.session)
    unfolding close
    invoke_calls = record {
      at_update = λ f w h. h;
      at_send = send-Ends P st;
      at_close = λ w h.
          Ends-weaken (λ v. P v.session × (v.session.is_open ≡ false)) (λ v. P v.session)
            (λ v hv. hv.0) (close_intern invoke success w)
            (close_intern-Ends success w (st.at_shut w.session h));
      at_onclose = set_onclose-Ends;
      at_onmessage = set_onmessage-Ends P st;
    }

  -- All client code finishes, and keeps every property that the single calls keep.
  pub run-Ends :
      (P : AsioSession W → Type 0)
      → IsStable P
      → (s : Script W) (w : World W) → P w.session
      → Ends (λ v. P v.session) (run s w)
  unfolding run exec
  run-Ends P st = exec_with-Ends (exec 0) _ (invoke_calls (exec 0) P st (IsCalm-Ends _ P st))

  run-Invokes : (P : AsioSession W → Type 0) → IsStable P → Invokes run P
  unfolding run exec
  run-Invokes P st = IsCalm-Ends (exec 0) P st

  -- A close whose handlers are run by `run`.
  pub run_close-Ends :
      (P : AsioSession W → Type 0)
      → IsStable P
      → (err : ErrorCode) (w : World W) → P (shut w.session)
      → Ends (λ v. P v.session × (v.session.is_open ≡ false)) (close_intern run err w)
  run_close-Ends P st = close_intern-Ends run P st (run-Invokes P st)
