-- ===== src/Session/Nesting.antt =====
-- How deep the handlers of src/asio_session.cpp nest.
use mathlib.Core.Path.{fun_ext}
use liboizys.Common.{
  ℕ, zero, suc, false, ◌≡◌, refl, sym, ap, ◌∙◌, ◌≢◌, some, none, Option, arith, Bool-cases,
  Option-cases, inl, inr, Result,
}
use liboizys.Session.{
  ErrorCode, success, Script, done, raise, update, inspect, sends, closes, sets_onclose,
  sets_onmessage, sets_empty_onclose, sets_empty_onmessage, CloseHandler, World, finished, stuck,
  Effect,
}
use liboizys.Session.Methods.{
  resume, send, set_onmessage, close_intern, notify_closed, close, set_onclose, exec_with, exec,
  run, shut, on_session,
}
use liboizys.Session.Branches.{
  close_intern_open, close_intern_closed, notify_closed_silent, notify_closed_handler,
  set_onclose_again, set_onclose_open, set_onclose_closed, set_onclose_empty,
}
use liboizys.Session.Stable.{IsStable, Ends, IsCalm, IsCalm-calls, run-Ends, onclose_of_calm}

module _ {W : Type 0} where
  always_stable : IsStable {W = W} (λ s. Unit {0})
  always_stable = record {
    at_enqueue = λ content m s e h. tt;
    at_shut = λ s h. tt;
    at_onclose = λ g s e h. tt;
    at_reset = λ s o h. tt;
    at_drop = λ s h. tt;
    at_onmessage = λ g s e h. tt;
  }

  resume_agree :
      {A B : Type 0} (P : World W → Type 0) (e : Effect W A)
      (k k' : Result A → World W → Effect W B)
      → Ends P e
      → ((r : Result A) (v : World W) → P v → k r v ≡ k' r v)
      → resume e k ≡ resume e k'
  resume_agree P (v, finished r) k k' h agree = agree r v h
  resume_agree P (v, stuck) k k' h agree = refl

  abbrev Calm : World W → Type 0
  Calm w = Unit {0} × IsCalm w.session

  -- On a calm session it does not matter what would run the handlers.
  Calm-agree :
      (i j : Script W → World W → Effect W (Unit {0})) (s : Script W) (w : World W)
      → Calm w
      → exec_with i s w ≡ exec_with j s w
  unfolding exec_with close
  Calm-agree i j done w c = refl
  Calm-agree i j (raise e) w c = refl
  Calm-agree i j (update f k) w c = Calm-agree i j k (record w { client = f w.client }) c
  Calm-agree i j (inspect k) w c = Calm-agree i j (k w.client) w c
  Calm-agree i j (sends m k) w c =
      resume_agree Calm (send m w) _ _
        ((IsCalm-calls i (λ s. Unit {0}) always_stable).at_send m w c)
        (λ r v cv. Calm-agree i j (k r) v cv)
  Calm-agree i j (closes k) w c =
      rw (close_intern_closed i success w c.1.0, close_intern_closed j success w c.1.0)
        (Calm-agree i j k w c)
  Calm-agree i j (sets_onclose g k) w c =
      let (old, e) = onclose_of_calm w.session c.1 in
      rw (set_onclose_again i (some g) old w e, set_onclose_again j (some g) old w e)
        (Calm-agree i j (k _) w c)
  Calm-agree i j (sets_onmessage g k) w c =
      resume_agree Calm (set_onmessage (some g) w) _ _
        ((IsCalm-calls i (λ s. Unit {0}) always_stable).at_onmessage (some g) w c)
        (λ r v cv. Calm-agree i j (k r) v cv)
  Calm-agree i j (sets_empty_onclose k) w c =
      let (old, e) = onclose_of_calm w.session c.1 in
      rw (set_onclose_again i none old w e, set_onclose_again j none old w e)
        (Calm-agree i j (k _) w c)
  Calm-agree i j (sets_empty_onmessage k) w c =
      resume_agree Calm (set_onmessage none w) _ _
        ((IsCalm-calls i (λ s. Unit {0}) always_stable).at_onmessage none w c)
        (λ r v cv. Calm-agree i j (k r) v cv)

  exec-Calm : (depth : ℕ) (s : Script W) (w : World W) → Calm w → exec depth s w ≡ exec 0 s w
  unfolding exec
  exec-Calm zero s w c = refl
  exec-Calm (suc depth) s w c = Calm-agree (exec depth) _ s w c

  notify_closed_agree :
      (depth : ℕ) (err : ErrorCode) (w : World W)
      → w.session.is_open ≡ false
      → notify_closed (exec depth) err w ≡ notify_closed (exec 0) err w
  notify_closed_agree depth err w o = elim (Option-cases w.session.onclose) [
    | inl e ↦
        notify_closed_silent (exec depth) err w e ∙ sym (notify_closed_silent (exec 0) err w e)
    | inr (g, e) ↦ rw (
      notify_closed_handler (exec depth) err g w e,
      notify_closed_handler (exec 0) err g w e,
      exec-Calm depth (g err) w (tt, (o, ground arith)),
    )
  ]

  close_agree :
      (depth : ℕ) (err : ErrorCode) (w : World W)
      → close_intern (exec depth) err w ≡ close_intern (exec 0) err w
  close_agree depth err w = elim (Bool-cases w.session.is_open) [
    | inl o ↦ rw (
      close_intern_open (exec depth) err w o,
      close_intern_open (exec 0) err w o,
      notify_closed_agree depth err (on_session shut w) refl,
    )
    | inr o ↦ close_intern_closed (exec depth) err w o ∙ sym (close_intern_closed (exec 0) err w o)
  ]

  set_onclose_closed_agree :
      (depth : ℕ) (g : Option (CloseHandler W)) (w : World W)
      → w.session.onclose ≡ none
      → w.session.is_open ≡ false
      → set_onclose (exec depth) g w ≡ set_onclose (exec 0) g w
  set_onclose_closed_agree depth none w e o =
      set_onclose_empty (exec depth) w e o ∙ sym (set_onclose_empty (exec 0) w e o)
  set_onclose_closed_agree depth (some g) w e o = rw (
    set_onclose_closed (exec depth) g w e o,
    set_onclose_closed (exec 0) g w e o,
    exec-Calm depth (g success) (on_session (λ s. record s { onclose = some g }) w) (tt, (o, refl)),
  )

  set_onclose_agree :
      (depth : ℕ) (g : Option (CloseHandler W)) (w : World W)
      → set_onclose (exec depth) g w ≡ set_onclose (exec 0) g w
  set_onclose_agree depth g w = elim (Option-cases w.session.onclose) [
    | inr (old, e) ↦
        set_onclose_again (exec depth) g old w e ∙ sym (set_onclose_again (exec 0) g old w e)
    | inl e ↦ elim (Bool-cases w.session.is_open) [
      | inl o ↦ set_onclose_open (exec depth) g w e o ∙ sym (set_onclose_open (exec 0) g w e o)
      | inr o ↦ set_onclose_closed_agree depth g w e o
    ]
  ]

  exec_agree :
      (depth : ℕ) (s : Script W) (w : World W) → exec_with (exec depth) s w ≡ exec_with (exec 0) s w
  unfolding exec_with close
  exec_agree depth done w = refl
  exec_agree depth (raise e) w = refl
  exec_agree depth (update f k) w = exec_agree depth k (record w { client = f w.client })
  exec_agree depth (inspect k) w = exec_agree depth (k w.client) w
  exec_agree depth (sends m k) w =
      ap (resume (send m w)) (fun_ext λ r. fun_ext λ v. exec_agree depth (k r) v)
  exec_agree depth (closes k) w = rw (close_agree depth success w) (
      ap (resume (close_intern (exec 0) success w))
        (fun_ext λ r. fun_ext λ v. exec_agree depth k v))
  exec_agree depth (sets_onclose g k) w = rw (set_onclose_agree depth (some g) w) (
      ap (resume (set_onclose (exec 0) (some g) w))
        (fun_ext λ r. fun_ext λ v. exec_agree depth (k r) v))
  exec_agree depth (sets_onmessage g k) w =
      ap (resume (set_onmessage (some g) w)) (fun_ext λ r. fun_ext λ v. exec_agree depth (k r) v)
  exec_agree depth (sets_empty_onclose k) w = rw (set_onclose_agree depth none w) (
      ap (resume (set_onclose (exec 0) none w))
        (fun_ext λ r. fun_ext λ v. exec_agree depth (k r) v))
  exec_agree depth (sets_empty_onmessage k) w =
      ap (resume (set_onmessage none w)) (fun_ext λ r. fun_ext λ v. exec_agree depth (k r) v)

  Ends-ne-stuck : (e : Effect W (Unit {0})) → Ends (λ v. Unit {0}) e → e.1 ≢ stuck
  Ends-ne-stuck (w, finished r) h = λ e. cc
  Ends-ne-stuck (w, stuck) h = absurd h

  -- One level of nested handlers is enough: client code finishes with it, and does the same with any
  -- greater depth.
  pub exec-run :
      (depth : ℕ) (s : Script W) (w : World W)
      → (exec (suc depth) s w ≡ run s w) × ((run s w).1 ≢ stuck)
  unfolding exec run
  exec-run depth s w = (
    exec_agree depth s w,
    Ends-ne-stuck (run s w) (run-Ends (λ s. Unit {0}) always_stable s w tt),
  )
