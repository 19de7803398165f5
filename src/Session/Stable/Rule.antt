-- ===== src/Session/Stable/Rule.antt =====
-- What client code of src/asio_session.cpp keeps, when each of its calls keeps it, and the calls that
-- the proof rule asks about.
use liboizys.Common.{
  false, ◌≡◌, sym, subst, some, none, arith, Option, Option-cases, inl, inr, Result, ok,
}
use liboizys.ComMessage.{ComMessage, com_message}
use liboizys.Session.{
  Bytes, Script, done, raise, update, inspect, sends, closes, sets_onclose, sets_onmessage,
  sets_empty_onclose, sets_empty_onmessage, CloseHandler, MessageHandler, AsioSession, World,
  finished, stuck, Effect,
}
use liboizys.Session.Methods.{
  resume, swallow, send, enqueue, read_header, set_onmessage, close, set_onclose, exec_with, shut,
  drop_onmessage, no_close_handler, no_message_handler,
}
use liboizys.Session.Branches.{drop_onmessage-none, drop_onmessage-some}

module _ {W : Type 0} where
  -- A call has finished, in a world with the property.
  abbrev pub Ends : {A : Type 0} → (World W → Type 0) → Effect W A → Type 0
  Ends P (w, finished r) = P w
  Ends P (w, stuck) = ⊥

  pub Ends-resume :
      {A B : Type 0} (P : World W → Type 0) (Q : World W → Type 0) (e : Effect W A)
      (k : Result A → World W → Effect W B)
      → Ends P e
      → ((r : Result A) (w : World W) → P w → Ends Q (k r w))
      → Ends Q (resume e k)
  Ends-resume P Q (w, finished r) k h next = next r w h
  Ends-resume P Q (w, stuck) k h next = absurd h

  pub Ends-swallow :
      (P : World W → Type 0) (e : Effect W (Unit {0})) → Ends P e → Ends P (swallow e)
  Ends-swallow P (w, finished r) h = h
  Ends-swallow P (w, stuck) h = absurd h

  pub Ends-weaken :
      {A : Type 0} (P Q : World W → Type 0)
      → ((w : World W) → P w → Q w)
      → (e : Effect W A) → Ends P e
      → Ends Q e
  Ends-weaken P Q imp (w, finished r) h = imp w h
  Ends-weaken P Q imp (w, stuck) h = absurd h

  pub drop_keeps_open : (s : AsioSession W) → s.is_open ≡ false → (drop_onmessage s).is_open ≡ false
  drop_keeps_open s o = ground arith

  pub shut_closed : (s : AsioSession W) → s.is_open ≡ false → shut s ≡ s
  shut_closed s o = λ i. record s { is_open = sym o i }

  -- What holds of a world and is kept by each call holds when client code has finished.
  pub record Calls (invoke : Script W → World W → Effect W (Unit {0})) (P : World W → Type 0)
      : Type 0 where
    pub at_update : (f : W → W) (w : World W) → P w → P (record w { client = f w.client })
    pub at_send : (m : Bytes) (w : World W) → P w → Ends P (send m w)
    pub at_close : (w : World W) → P w → Ends P (close invoke w)
    pub at_onclose :
        (h : Option (CloseHandler W)) (w : World W) → P w → Ends P (set_onclose invoke h w)
    pub at_onmessage :
        (h : Option (MessageHandler W)) (w : World W) → P w → Ends P (set_onmessage h w)

  pub exec_with-Ends :
      (invoke : Script W → World W → Effect W (Unit {0})) (P : World W → Type 0)
      → Calls invoke P
      → (s : Script W) (w : World W) → P w
      → Ends P (exec_with invoke s w)
  unfolding exec_with
  exec_with-Ends invoke P c done w h = h
  exec_with-Ends invoke P c (raise e) w h = h
  exec_with-Ends invoke P c (update f k) w h = exec_with-Ends invoke P c k _ (c.at_update f w h)
  exec_with-Ends invoke P c (inspect k) w h = exec_with-Ends invoke P c (k w.client) w h
  exec_with-Ends invoke P c (sends m k) w h =
      Ends-resume P P _ _ (c.at_send m w h) (λ r w' h'. exec_with-Ends invoke P c (k r) w' h')
  exec_with-Ends invoke P c (closes k) w h =
      Ends-resume P P _ _ (c.at_close w h) (λ r w' h'. exec_with-Ends invoke P c k w' h')
  exec_with-Ends invoke P c (sets_onclose g k) w h =
      Ends-resume P P _ _ (c.at_onclose (some g) w h)
        (λ r w' h'. exec_with-Ends invoke P c (k r) w' h')
  exec_with-Ends invoke P c (sets_onmessage g k) w h =
      Ends-resume P P _ _ (c.at_onmessage (some g) w h)
        (λ r w' h'. exec_with-Ends invoke P c (k r) w' h')
  exec_with-Ends invoke P c (sets_empty_onclose k) w h =
      Ends-resume P P _ _ (c.at_onclose none w h) (λ r w' h'. exec_with-Ends invoke P c (k r) w' h')
  exec_with-Ends invoke P c (sets_empty_onmessage k) w h =
      Ends-resume P P _ _ (c.at_onmessage none w h)
        (λ r w' h'. exec_with-Ends invoke P c (k r) w' h')

  -- A property of the session that each of its changes by a call keeps.
  pub record IsStable (P : AsioSession W → Type 0) : Type 0 where
    pub at_enqueue :
        (content : Bytes) (m : ComMessage) (s : AsioSession W)
        → com_message content ≡ ok m
        → P s
        → P (enqueue m s).0
    pub at_shut : (s : AsioSession W) → P s → P (shut s)
    pub at_onclose :
        (h : Option (CloseHandler W)) (s : AsioSession W)
        → s.onclose ≡ none
        → P s
        → P (record s { onclose = h })
    pub at_reset :
        (s : AsioSession W)
        → s.is_open ≡ false
        → P s
        → P (record s { onclose = some no_close_handler })
    pub at_drop : (s : AsioSession W) → P s → P (drop_onmessage s)
    pub at_onmessage :
        (h : Option (MessageHandler W)) (s : AsioSession W)
        → s.onmessage ≡ none
        → P s
        → P (read_header (record s { onmessage = h }))

  -- Its rule for `drop_onmessage`: nothing happens without a handler.
  pub drop_keeps :
      (P : AsioSession W → Type 0)
      → ((old : MessageHandler W) (s : AsioSession W)
          → s.onmessage ≡ some old
          → P s
          → P (record s { onmessage = some no_message_handler }))
      → (s : AsioSession W) → P s
      → P (drop_onmessage s)
  drop_keeps P keeps s h = elim (Option-cases s.onmessage) [
    | inl e ↦ subst P (sym (drop_onmessage-none s e)) h
    | inr (old, e) ↦ subst P (sym (drop_onmessage-some old s e)) (keeps old s e h)
  ]
