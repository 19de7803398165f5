-- ===== src/Session/Branches.antt =====
-- The branches of the member functions of src/asio_session.cpp, one equation for each.
use liboizys.Common.{
  ◌+◌, [], ◌∷◌, ◌++◌, List, length, length-append, true, false, ◌≡◌, some, none, arith, ok, throws,
  handler_already_set, Exception, Option,
}
use liboizys.ComMessage.{ComMessage, com_message}
use liboizys.Session.{
  Bytes, ErrorCode, success, Script, CloseHandler, MessageHandler, header_write, payload_write,
  AsioSession, World, finished, Effect,
}
use liboizys.Session.Methods.{
  returned, resume, swallow, send, enqueue, write_header, write_payload, read_header, set_onmessage,
  close_intern, notify_closed, set_onclose, tell_closed, shut, drop_onmessage, on_session,
  no_close_handler, no_message_handler,
}

module _ {W : Type 0} where
  pub write_header_none : (s : AsioSession W) → s.write_queue ≡ [] → write_header s ≡ s
  unfolding write_header
  write_header_none s e = ground arith

  pub write_header_front :
      (m : ComMessage) (queue : List ComMessage) (s : AsioSession W)
      → s.write_queue ≡ m ∷ queue
      → write_header s ≡ record s { writes = s.writes ++ header_write m.header ∷ [] }
  unfolding write_header
  write_header_front m queue s e = ground arith

  pub write_payload_front :
      (m : ComMessage) (queue : List ComMessage) (s : AsioSession W)
      → s.write_queue ≡ m ∷ queue
      → write_payload s ≡ record s { writes = s.writes ++ payload_write m.payload ∷ [] }
  unfolding write_payload
  write_payload_front m queue s e = ground arith

  -- Starting a write changes the writes only.
  pub write_header_elsewhere :
      (s : AsioSession W) → write_header s ≡ record s { writes = (write_header s).writes }
  unfolding write_header
  write_header_elsewhere s = ground arith

  pub write_payload_elsewhere :
      (s : AsioSession W) → write_payload s ≡ record s { writes = (write_payload s).writes }
  unfolding write_payload
  write_payload_elsewhere s = ground arith

  -- `enqueue` on an empty queue, and on another.
  pub enqueue_first :
      (m : ComMessage) (s : AsioSession W)
      → s.write_queue ≡ []
      → (enqueue m s).0
        ≡ record s { write_queue = m ∷ []; writes = s.writes ++ header_write m.header ∷ [] }
  unfolding enqueue write_header
  enqueue_first m s e = ground arith

  pub enqueue_next :
      (m first : ComMessage) (queue : List ComMessage) (s : AsioSession W)
      → s.write_queue ≡ first ∷ queue
      → (enqueue m s).0 ≡ record s { write_queue = first ∷ queue ++ m ∷ [] }
  unfolding enqueue write_header
  enqueue_next m first queue s e = ground (arith, length-append queue (m ∷ []))

  pub enqueue_count :
      (m : ComMessage) (s : AsioSession W) → (enqueue m s).1 ≡ length s.write_queue + 1
  unfolding enqueue
  enqueue_count m s = omega (arith, length-append s.write_queue (m ∷ []))

  -- It changes the queue and the writes only.
  pub enqueue_elsewhere :
      (m : ComMessage) (s : AsioSession W)
      → (enqueue m s).0
        ≡ record s { write_queue = (enqueue m s).0.write_queue; writes = (enqueue m s).0.writes }
  unfolding enqueue write_header
  enqueue_elsewhere m s = ground arith

  pub drop_onmessage-none : (s : AsioSession W) → s.onmessage ≡ none → drop_onmessage s ≡ s
  drop_onmessage-none s e = ground arith

  pub drop_onmessage-some :
      (old : MessageHandler W) (s : AsioSession W)
      → s.onmessage ≡ some old
      → drop_onmessage s ≡ record s { onmessage = some no_message_handler }
  drop_onmessage-some old s e = ground arith

  pub send_accepted :
      (content : Bytes) (m : ComMessage) (w : World W)
      → com_message content ≡ ok m
      → send content w
        ≡ (on_session (λ s. (enqueue m s).0) w, finished (ok (enqueue m w.session).1))
  unfolding send
  send_accepted content m w e = ground arith

  pub send_refused :
      (content : Bytes) (x : Exception) (w : World W)
      → com_message content ≡ throws x
      → send content w ≡ (w, finished (throws x))
  unfolding send
  send_refused content x w e = ground arith

  pub set_onmessage_new :
      (h : Option (MessageHandler W)) (w : World W)
      → w.session.onmessage ≡ none
      → set_onmessage h w ≡ (on_session (λ s. read_header (record s { onmessage = h })) w, returned)
  unfolding set_onmessage
  set_onmessage_new h w e = ground arith

  pub set_onmessage_again :
      (h : Option (MessageHandler W)) (old : MessageHandler W) (w : World W)
      → w.session.onmessage ≡ some old
      → set_onmessage h w ≡ (w, finished (throws handler_already_set))
  unfolding set_onmessage
  set_onmessage_again h old w e = ground arith

  module _ (invoke : Script W → World W → Effect W (Unit {0})) where
    pub set_onclose_again :
        (h : Option (CloseHandler W)) (old : CloseHandler W) (w : World W)
        → w.session.onclose ≡ some old
        → set_onclose invoke h w ≡ (w, finished (throws handler_already_set))
    unfolding set_onclose
    set_onclose_again h old w e = ground arith

    pub set_onclose_open :
        (h : Option (CloseHandler W)) (w : World W)
        → w.session.onclose ≡ none
        → w.session.is_open ≡ true
        → set_onclose invoke h w ≡ (on_session (λ s. record s { onclose = h }) w, returned)
    unfolding set_onclose
    set_onclose_open h w e o = ground arith

    pub set_onclose_closed :
        (h : CloseHandler W) (w : World W)
        → w.session.onclose ≡ none
        → w.session.is_open ≡ false
        → set_onclose invoke (some h) w
          ≡ swallow (invoke (h success) (on_session (λ s. record s { onclose = some h }) w))
    unfolding set_onclose tell_closed
    set_onclose_closed h w e o = ground arith

    -- An empty close handler that is set after the close throws, which is swallowed.
    pub set_onclose_empty :
        (w : World W)
        → w.session.onclose ≡ none
        → w.session.is_open ≡ false
        → set_onclose invoke none w ≡ (on_session (λ s. record s { onclose = none }) w, returned)
    unfolding set_onclose tell_closed
    set_onclose_empty w e o = ground arith

    pub notify_closed_silent :
        (err : ErrorCode) (w : World W)
        → w.session.onclose ≡ none
        → notify_closed invoke err w ≡ (w, returned)
    unfolding notify_closed
    notify_closed_silent err w e = ground arith

    pub notify_closed_handler :
        (err : ErrorCode) (h : CloseHandler W) (w : World W)
        → w.session.onclose ≡ some h
        → notify_closed invoke err w
          ≡ resume (swallow (invoke (h err) w)) (λ _ w'.
            (on_session (λ s. record s { onclose = some no_close_handler }) w', returned))
    unfolding notify_closed
    notify_closed_handler err h w e = ground arith

    pub close_intern_open :
        (err : ErrorCode) (w : World W)
        → w.session.is_open ≡ true
        → close_intern invoke err w
          ≡ resume
              (notify_closed invoke err (on_session shut w))
              (λ _ w'. (on_session drop_onmessage w', returned))
    unfolding close_intern
    close_intern_open err w o = ground arith

    pub close_intern_closed :
        (err : ErrorCode) (w : World W)
        → w.session.is_open ≡ false
        → close_intern invoke err w ≡ (w, returned)
    unfolding close_intern
    close_intern_closed err w o = ground arith
