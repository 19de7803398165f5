-- ===== src/Session/Methods.antt =====
-- src/asio_session.cpp: the member functions that a client can reach by a call. Those that run a
-- handler take the function `invoke` that runs it.
use liboizys.Common.{
  ℕ, zero, suc, false, ◌++◌, [], ◌∷◌, some, none, if◌then◌else◌, ◌==◌, length, Result, ok, throws,
  handler_already_set, bad_function_call, Option, resize,
}
use liboizys.ComMessage.{ComMessage, com_message}
use liboizys.Session.{
  Bytes, ErrorCode, success, Script, done, raise, update, inspect, sends, closes, sets_onclose,
  sets_onmessage, sets_empty_onclose, sets_empty_onmessage, CloseHandler, MessageHandler,
  header_read, payload_read, header_write, payload_write, AsioSession, World, Outcome, finished,
  stuck, Effect,
}

abbrev pub returned : Outcome (Unit {0})
returned = finished (ok tt)

module _ {W : Type 0} where
  -- Goes on after a call that has finished.
  abbrev pub resume : {A B : Type 0} → Effect W A → (Result A → World W → Effect W B) → Effect W B
  resume (w, finished r) k = k r w
  resume (w, stuck) k = (w, stuck)

  -- `try { … } catch (...) { }`.
  abbrev pub swallow : Effect W (Unit {0}) → Effect W (Unit {0})
  swallow (w, finished r) = (w, returned)
  swallow (w, stuck) = (w, stuck)

  abbrev pub on_session : (AsioSession W → AsioSession W) → World W → World W
  on_session f w = record w { session = f w.session }

  unfoldable pub write_header : AsioSession W → AsioSession W
  write_header s = elim s.write_queue [
    | [] ↦ s
    | message ∷ rest ↦ record s { writes = s.writes ++ header_write message.header ∷ [] }
  ]

  unfoldable pub write_payload : AsioSession W → AsioSession W
  write_payload s = elim s.write_queue [
    | [] ↦ s
    | message ∷ rest ↦ record s { writes = s.writes ++ payload_write message.payload ∷ [] }
  ]

  unfoldable pub read_header : AsioSession W → AsioSession W
  read_header s = record s { reads = s.reads ++ header_read ∷ [] }

  unfoldable pub read_payload : ℕ → AsioSession W → AsioSession W
  read_payload length s = record s {
    message_to_read = record s.message_to_read {
      payload = resize s.message_to_read.payload length 0;
    };
    reads = s.reads ++ payload_read length ∷ [];
  }

  -- `write_queue.emplace(message)`, and what `send` does after it.
  unfoldable pub enqueue : ComMessage → AsioSession W → AsioSession W × ℕ
  unfolding write_header
  enqueue message s =
      let queued = record s { write_queue = s.write_queue ++ message ∷ [] } in
      let count = length queued.write_queue in
      (if count == 1 then write_header queued else queued, count)

  unfoldable pub send : Bytes → World W → Effect W ℕ
  send content w = elim (com_message content) [
    | throws e ↦ (w, finished (throws e))
    | ok message ↦
        let (s, count) = enqueue message w.session in
        (record w { session = s }, finished (ok count))
  ]

  abbrev pub no_close_handler : CloseHandler W
  no_close_handler err = done

  abbrev pub no_message_handler : MessageHandler W
  no_message_handler message = done

  unfoldable pub set_onmessage : Option (MessageHandler W) → World W → Effect W (Unit {0})
  unfolding read_header
  set_onmessage handler w = elim w.session.onmessage [
    | some old ↦ (w, finished (throws handler_already_set))
    | none ↦ (on_session (λ s. read_header (record s { onmessage = handler })) w, returned)
  ]

  abbrev pub shut : AsioSession W → AsioSession W
  shut s = record s { is_open = false }

  -- `if (onmessage) { onmessage = [](auto){}; }`.
  abbrev pub drop_onmessage : AsioSession W → AsioSession W
  drop_onmessage s = elim s.onmessage [
    | none ↦ s
    | some old ↦ record s { onmessage = some no_message_handler }
  ]

  module _ (invoke : Script W → World W → Effect W (Unit {0})) where
    -- `if (onclose) { … }`.
    unfoldable pub notify_closed : ErrorCode → World W → Effect W (Unit {0})
    notify_closed err w = elim w.session.onclose [
      | none ↦ (w, returned)
      | some handler ↦
          resume (swallow (invoke (handler err) w))
            (λ _ w'. (on_session (λ s. record s { onclose = some no_close_handler }) w', returned))
    ]

    unfoldable pub close_intern : ErrorCode → World W → Effect W (Unit {0})
    unfolding notify_closed
    close_intern err w =
        if w.session.is_open
        then resume (notify_closed err (on_session shut w))
            (λ _ w'. (on_session drop_onmessage w', returned))
        else (w, returned)

    unfoldable pub close : World W → Effect W (Unit {0})
    unfolding close_intern
    close w = close_intern success w

    -- `try { onclose(err); } catch (...) { }` for the handler that was just set; an empty one throws.
    unfoldable pub tell_closed : Option (CloseHandler W) → World W → Effect W (Unit {0})
    tell_closed none w = swallow (w, finished (throws bad_function_call))
    tell_closed (some handler) w = swallow (invoke (handler success) w)

    unfoldable pub set_onclose : Option (CloseHandler W) → World W → Effect W (Unit {0})
    unfolding tell_closed
    set_onclose handler w = elim w.session.onclose [
      | some old ↦ (w, finished (throws handler_already_set))
      | none ↦
          let w' = on_session (λ s. record s { onclose = handler }) w in
          if w.session.is_open then (w', returned) else tell_closed handler w'
    ]

    -- Client code, a call at a time.
    unfoldable pub exec_with : Script W → World W → Effect W (Unit {0})
    exec_with done w = (w, returned)
    exec_with (raise e) w = (w, finished (throws e))
    exec_with (update f k) w = exec_with k (record w { client = f w.client })
    exec_with (inspect k) w = exec_with (k w.client) w
    exec_with (sends message k) w = resume (send message w) (λ r w'. exec_with (k r) w')
    exec_with (closes k) w = resume (close w) (λ _ w'. exec_with k w')
    exec_with (sets_onclose h k) w = resume (set_onclose (some h) w) (λ r w'. exec_with (k r) w')
    exec_with (sets_onmessage h k) w =
        resume (set_onmessage (some h) w) (λ r w'. exec_with (k r) w')
    exec_with (sets_empty_onclose k) w = resume (set_onclose none w) (λ r w'. exec_with (k r) w')
    exec_with (sets_empty_onmessage k) w =
        resume (set_onmessage none w) (λ r w'. exec_with (k r) w')

  -- Client code whose calls may run handlers, nested to the given depth.
  unfoldable pub exec : ℕ → Script W → World W → Effect W (Unit {0})
  exec zero = exec_with (λ script w. (w, stuck))
  exec (suc depth) = exec_with (exec depth)

  -- One level is enough: `Session.Nesting`.
  unfoldable pub run : Script W → World W → Effect W (Unit {0})
  run = exec 1

  -- `~asio_session()`.
  unfoldable pub destroy : World W → Effect W (Unit {0})
  destroy = close run
