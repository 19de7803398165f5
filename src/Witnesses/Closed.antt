-- ===== src/Witnesses/Closed.antt =====
-- The theorems on closed sessions and error paths at concrete inputs.
use liboizys.Common.{
  ◌≡◌, ◌++◌, refl, inr, false, some, [], ◌∷◌, ok, throws, handler_already_set, arith,
}
use liboizys.Session.{sets_empty_onmessage, done, success, bad_message, io_error, World, finished}
use liboizys.Session.Methods.{
  returned, on_session, shut, drop_onmessage, no_close_handler, no_message_handler, send,
  set_onmessage, close_intern, set_onclose, run,
}
use liboizys.Session.Events.{
  received, read_failed, write_failed, client_runs, read_completes, write_completes, step, steps,
}
use liboizys.Session.Closing.{
  close_intern_lem, steps-close_intern-IsRetired, IsRetired, close_intern_refuses,
  set_onclose-close_intern,
}
use liboizys.Session.Receive.{collect, deliveries}
use liboizys.Session.Errors.{failure_closes, bad_header_closes}
use liboizys.Session.Empty.{
  HasDropped, sets_empty_onmessage-deliveries, sets_empties_and, header_reads,
  set_onmessage-empties,
}
use liboizys.Session.Stalled.{IsStalled, steps-write_failed-IsStalled, send-IsStalled}
use liboizys.Witnesses.{
  hi, hi_message, hi_framed, Log, note, on_close, waiting, sending, sending-IsValid, start, fresh,
}

close_intern_lem_example : close_intern run bad_message waiting ≡ (
  on_session
      (λ s. drop_onmessage (record s { onclose = some no_close_handler }))
      (run (on_close bad_message) (on_session shut waiting)).0,
  returned,
)
close_intern_lem_example = close_intern_lem bad_message on_close waiting refl refl

steps-close_intern-IsRetired_example :
    IsRetired (steps (client_runs start ∷ []) (close_intern run (io_error 2) waiting).0).session
steps-close_intern-IsRetired_example =
    steps-close_intern-IsRetired (io_error 2) on_close (collect note) waiting
      (client_runs start ∷ []) refl refl refl

abbrev retired : World Log
retired = record {
  session = record waiting.session {
    is_open = false;
    onclose = some no_close_handler;
    onmessage = some no_message_handler;
  };
  client = [];
}

close_intern_refuses_example :
    let v = steps (client_runs start ∷ []) (close_intern run (io_error 2) waiting).0 in
    (set_onclose run (some on_close) v ≡ (v, finished (throws handler_already_set)))
    × (set_onmessage (some (collect note)) v ≡ (v, finished (throws handler_already_set)))
close_intern_refuses_example =
    close_intern_refuses (io_error 2) on_close on_close (collect note) (collect note) waiting
      (client_runs start ∷ []) refl refl refl

set_onclose-close_intern_example :
    (set_onclose run (some on_close) (close_intern run bad_message fresh).0).0
    ≡ (run
        (on_close success)
        (on_session (λ s. record (drop_onmessage (shut s)) { onclose = some on_close }) fresh)).0
set_onclose-close_intern_example = set_onclose-close_intern bad_message on_close fresh refl refl

failure_closes_example :
    (step (read_completes (read_failed 2 (0 ∷ 0 ∷ []))) waiting).session.is_open ≡ false
failure_closes_example =
    failure_closes (read_completes (read_failed 2 (0 ∷ 0 ∷ []))) waiting (λ e. cc)

-- The message without content of the tests.
bad_header_closes_example :
    step (read_completes (received (0 ∷ 0 ∷ 0 ∷ 0 ∷ []))) waiting
    ≡ on_session
        (λ s. drop_onmessage (record s { onclose = some no_close_handler }))
        (run (on_close bad_message) (
          on_session
            (λ s. record s {
              is_open = false;
              message_to_read = record s.message_to_read { header = 0 ∷ 0 ∷ 0 ∷ 0 ∷ [] };
              reads = [];
            })
            waiting)).0
bad_header_closes_example =
    bad_header_closes 0 0 0 0 (collect note) on_close waiting (omega arith) (omega arith)
      (omega arith) (inr refl) (refl, refl, refl) refl refl

steps-write_failed-IsStalled_example :
    IsStalled hi_message []
      (steps (client_runs start ∷ []) (step (write_completes (write_failed 32)) sending)).session
steps-write_failed-IsStalled_example =
    steps-write_failed-IsStalled hi_message [] 32 sending (client_runs start ∷ [])
      sending-IsValid.writes_valid refl (λ e. cc)

abbrev stalled : World Log
stalled = record {
  session = record retired.session { write_queue = hi_message ∷ []; reads = [] };
  client = [];
}

send-IsStalled_example :
    ((send hi stalled).1 ≡ finished (ok 2)) × IsStalled hi_message [] (send hi stalled).0.session
send-IsStalled_example =
    send-IsStalled hi_message [] hi hi_message stalled hi_framed (refl, refl, ([], refl))

-- A session that was given two empty message handlers before its own: three reads are under way.
set_onmessage-empties_example : run (sets_empties_and (collect note) 2) fresh ≡ (
  on_session
      (λ s. record s { onmessage = some (collect note); reads = s.reads ++ header_reads 3 })
      fresh,
  returned,
)
set_onmessage-empties_example = set_onmessage-empties (collect note) 2 fresh refl

sets_empty_onmessage-deliveries_example :
    HasDropped fresh
      (steps (client_runs (sets_empty_onmessage (λ _. done)) ∷ deliveries (hi_message ∷ [])) fresh)
sets_empty_onmessage-deliveries_example =
    sets_empty_onmessage-deliveries (hi_message ∷ []) fresh (hi_framed, tt) refl refl refl
