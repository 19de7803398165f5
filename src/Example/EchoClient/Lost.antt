-- ===== src/Example/EchoClient/Lost.antt =====
-- example/echo/echo_client.cpp: its session while it waits for the reply, and when its connection is lost.
use liboizys.Common.{
  some_injective, ℕ, ◌≡◌, ◌⊎◌, inl, inr, refl, sym, ◌∙◌, subst, Bool, true, false, none, some,
  Option-cases, List, [], ◌∷◌,
}
use liboizys.ComMessage.{parse_header}
use liboizys.Session.{
  Bytes, MessageHandler, AsioSession, World, ErrorCode, bad_message, io_error, ReadOp, WriteOp,
  header_read, payload_read, header_write, payload_write,
}
use liboizys.Session.Methods.{no_message_handler, close_intern, run, shut, on_session, read_payload}
use liboizys.Session.Branches.{
  enqueue_elsewhere, close_intern_open, notify_closed_silent, drop_onmessage-some,
  write_payload_elsewhere, write_header_elsewhere,
}
use liboizys.Session.Events.{
  Event, client_runs, read_completes, write_completes, received, read_failed, step, WriteResult,
  written, write_failed, write_done, header_write_done, payload_write_done, read_done,
  header_read_done, payload_read_done, accept_header, fill_header, fill_payload,
}
use liboizys.Session.Stable.{IsStable, drop_keeps}
use liboizys.Session.Oblivious.{IsCompletion}
use liboizys.Session.Flags.{steps-flags}
use liboizys.Session.Clients.{Keeps, HandlersKeep, done-Keeps, read_keeps, write_keeps}
use liboizys.Example.EchoClient.{State, onmessage}

-- The session is closed, and the message handler of its client is gone.
abbrev pub IsAbandoned : {W : Type 0} → AsioSession W → Type 0
IsAbandoned s = (s.is_open ≡ false) × (s.onmessage ≡ some no_message_handler)

IsAbandoned-stable : {W : Type 0} → IsStable {W = W} IsAbandoned
IsAbandoned-stable = record {
  at_enqueue = λ content m s e h. subst IsAbandoned (sym (enqueue_elsewhere m s)) h;
  at_shut = λ s h. (refl, h.1);
  at_onclose = λ g s e h. h;
  at_reset = λ s o h. h;
  at_drop = drop_keeps IsAbandoned (λ old s e h. (h.0, refl));
  at_onmessage = λ g s e h. absurd (cc);
}

abandoned-HandlersKeep :
    {W : Type 0} (P : W → Type 0) (s : AsioSession W) → IsAbandoned s → HandlersKeep P s
abandoned-HandlersKeep {W} P s (shut, gone) = (
  λ g o e err. absurd (cc),
  λ g e message.
      subst (λ (f : MessageHandler W). Keeps P (f message)) (some_injective (sym gone ∙ e))
        (done-Keeps P),
)

-- No completion changes what the client knows.
pub step-IsAbandoned :
    {W : Type 0} (e : Event W) (w : World W)
    → IsCompletion e
    → IsAbandoned w.session
    → ((step e w).client ≡ w.client) × IsAbandoned (step e w).session
step-IsAbandoned (client_runs script) w c h = absurd c
step-IsAbandoned {W} (read_completes r) w c h = (
  read_keeps (λ (x : W). x ≡ w.client) r w
      (abandoned-HandlersKeep (λ (x : W). x ≡ w.client) w.session h) refl,
  steps-flags IsAbandoned IsAbandoned-stable (λ s m queue rs ws k. k) (read_completes r ∷ []) w h,
)
step-IsAbandoned {W} (write_completes r) w c h = (
  write_keeps (λ (x : W). x ≡ w.client) r w
      (abandoned-HandlersKeep (λ (x : W). x ≡ w.client) w.session h) refl,
  steps-flags IsAbandoned IsAbandoned-stable (λ s m queue rs ws k. k) (write_completes r ∷ []) w h,
)

-- The session waits for the reply: for its header, or, once it has got that, for its payload.
abbrev pub Reading : Bool → List ReadOp → Type 0
Reading false ops = ops ≡ header_read ∷ []
Reading true ops = (n : ℕ) × (ops ≡ payload_read n ∷ [])

abbrev pub Awaits : Bool → AsioSession State → Type 0
Awaits got s =
    (s.is_open ≡ true) × (s.onclose ≡ none) × (s.onmessage ≡ some onmessage) × Reading got s.reads

-- The client is as it was, and its session waits for the reply or is abandoned.
abbrev pub Waiting : Bool → World State → World State → Type 0
Waiting got w v = (v.client ≡ w.client) × (Awaits got v.session ⊎ IsAbandoned v.session)

closed_waiting :
    (err : ErrorCode) (w : World State)
    → w.session.is_open ≡ true
    → w.session.onclose ≡ none
    → w.session.onmessage ≡ some onmessage
    → let v = (close_intern run err w).0 in (v.client ≡ w.client) × IsAbandoned v.session
closed_waiting err w o c m =
    rw
      (
        close_intern_open run err w o,
        notify_closed_silent run err (on_session shut w) c,
        drop_onmessage-some onmessage (shut w.session) m,
      )
      (refl, (refl, refl))

pub write_waits :
    (got : Bool) (ops : List WriteOp) (r : WriteResult) (w : World State)
    → Awaits got w.session
    → Waiting got w (write_done ops r w).0
unfolding write_done header_write_done payload_write_done
write_waits got [] r w h = (refl, inl h)
write_waits got (header_write b ∷ ops) written w h =
    (refl, inl (subst (Awaits got) (sym (write_payload_elsewhere _)) h))
write_waits got (payload_write b ∷ ops) written w h =
    (refl, inl (subst (Awaits got) (sym (write_header_elsewhere _)) h))
write_waits got (header_write b ∷ ops) (write_failed err) w (o, c, m, r) =
    let (same, gone) =
      closed_waiting (io_error err) (on_session (λ s. record s { writes = ops }) w) o c m in
    (same, inr gone)
write_waits got (payload_write b ∷ ops) (write_failed err) w (o, c, m, r) =
    let (same, gone) =
      closed_waiting (io_error err) (on_session (λ s. record s { writes = ops }) w) o c m in
    (same, inr gone)

-- A header that has been read is followed by the read of a payload, or by the close.
header_waits :
    (w : World State)
    → w.session.is_open ≡ true
    → w.session.onclose ≡ none
    → w.session.onmessage ≡ some onmessage
    → w.session.reads ≡ []
    → Waiting true w (accept_header w).0
unfolding accept_header read_payload
header_waits w o c m idle = elim (Option-cases (parse_header w.session.message_to_read)) [
  | inl e ↦
      let (same, gone) = closed_waiting bad_message w o c m in
      rw (e, accept_header) (same, inr gone)
  | inr (n, e) ↦ rw (e, accept_header) (refl, inl (o, c, m, (n, rw idle refl)))
]

pub received_waits :
    (bytes : Bytes) (w : World State)
    → Awaits false w.session
    → Waiting true w (read_done w.session.reads (received bytes) w).0
unfolding read_done header_read_done
received_waits bytes w (o, c, m, r) =
    rw r (header_waits (on_session (λ s. fill_header bytes (record s { reads = [] })) w) o c m refl)

pub failed_ends :
    (got : Bool) (err : ℕ) (bytes : Bytes) (w : World State)
    → Awaits got w.session
    → let v = (read_done w.session.reads (read_failed err bytes) w).0 in
      (v.client ≡ w.client) × IsAbandoned v.session
unfolding read_done header_read_done payload_read_done
failed_ends false err bytes w (o, c, m, r) = rw r (
    closed_waiting (io_error err) (on_session (λ s. fill_header bytes (record s { reads = [] })) w)
      o c m)
failed_ends true err bytes w (o, c, m, (n, r)) = rw r (
    closed_waiting (io_error err) (on_session (λ s. fill_payload bytes (record s { reads = [] })) w)
      o c m)
