-- ===== src/Session/Errors.antt =====
-- The error paths of src/asio_session.cpp.
use liboizys.Common.{
  ℕ, ◌<◌, ◌≡◌, ◌≢◌, refl, sym, ap, ◌∙◌, ◌⊎◌, inl, inr, Option-cases, some, none, List, [], ◌∷◌,
  true, false, overwrite, overwrite_full, arith,
}
use liboizys.ComMessage.{parse_header}
use liboizys.ComMessage.Header.{parse_header_iff, big_endian}
use liboizys.Session.{
  Bytes, bad_message, io_error, CloseHandler, MessageHandler, ReadOp, WriteOp, header_read,
  payload_read, header_write, payload_write, AsioSession, World, Effect, finished, stuck,
}
use liboizys.Session.Methods.{on_session, run, drop_onmessage, no_close_handler}
use liboizys.Session.Events.{
  received, read_failed, write_failed, written, Event, client_runs, read_completes, write_completes,
  handle, step, read_done, write_done, header_read_done, payload_read_done, header_write_done,
  payload_write_done, accept_header,
}
use liboizys.Session.Stable.{Ends}
use liboizys.Session.Blind.{closed-Ends}
use liboizys.Session.Closing.{IsClosed, IsClosed-stable, close_intern_lem}
use liboizys.Session.Receive.{IsWaiting, accept_header-none}

pub refused :
    (h0 h1 h2 h3 : ℕ) (payload : Bytes)
    → h1 < 256
    → h2 < 256
    → h3 < 256
    → (h0 ≢ 0) ⊎ (big_endian h1 h2 h3 ≡ 0)
    → parse_header (record { header = h0 ∷ h1 ∷ h2 ∷ h3 ∷ []; payload = payload }) ≡ none
refused h0 h1 h2 h3 payload l1 l2 l3 bad =
    elim (Option-cases
      (parse_header (record { header = h0 ∷ h1 ∷ h2 ∷ h3 ∷ []; payload = payload }))) [
        | inl e ↦ e
        | inr (n, e) ↦
            let facts = (parse_header_iff h0 h1 h2 h3 n payload l1 l2 l3).0 e in
            absurd (ground arith)
      ]

module _ {W : Type 0} where
  -- The event reports an error of an operation that is under way.
  abbrev pub IsFailure : Event W → AsioSession W → Type 0
  IsFailure (client_runs script) s = ⊥
  IsFailure (read_completes (received bytes)) s = ⊥
  IsFailure (read_completes (read_failed err bytes)) s = s.reads ≢ []
  IsFailure (write_completes written) s = ⊥
  IsFailure (write_completes (write_failed err)) s = s.writes ≢ []

  read_failed-closes :
      (ops : List ReadOp) (err : ℕ) (bytes : Bytes) (w : World W)
      → ops ≢ []
      → Ends (λ v. IsClosed v.session) (read_done ops (read_failed err bytes) w)
  unfolding read_done header_read_done payload_read_done
  read_failed-closes [] err bytes w n = absurd (n refl)
  read_failed-closes (header_read ∷ ops) err bytes w n =
      closed-Ends IsClosed IsClosed-stable (io_error err) _ refl
  read_failed-closes (payload_read k ∷ ops) err bytes w n =
      closed-Ends IsClosed IsClosed-stable (io_error err) _ refl

  write_failed-closes :
      (ops : List WriteOp) (err : ℕ) (w : World W)
      → ops ≢ []
      → Ends (λ v. IsClosed v.session) (write_done ops (write_failed err) w)
  unfolding write_done header_write_done payload_write_done
  write_failed-closes [] err w n = absurd (n refl)
  write_failed-closes (header_write b ∷ ops) err w n =
      closed-Ends IsClosed IsClosed-stable (io_error err) _ refl
  write_failed-closes (payload_write b ∷ ops) err w n =
      closed-Ends IsClosed IsClosed-stable (io_error err) _ refl

  Ends-IsClosed :
      (e : Effect W (Unit {0})) → Ends (λ v. IsClosed v.session) e → IsClosed e.0.session
  Ends-IsClosed (v, finished x) h = h
  Ends-IsClosed (v, stuck) h = absurd h

  -- Every error of an operation that is under way, reading or writing, leaves the session closed.
  pub failure_closes :
      (e : Event W) (w : World W) → IsFailure e w.session → (step e w).session.is_open ≡ false
  unfolding handle
  failure_closes (client_runs script) w n = absurd n
  failure_closes (read_completes (received bytes)) w n = absurd n
  failure_closes (read_completes (read_failed err bytes)) w n =
      Ends-IsClosed (read_done w.session.reads (read_failed err bytes) w)
        (read_failed-closes w.session.reads err bytes w n)
  failure_closes (write_completes written) w n = absurd n
  failure_closes (write_completes (write_failed err)) w n =
      Ends-IsClosed (write_done w.session.writes (write_failed err) w)
        (write_failed-closes w.session.writes err w n)

  -- A header whose reserved byte is not zero, or whose length is, closes the open session that waits
  -- for it: the close handler runs once, with EBADMSG, on the closed session, and then the handlers are
  -- replaced. The message handler does not run, and no other read is started.
  pub bad_header_closes :
      (h0 h1 h2 h3 : ℕ) (h : MessageHandler W) (g : CloseHandler W) (w : World W)
      → h1 < 256
      → h2 < 256
      → h3 < 256
      → (h0 ≢ 0) ⊎ (big_endian h1 h2 h3 ≡ 0)
      → IsWaiting h w.session
      → w.session.is_open ≡ true
      → w.session.onclose ≡ some g
      → step (read_completes (received (h0 ∷ h1 ∷ h2 ∷ h3 ∷ []))) w
        ≡ on_session
            (λ s. drop_onmessage (record s { onclose = some no_close_handler }))
            (run (g bad_message) (
              on_session
                (λ s. record s {
                  is_open = false;
                  message_to_read = record s.message_to_read { header = h0 ∷ h1 ∷ h2 ∷ h3 ∷ [] };
                  reads = [];
                })
                w)).0
  unfolding handle read_done header_read_done
  bad_header_closes h0 h1 h2 h3 h g w l1 l2 l3 bad (o, r, l) is_open e =
      let header : Bytes = h0 ∷ h1 ∷ h2 ∷ h3 ∷ [] in
      let old = w.session.message_to_read in
      let read : Bytes → World W = λ x.
        on_session (λ s. record s { message_to_read = record old { header = x }; reads = [] }) w in
      let full : overwrite header old.header ≡ header = overwrite_full header old.header (sym l) in
      ap (λ (ops : List ReadOp). (read_done ops (received header) w).0) r
      ∙ ap (λ (x : Bytes). (accept_header (read x)).0) full
      ∙ ap (λ (x : Effect W (Unit {0})). x.0)
          (accept_header-none (read header) (refused h0 h1 h2 h3 old.payload l1 l2 l3 bad)
            ∙ close_intern_lem bad_message g (read header) is_open e)
