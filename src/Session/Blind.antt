-- ===== src/Session/Blind.antt =====
-- The proof rules for the read events of src/asio_session.cpp: what a delivery keeps, and what every
-- read event keeps of a property that does not look at what is read.
use liboizys.Common.{false, ◌≡◌, Option-cases, inl, inr, List, [], ◌∷◌, Result}
use liboizys.ComMessage.{ComMessage, parse_header}
use liboizys.Session.{
  Bytes, ErrorCode, bad_message, io_error, AsioSession, World, Effect, ReadOp, header_read,
  payload_read,
}
use liboizys.Session.Methods.{on_session, shut, run, returned, close_intern, read_header}
use liboizys.Session.Events.{
  ReadResult, received, read_failed, accept_header, deliver, fill_payload, read_done,
  header_read_done, payload_read_done,
}
use liboizys.Session.Stable.{
  IsStable, Ends, Ends-weaken, Ends-resume, Ends-swallow, run-Ends, run_close-Ends,
}

module _ {W : Type 0} where
  pub closed-Ends :
      (P : AsioSession W → Type 0)
      → IsStable P
      → (err : ErrorCode) (w : World W) → P (shut w.session)
      → Ends (λ v. P v.session) (close_intern run err w)
  closed-Ends P st err w h =
      Ends-weaken (λ v. P v.session × (v.session.is_open ≡ false)) (λ v. P v.session) (λ v hv. hv.0)
        (close_intern run err w) (run_close-Ends P st err w h)

  pub deliver-Ends :
      (P : AsioSession W → Type 0)
      → IsStable P
      → (w : World W) → P w.session
      → Ends (λ v. P v.session) (deliver w)
  unfolding deliver
  deliver-Ends P st w h = elim (Option-cases w.session.onmessage) [
    | inl e ↦ rw (e, deliver) h
    | inr (g, e) ↦
        rw (e, deliver)
          (Ends-swallow (λ v. P v.session) (run (g w.session.message_to_read.payload) w)
            (run-Ends P st (g w.session.message_to_read.payload) w h))
  ]

  -- A payload that was read is delivered, and the next header is asked for.
  pub received_payload-Ends :
      (P Q : AsioSession W → Type 0)
      → IsStable P
      → ((s : AsioSession W) → P s → Q (read_header s))
      → (bytes : Bytes) (w : World W) → P (fill_payload bytes w.session)
      → Ends (λ v. Q v.session) (payload_read_done (received bytes) w)
  unfolding payload_read_done
  received_payload-Ends P Q st asks bytes w h =
      let w' = on_session (fill_payload bytes) w in
      let next : Result (Unit {0}) → World W → Effect W (Unit {0}) =
        λ _ v. (on_session read_header v, returned) in
      Ends-resume (λ v. P v.session) (λ v. Q v.session) (deliver w') next (deliver-Ends P st w' h)
        (λ _ v hv. asks v.session hv)

  -- What is read may change without the property's noticing.
  abbrev pub IsReadBlind : (AsioSession W → Type 0) → Type 0
  IsReadBlind P =
      (s : AsioSession W) (m : ComMessage) (rs : List ReadOp)
      → P s
      → P (record s { message_to_read = m; reads = rs })

module _ {W : Type 0} (P : AsioSession W → Type 0) (st : IsStable P) (blind : IsReadBlind P) where
  closed-blind :
      (err : ErrorCode) (w : World W)
      → P w.session
      → Ends (λ v. P v.session) (close_intern run err w)
  closed-blind err w h = closed-Ends P st err w (st.at_shut w.session h)

  accept_header-blind : (w : World W) → P w.session → Ends (λ v. P v.session) (accept_header w)
  unfolding accept_header
  accept_header-blind w h = elim (Option-cases (parse_header w.session.message_to_read)) [
    | inl e ↦ rw (e, accept_header) (closed-blind bad_message w h)
    | inr (n, e) ↦ rw (e, accept_header) (blind w.session _ _ h)
  ]

  pub read_done-blind :
      (ops : List ReadOp) (r : ReadResult) (w : World W)
      → P w.session
      → Ends (λ v. P v.session) (read_done ops r w)
  unfolding read_done header_read_done
  read_done-blind [] r w h = h
  read_done-blind (header_read ∷ ops) (read_failed err bytes) w h =
      closed-blind (io_error err) _ (blind w.session _ _ h)
  read_done-blind (header_read ∷ ops) (received bytes) w h =
      accept_header-blind _ (blind w.session _ _ h)
  read_done-blind (payload_read n ∷ ops) (read_failed err bytes) w h =
      unfold payload_read_done in closed-blind (io_error err) _ (blind w.session _ _ h)
  read_done-blind (payload_read n ∷ ops) (received bytes) w h =
      received_payload-Ends P P st (λ s hs. unfold read_header in blind s _ _ hs) bytes _
        (blind w.session _ _ h)
