-- ===== src/Session/Valid.antt =====
-- The invariant of a session of src/asio_session.cpp between two events.
use liboizys.Common.{
  false, ◌≡◌, refl, sym, ◌≤◌, ◌++◌, subst, some, none, Bool, Option, List, [], ◌∷◌, ok, length, All,
  All-append,
}
use liboizys.ComMessage.{ComMessage, com_message, com_max_message_size}
use liboizys.Session.{
  ReadOp, WriteOp, header_read, payload_read, header_write, payload_write, AsioSession,
}
use liboizys.Session.Methods.{enqueue, read_header, no_message_handler}
use liboizys.Session.Branches.{enqueue_first, enqueue_next, enqueue_elsewhere}
use liboizys.ComMessage.RoundTrip.{com_message-payload}
use liboizys.Session.Stable.{IsStable, drop_keeps}

-- The message came from the constructor: its header is that of its payload.
abbrev pub IsFramed : ComMessage → Type 0
IsFramed m = com_message m.payload ≡ ok m

-- At most one write is under way. It writes the header or the payload of the first message of the
-- queue; no write is under way only if the queue is empty or the socket is closed.
abbrev pub WritesFront : Bool → List ComMessage → List WriteOp → Type 0
WritesFront is_open [] [] = Unit {0}
WritesFront is_open [] (op ∷ ops) = ⊥
WritesFront is_open (m ∷ queue) [] = is_open ≡ false
WritesFront is_open (m ∷ queue) (header_write bytes ∷ []) = bytes ≡ m.header
WritesFront is_open (m ∷ queue) (payload_write bytes ∷ []) = bytes ≡ m.payload
WritesFront is_open (m ∷ queue) (op ∷ op' ∷ ops) = ⊥

-- There is a message handler, and one read is under way, or, where the socket is closed, at most one.
-- The payload has as many bytes as the read of it asks for, 1 to 0xffffff.
abbrev pub ReadsMessage {ℓ} : {H : Type ℓ} → Bool → Option H → List ReadOp → ComMessage → Type 0
ReadsMessage is_open none ops m = ⊥
ReadsMessage is_open (some h) [] m = is_open ≡ false
ReadsMessage is_open (some h) (header_read ∷ []) m = Unit {0}
ReadsMessage is_open (some h) (payload_read n ∷ []) m =
    (1 ≤ n) × (n ≤ com_max_message_size) × (length m.payload ≡ n)
ReadsMessage is_open (some h) (op ∷ op' ∷ ops) m = ⊥

pub WritesFront-shut :
    (is_open : Bool) (queue : List ComMessage) (ops : List WriteOp)
    → WritesFront is_open queue ops
    → WritesFront false queue ops
WritesFront-shut is_open [] [] h = h
WritesFront-shut is_open [] (op ∷ ops) h = h
WritesFront-shut is_open (m ∷ queue) [] h = refl
WritesFront-shut is_open (m ∷ queue) (header_write bytes ∷ []) h = h
WritesFront-shut is_open (m ∷ queue) (payload_write bytes ∷ []) h = h
WritesFront-shut is_open (m ∷ queue) (header_write bytes ∷ op ∷ ops) h = h
WritesFront-shut is_open (m ∷ queue) (payload_write bytes ∷ op ∷ ops) h = h

WritesFront-append :
    (is_open : Bool) (first : ComMessage) (queue more : List ComMessage) (ops : List WriteOp)
    → WritesFront is_open (first ∷ queue) ops
    → WritesFront is_open (first ∷ queue ++ more) ops
WritesFront-append is_open first queue more [] h = h
WritesFront-append is_open first queue more (header_write bytes ∷ []) h = h
WritesFront-append is_open first queue more (payload_write bytes ∷ []) h = h
WritesFront-append is_open first queue more (header_write bytes ∷ op ∷ ops) h = h
WritesFront-append is_open first queue more (payload_write bytes ∷ op ∷ ops) h = h

pub WritesFront-nil : (is_open : Bool) (ops : List WriteOp) → WritesFront is_open [] ops → ops ≡ []
WritesFront-nil is_open [] h = refl
WritesFront-nil is_open (op ∷ ops) h = absurd h

pub ReadsMessage-shut {ℓ} :
    {H : Type ℓ} (is_open : Bool) (handler : Option H) (ops : List ReadOp) (m : ComMessage)
    → ReadsMessage is_open handler ops m
    → ReadsMessage false handler ops m
ReadsMessage-shut is_open none ops m h = absurd h
ReadsMessage-shut is_open (some g) [] m h = refl
ReadsMessage-shut is_open (some g) (header_read ∷ []) m h = h
ReadsMessage-shut is_open (some g) (payload_read n ∷ []) m h = h
ReadsMessage-shut is_open (some g) (header_read ∷ op ∷ ops) m h = h
ReadsMessage-shut is_open (some g) (payload_read n ∷ op ∷ ops) m h = h

ReadsMessage-handler {ℓ} :
    {H : Type ℓ} (is_open : Bool) (old new : H) (ops : List ReadOp) (m : ComMessage)
    → ReadsMessage is_open (some old) ops m
    → ReadsMessage is_open (some new) ops m
ReadsMessage-handler is_open old new [] m h = h
ReadsMessage-handler is_open old new (header_read ∷ []) m h = h
ReadsMessage-handler is_open old new (payload_read n ∷ []) m h = h
ReadsMessage-handler is_open old new (header_read ∷ op ∷ ops) m h = h
ReadsMessage-handler is_open old new (payload_read n ∷ op ∷ ops) m h = h

module _ {W : Type 0} where
  abbrev pub IsWritesValid : AsioSession W → Type 0
  IsWritesValid s = All IsFramed s.write_queue × WritesFront s.is_open s.write_queue s.writes

  abbrev pub IsReadsValid : AsioSession W → Type 0
  IsReadsValid s =
      ReadsMessage s.is_open s.onmessage s.reads s.message_to_read
      × (length s.message_to_read.header ≡ 4)

  pub record IsValid (s : AsioSession W) : Type 0 where
    pub writes_valid : IsWritesValid s
    pub reads_valid : IsReadsValid s

  -- `send` into an empty queue starts the write of the header; into another it starts nothing.
  enqueue-IsWritesValid :
      (queue : List ComMessage) (m : ComMessage) (s : AsioSession W)
      → s.write_queue ≡ queue
      → IsFramed m
      → IsWritesValid s
      → IsWritesValid (enqueue m s).0
  enqueue-IsWritesValid [] m s q f h =
      let idle : s.writes ≡ [] = WritesFront-nil s.is_open s.writes (rw q at h.1) in
      rw (enqueue_first m s q, idle) ((f, tt), refl)
  enqueue-IsWritesValid (first ∷ queue) m s q f h =
      let old = rw q at h in
      rw (enqueue_next m first queue s q) (
        All-append IsFramed (first ∷ queue) (m ∷ []) old.0 (f, tt),
        WritesFront-append s.is_open first queue (m ∷ []) s.writes old.1,
      )

  pub writes_stable : IsStable {W = W} IsWritesValid
  unfolding read_header
  writes_stable = record {
    at_enqueue = λ content m s e h.
        enqueue-IsWritesValid s.write_queue m s refl (com_message-payload content m e) h;
    at_shut = λ s h. (h.0, WritesFront-shut s.is_open s.write_queue s.writes h.1);
    at_onclose = λ g s e h. h;
    at_reset = λ s o h. h;
    at_drop = λ s h. drop_keeps IsWritesValid (λ old s e h. h) s h;
    at_onmessage = λ g s e h. h;
  }

  pub reads_stable : IsStable {W = W} IsReadsValid
  unfolding read_header
  reads_stable = record {
    at_enqueue = λ content m s e h. subst IsReadsValid (sym (enqueue_elsewhere m s)) h;
    at_shut = λ s h. (ReadsMessage-shut s.is_open s.onmessage s.reads s.message_to_read h.0, h.1);
    at_onclose = λ g s e h. h;
    at_reset = λ s o h. h;
    at_drop = λ s h.
        drop_keeps IsReadsValid
          (λ old s e h. (
            ReadsMessage-handler s.is_open old no_message_handler s.reads s.message_to_read
                (subst (λ g. ReadsMessage s.is_open g s.reads s.message_to_read) e h.0),
            h.1,
          ))
          s h;
    at_onmessage =
        λ g s e h. absurd (subst (λ g. ReadsMessage s.is_open g s.reads s.message_to_read) e h.0);
  }
