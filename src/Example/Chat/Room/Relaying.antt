-- ===== src/Example/Chat/Room/Relaying.antt =====
-- example/chat/chat_server.cpp: `send_all` in the message handler of a session, in the store of all.
use mathlib.Core.List.{append_assoc}
use liboizys.Common.{
  ℕ, ◌≡◌, ◌≢◌, refl, sym, ap, ◌∙◌, subst, Bool, false, Option, none, some, List, [], ◌∷◌, ◌++◌,
  ◌==◌, if◌then◌else◌, Bool-cases, inl, inr, Result, arith, All,
}
use liboizys.ComMessage.{ComMessage}
use liboizys.Session.{Script, AsioSession, World, Effect}
use liboizys.Session.Methods.{run, exec, exec_with, returned, resume, enqueue}
use liboizys.Session.Branches.{send_accepted}
use liboizys.Session.Valid.{IsFramed}
use liboizys.Example.Program.{proceed}
use liboizys.Example.SessionMap.Ids.{ids, member}
use liboizys.Example.SessionMap.Places.{IsMap, IsNew, update_at, find_at, IsNew-append}
use liboizys.Session.{update, sends}
use liboizys.Example.Hub.{Hub, Peer, peers, put, with_sessions}
use liboizys.Example.Hub.Peers.{queued, send-queued}
use liboizys.Example.Chat.Room.{send_to, relay}

-- The entries of the other sessions, with the message in their queues.
abbrev pub others : ℕ → ComMessage → List (ℕ × Peer) → List (ℕ × Peer)
others id m [] = []
others id m ((key, p) ∷ rest) = (key, if key == id then p else queued m p) ∷ others id m rest

-- A world of the server's, by its session and the sessions of its map.
abbrev pub world : AsioSession Hub → List (ℕ × Peer) → Hub → World Hub
world s xs h = record { session = s; client = with_sessions xs h }

send_to_lem :
    (m : ComMessage) (key : ℕ) (p : Peer) (front back : List (ℕ × Peer)) (next : Script Hub)
    (s : AsioSession Hub) (h : Hub)
    → IsFramed m
    → IsNew front key
    → run (send_to m.payload key next) (world s (front ++ (key, p) ∷ back) h)
      ≡ run next (world s (front ++ (key, queued m p) ∷ back) h)
unfolding send_to run exec exec_with
send_to_lem m key p front back next s h framed new =
    let w = world s (front ++ (key, p) ∷ back) h in
    ap
      (λ (found : Option Peer).
        run
          (elim found [
            | none ↦ next
            | some q ↦
                let (p', sent) = peers.send m.payload q in update (put key p') (proceed next sent)
          ])
          w)
      (find_at key p front back new)
    ∙ ap (λ (e : Peer × Result ℕ). run (update (put key e.0) (proceed next e.1)) w)
        (send-queued m p framed)
    ∙ ap (λ (ys : List (ℕ × Peer)). run next (world s ys h))
        (update_at key (queued m p) p front back new)

abbrev pub own_queued : ComMessage → Bool → AsioSession Hub → AsioSession Hub
own_queued m mine s = if mine then (enqueue m s).0 else s

pub not-member : (id : ℕ) (keys : List ℕ) → All (λ key. key ≢ id) keys → member id keys ≡ false
not-member id [] others = refl
not-member id (key ∷ keys) (other, rest) = ground (arith, not-member id keys rest)

relay_own :
    (id : ℕ) (m : ComMessage) (keys : List ℕ) (s : AsioSession Hub) (xs : List (ℕ × Peer)) (h : Hub)
    → IsFramed m
    → run (sends m.payload (proceed (relay id m.payload keys))) (world s xs h)
      ≡ run (relay id m.payload keys) (world (enqueue m s).0 xs h)
unfolding run exec exec_with
relay_own id m keys s xs h framed =
    ap (λ (e : Effect Hub ℕ). resume e (λ r w. run (proceed (relay id m.payload keys) r) w))
      (send_accepted m.payload m (world s xs h) framed)

pub run-relay :
    (id : ℕ) (m : ComMessage) (front rest : List (ℕ × Peer)) (s : AsioSession Hub) (h : Hub)
    → IsFramed m
    → All (IsNew front) (ids rest)
    → IsMap rest
    → run (relay id m.payload (ids rest)) (world s (front ++ rest) h)
      ≡ (world (own_queued m (member id (ids rest)) s) (front ++ others id m rest) h, returned)
unfolding relay run exec exec_with
run-relay id m front [] s h framed new distinct = refl
run-relay id m front ((key, p) ∷ rest) s h framed (new, news) (other, distinct) =
    let tail : List (ℕ × Peer) = others id m rest in
    let round : (q : Peer) (t : AsioSession Hub)
        → run (relay id m.payload (ids rest)) (world t (front ++ (key, q) ∷ rest) h)
          ≡ (world (own_queued m (member id (ids rest)) t) (front ++ (key, q) ∷ tail) h, returned) =
      λ q t.
        ap (λ (xs : List (ℕ × Peer)). run (relay id m.payload (ids rest)) (world t xs h))
          (sym (append_assoc front ((key, q) ∷ []) rest))
        ∙ run-relay id m (front ++ (key, q) ∷ []) rest t h framed
            (IsNew-append front key q (ids rest) news other) distinct
        ∙ ap
            (λ (xs : List (ℕ × Peer)).
              (world (own_queued m (member id (ids rest)) t) xs h, returned))
            (append_assoc front ((key, q) ∷ []) tail) in
    elim (Bool-cases (key == id)) [
      | inl own ↦
          let absent =
            not-member id (ids rest)
              (subst (λ (k : ℕ). All (λ i. i ≢ k) (ids rest)) (ground arith) other) in
          rw own (
            relay_own id m (ids rest) s (front ++ (key, p) ∷ rest) h framed
            ∙ round p (enqueue m s).0
            ∙ ap
                (λ (b : Bool).
                  (world (own_queued m b (enqueue m s).0) (front ++ (key, p) ∷ tail) h, returned))
                absent)
      | inr foreign ↦ rw foreign (
          send_to_lem m key p front rest (relay id m.payload (ids rest)) s h framed new
          ∙ round (queued m p) s)
    ]
