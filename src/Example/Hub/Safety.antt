-- ===== src/Example/Hub/Safety.antt =====
-- The chat and the notification server over any events: their ids, and what remains defined.
use mathlib.Core.List.{append_assoc}
use liboizys.Common.{
  ℕ, ◌+◌, ◌≡◌, ◌≢◌, ◌<◌, ◌^◌, ◌≤◌, refl, sym, ap, ◌∙◌, true, false, List, [], ◌∷◌, ◌++◌, arith, All,
  length, length-append,
}
use liboizys.Session.Clients.{read_keeps, write_keeps}
use liboizys.Session.Events.{step, read_completes, write_completes}
use liboizys.Example.SessionMap.{has_id}
use liboizys.Example.SessionMap.Ids.{ids, member, member-ids, length-ids}
use liboizys.Example.ServerMain.{HubEvent, accepts, reads, writes, running}
use liboizys.Example.Hub.{Hub, Handlers, hub_step, hub_steps, accept, at_session}
use liboizys.Example.Hub.Registry.{
  Registered, KeepRegistry, at_session-Registered, accepted-Registered,
}

abbrev pub Distinct : List ℕ → Type 0
Distinct [] = Unit {0}
Distinct (id ∷ rest) = All (λ key. key ≢ id) rest × Distinct rest

abbrev pub IsId : ℕ → Type 0
IsId id = (id ≢ 0) × (id < 2 ^ 32)

-- The server runs, no two sessions have one id, and every id is a uint32_t other than 0.
pub record IsSound (h : Hub) : Type 0 where
  pub runs : h.status ≡ running
  pub next_small : h.server.id < 2 ^ 32
  pub distinct : Distinct (ids h.server.sessions)
  pub in_range : All IsId (ids h.server.sessions)

-- The sessions of one server are among those of the other, in the same order, with some more in front.
abbrev pub Extends : Hub → Hub → ℕ → Type 0
Extends h h' n =
    (front : List ℕ) × (length front ≤ n)
    × (ids h'.server.sessions ≡ front ++ ids h.server.sessions)

new_ids : (id : ℕ) (keys : List ℕ) → member id keys ≡ false → All (λ key. key ≢ id) keys
new_ids id [] out = tt
new_ids id (key ∷ keys) out = (ground arith, new_ids id keys (ground arith))

pub Registered-IsSound :
    (keys : List ℕ) (n : ℕ) (h : Hub)
    → n < 2 ^ 32
    → Distinct keys
    → All IsId keys
    → Registered keys n h
    → IsSound h
Registered-IsSound keys n h small distinct in_range (status, same, next) = record {
  runs = status;
  next_small = rw next small;
  distinct = rw same distinct;
  in_range = rw same in_range;
}

module _ (handlers : Handlers) (keep : KeepRegistry handlers) where
  session_step :
      (h h' : Hub)
      → IsSound h
      → Registered (ids h.server.sessions) h.server.id h'
      → IsSound h' × Extends h h' 1
  session_step h h' sound r = (
    Registered-IsSound (ids h.server.sessions) h.server.id h' sound.next_small sound.distinct
        sound.in_range r,
    ([], omega arith, r.1),
  )

  pub hub_step-IsSound :
      (e : HubEvent) (h : Hub)
      → IsSound h
      → length h.server.sessions + 1 < 2 ^ 32
      → IsSound (hub_step handlers e h) × Extends h (hub_step handlers e h) 1
  unfolding hub_step has_id
  hub_step-IsSound (accepts true) h sound few = unfold accept in (sound, ([], omega arith, refl))
  hub_step-IsSound (accepts false) h sound few =
      let (id, free, r) = accepted-Registered handlers keep h sound.runs sound.next_small few in
      let keys = ids h.server.sessions in
      let out : member id keys ≡ false = sym (member-ids id h.server.sessions) ∙ free.1 in
      (
        Registered-IsSound (id ∷ keys) id (accept handlers false h) free.2
            (new_ids id keys out, sound.distinct) ((free.0, free.2), sound.in_range) r,
        (id ∷ [], omega arith, r.1),
      )
  hub_step-IsSound (reads id result) h sound few =
      session_step h (at_session handlers id (step (read_completes result)) h) sound (
        at_session-Registered handlers keep (ids h.server.sessions) h.server.id id
          (step (read_completes result)) h
          (read_keeps (Registered (ids h.server.sessions) h.server.id) result)
          (sound.runs, refl, refl))
  hub_step-IsSound (writes id result) h sound few =
      session_step h (at_session handlers id (step (write_completes result)) h) sound (
        at_session-Registered handlers keep (ids h.server.sessions) h.server.id id
          (step (write_completes result)) h
          (write_keeps (Registered (ids h.server.sessions) h.server.id) result)
          (sound.runs, refl, refl))

  -- One more event, one more session at most.
  pub hub_step-few :
      (e : HubEvent) (h : Hub)
      → Extends h (hub_step handlers e h) 1
      → length (hub_step handlers e h).server.sessions ≤ 1 + length h.server.sessions
  hub_step-few e h (front, few', same) =
      let h' = hub_step handlers e h in
      omega (
        arith,
        length-ids h'.server.sessions,
        length-ids h.server.sessions,
        ap (λ (xs : List ℕ). length xs) same,
        length-append front (ids h.server.sessions),
      )

  Extends-trans :
      (h h' h'' : Hub) (m n k : ℕ) → m + n ≤ k → Extends h h' m → Extends h' h'' n → Extends h h'' k
  Extends-trans h h' h'' m n k within (front, few, same) (more, few', same') = (
    more ++ front,
    omega (arith, length-append more front),
    same'
        ∙ ap (λ (xs : List ℕ). more ++ xs) same
        ∙ sym (append_assoc more front (ids h.server.sessions)),
  )

  -- Over any events, with fewer than 2 ^ 32 - 1 sessions and events, a server whose handlers leave the
  -- map alone runs on: no search for an id is without end, the undefined behaviour of `remove` is not
  -- reached, ids stay distinct numbers of a uint32_t other than 0, and no session is ever taken out of
  -- the map, closed or not.
  pub hub_steps-IsSound :
      (es : List HubEvent) (h : Hub)
      → IsSound h
      → length h.server.sessions + length es + 1 < 2 ^ 32
      → IsSound (hub_steps handlers es h) × Extends h (hub_steps handlers es h) (length es)
  unfolding hub_steps
  hub_steps-IsSound [] h sound few = (sound, ([], omega arith, refl))
  hub_steps-IsSound (e ∷ es) h sound few =
      let h' = hub_step handlers e h in
      let (sound', extends) = hub_step-IsSound e h sound (omega arith) in
      let more = hub_step-few e h extends in
      let (last, rest) = hub_steps-IsSound es h' sound' (omega arith) in
      rw (sound.runs, hub_steps)
        (
          last,
          Extends-trans h h' (hub_steps handlers es h') 1 (length es) (length (e ∷ es))
              (omega arith) extends rest,
        )
