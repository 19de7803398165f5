-- ===== src/Example/SessionMap.antt =====
-- The class of example/chat/chat_server.cpp, `chat_server`, without its handlers. The class of
-- example/notification/notification_server.cpp has the same members, word for word. The sessions are
-- those of any implementation of the interface; the list is the map in the order of its iteration.

pub mod Ids
pub mod Places
pub mod Keys
pub mod Sessions
pub mod Orders
use liboizys.Common.{
  ℕ, zero, suc, ◌+◌, ◌%◌, ◌^◌, Bool, true, false, ◌||◌, Option, none, some, List, [], ◌∷◌, ◌==◌,
  if◌then◌else◌, is_some, length, Result, ok, throws, session_gone,
}
use liboizys.Session.{Bytes}

-- What `send_all` uses of `session_i`: `send`, with the count or the exception.
pub record SessionApi (S : Type 0) : Type 0 where
  pub send : Bytes → S → S × Result ℕ

-- `id` is a uint32_t.
pub record Server (S : Type 0) : Type 0 where
  pub sessions : List (ℕ × S)
  pub id : ℕ

-- A call returns or throws, or the behaviour of the program is undefined.
pub data Behaviour (A : Type 0) : Type 0 where
  defined : A → Behaviour A
  undefined : Behaviour A

module _ {S : Type 0} where
  unfoldable pub find : ℕ → List (ℕ × S) → Option S
  find id [] = none
  find id ((key, session) ∷ rest) = if key == id then some session else find id rest

  unfoldable pub server : Server S
  server = record { sessions = []; id = 0 }

  unfoldable pub has_id : ℕ → Server S → Bool
  unfolding find
  has_id id s = is_some (find id s.sessions)

  -- `while ((id == 0) || (has_id(id))) { id++; }`, for a number of rounds; `none` means that they did
  -- not suffice.
  unfoldable pub create_id_loop : ℕ → Server S → Option (Server S)
  unfolding has_id
  create_id_loop zero s = none
  create_id_loop (suc rounds) s =
      let next = create_id_loop rounds (record s { id = (s.id + 1) % 2 ^ 32 }) in
      if s.id == 0 || has_id s.id s then next else some s

  -- One round for 0, one for each session, and the last.
  unfoldable pub create_id : Server S → Option (Server S)
  unfolding create_id_loop
  create_id s = create_id_loop (length s.sessions + 2) s

  unfoldable pub emplace : S → Server S → Server S × ℕ
  emplace session s = (record s { sessions = (s.id, session) ∷ s.sessions }, s.id)

  unfoldable pub add : S → Server S → Option (Server S × ℕ)
  unfolding create_id emplace
  add session s = elim (create_id s) [ none ↦ none | some s' ↦ some (emplace session s') ]

  -- The test is that of the source: on `it == sessions.end()` it uses `it`.
  unfoldable pub remove : ℕ → Server S → Behaviour (Server S)
  unfolding find
  remove id s = elim (find id s.sessions) [ none ↦ undefined | some session ↦ defined s ]

  unfoldable pub get : ℕ → Server S → Result S
  unfolding find
  get id s = elim (find id s.sessions) [ none ↦ throws session_gone | some session ↦ ok session ]

  -- The session at an id after a call of one of its functions, in the loop of `close` as elsewhere.
  unfoldable pub update : ℕ → S → List (ℕ × S) → List (ℕ × S)
  update id session [] = []
  update id session ((key, old) ∷ rest) =
      if key == id then (key, session) ∷ rest else (key, old) ∷ update id session rest

  module _ (api : SessionApi S) where
    -- An exception leaves the loop, after the sends that went before.
    unfoldable pub send_each : Bytes → List (ℕ × S) → List (ℕ × S) × Result (Unit {0})
    send_each message [] = ([], ok tt)
    send_each message ((id, session) ∷ rest) =
        let others = send_each message rest in
        let (session', sent) = api.send message session in
        elim sent [
          | ok count ↦ ((id, session') ∷ others.0, others.1)
          | throws e ↦ ((id, session') ∷ rest, throws e)
        ]

    unfoldable pub send_all : Bytes → Server S → Server S × Result (Unit {0})
    unfolding send_each
    send_all message s =
        let (sessions', sent) = send_each message s.sessions in
        (record s { sessions = sessions' }, sent)
