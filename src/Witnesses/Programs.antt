-- ===== src/Witnesses/Programs.antt =====
-- The theorems on the programs in example/ at concrete inputs.
use liboizys.Common.{ℕ, ◌≡◌, refl, some, List, [], ◌∷◌, throws, invalid_message_size, arith}
use liboizys.Session.{Bytes}
use liboizys.ComMessage.{com_message}
use liboizys.Example.SessionMap.{Server, add}
use liboizys.Example.SessionMap.Ids.{IsFree, add_lem}
use liboizys.Witnesses.{hi}

-- The next id is the last one before the wrap, and it is taken.
abbrev full : Server (List Bytes)
full = record { sessions = (0xffffffff, []) ∷ (2, hi ∷ []) ∷ []; id = 0xffffffff }

add_lem_example :
    (id : ℕ) × (add [] full ≡ some (record { sessions = (id, []) ∷ full.sessions; id = id }, id))
    × IsFree id full
add_lem_example = add_lem [] full (omega arith) (omega arith)

empty_refused : com_message [] ≡ throws invalid_message_size
unfolding com_message
empty_refused = refl
