-- ===== src/Example/Program.antt =====
-- What the programs in example/ write to their output, a line at a time, with their calls of `unlink`;
-- and how their statements that call a session leave the code at an exception.
use Prim.Native.String.{String}
use liboizys.Common.{ℕ, List, [], ◌∷◌, ◌++◌, Result, ok, throws, Exception}
use liboizys.Session.{Bytes, Script, raise}

pub data Line : Type 0 where
  new_connection connection_closed invalid_line notify_line : Line
  chat_line : Bytes → Bytes → Line
  message_line : Bytes → Line
  error_line : Exception → Line
  shutdown_line : Line
  text_line listening_line unlink_call : String → Line

abbrev pub Output : Type 0
Output = List Line

abbrev pub print : Line → Output → Output
print line out = out ++ line ∷ []

-- A statement that calls the session: an exception leaves the code that makes the call.
abbrev pub proceed : {W A : Type 0} → Script W → Result A → Script W
proceed next (ok a) = next
proceed next (throws e) = raise e

-- How a run of a program goes: it waits for more to happen, in a state, or it ends.
pub data Progress (S : Type 0) : Type 0 where
  waits : S → Progress S
  exits : Output → ℕ → Progress S
  goes_wrong : Progress S
