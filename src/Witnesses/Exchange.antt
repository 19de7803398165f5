-- ===== src/Witnesses/Exchange.antt =====
-- The theorems on a session that sends and one that receives, at concrete inputs.
use liboizys.Common.{◌≡◌, refl, true, [], ◌∷◌}
use liboizys.Session.{asio_session, World}
use liboizys.Session.Events.{steps}
use liboizys.Session.Wire.{frames}
use liboizys.Session.Wire.Trace.{wire}
use liboizys.Session.Transmit.{transmission, transmission_lem}
use liboizys.Witnesses.{hi_message, hi_framed, Log}

abbrev idle : World Log
idle = record { session = asio_session true; client = [] }

transmission_lem_example :
    (wire (transmission (hi_message ∷ hi_message ∷ [])) idle
      ≡ frames (hi_message ∷ hi_message ∷ []))
    × (steps (transmission (hi_message ∷ hi_message ∷ [])) idle ≡ idle)
transmission_lem_example =
    transmission_lem (hi_message ∷ hi_message ∷ []) idle (hi_framed, (hi_framed, tt)) (refl, refl)
