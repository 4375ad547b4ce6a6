-- ===== src/Main/Updater/Tests.antt =====
-- The update queue at a concrete history.
use podscape.Common.{Bool, true, false, none, List, [], ◌∷◌, ◌≡◌}
use podscape.Main.Updater.{UpdateEvent, on_window_ready, start}
use podscape.Main.Updater.Order.{send_all, delivered_in_order}

abbrev event : UpdateEvent
event = record { channel = "updater:checking"; payload = none }

abbrev found : UpdateEvent
found = record { channel = "updater:available"; payload = none }

abbrev early : List (UpdateEvent × Bool)
early = (event, false) ∷ (found, true) ∷ []

abbrev late : List (UpdateEvent × Bool)
late = (found, false) ∷ (event, true) ∷ []

delivered_in_order_example :
    let s = send_all late (on_window_ready (send_all early start)) in
    (s.delivered ≡ event ∷ found ∷ event ∷ [])
    × (s.pending_events ≡ found ∷ [])
    × ((on_window_ready s).delivered ≡ event ∷ found ∷ event ∷ found ∷ [])
    × ((on_window_ready s).pending_events ≡ [])
delivered_in_order_example = delivered_in_order early late
