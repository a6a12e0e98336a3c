-- ===== src/Tests/Radius.antt =====
-- The registry of access points on concrete requests.
use vectorcore_twag.Base.{◌≡◌, refl, true, false, [], ◌∷◌}
use vectorcore_twag.Base.Map.{lookup, text_eq}
use vectorcore_twag.Base.Text.{Text, text, to_lower}
use vectorcore_twag.Session.Mac.{parse_mac}
use vectorcore_twag.Session.AuthCache.{trim_space}
use vectorcore_twag.Radius.ApRegistry.{ApObservation, parse_called_station_id}
use vectorcore_twag.Radius.ApRegistry.Counts.{History, IsCounted, registry, registry_lem}

abbrev key : Text
key = text "10.0.0.7"

abbrev asks : ApObservation
asks = record {
  source_ip = key;
  nas_ip = [];
  nas_identifier = text "ap-1";
  called_station_id = text "F0-5C-77-E8-72-9E:wlan";
  accounting_packet = false;
}

abbrev accounts : ApObservation
accounts = record asks { nas_identifier = []; accounting_packet = true }

abbrev history : History
history = (accounts, 9) ∷ (asks, 4) ∷ []

called_station :
    parse_called_station_id (text " F0-5C-77-E8-72-9E:wlan ")
    ≡ (text "f0-5c-77-e8-72-9e", text "wlan")
unfolding parse_called_station_id trim_space parse_mac to_lower
called_station = refl

registry_lem_example : IsCounted key history (lookup key (registry history))
registry_lem_example = registry_lem key history
