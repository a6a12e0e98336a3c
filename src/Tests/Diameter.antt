-- ===== src/Tests/Diameter.antt =====
-- Diameter on concrete messages.
use vectorcore_twag.Base.{◌≢◌, err, ◌≡◌, refl, [], ◌∷◌, ◌++◌, ok, arith, length, All}
use vectorcore_twag.Base.Bytes.{Bytes, read24, put24}
use vectorcore_twag.Diameter.Avp.{
  front_avp, encode_avp, pad4, Avp, encode_avps, decode_avps, decode_avps_loop, out_of_fuel,
}
use vectorcore_twag.Diameter.Avp.RoundTrip.{IsWellFormed, decode_avps-encode_avps}
use vectorcore_twag.Diameter.Avp.Sound.{IsReadable, wire_sizes, decode_avps-ends, decode_avps_sound}
use vectorcore_twag.Diameter.Message.{Message, encode, decode_message}
use vectorcore_twag.Diameter.Message.RoundTrip as Messages
use vectorcore_twag.Diameter.Message.RoundTrip.{decode_message-encode}

abbrev origin : Avp
origin = record { code = 264; vendor_id = 0; flags = 0x40; payload = 97 ∷ 98 ∷ 99 ∷ [] }

abbrev result : Avp
result = record { code = 298; vendor_id = 10415; flags = 0xc0; payload = 0 ∷ 0 ∷ 0x13 ∷ 0x89 ∷ [] }

origin-IsWellFormed : IsWellFormed origin
origin-IsWellFormed = record {
  code_range = omega arith;
  vendor_range = omega arith;
  flags_byte = omega arith;
  flag_set = λ h. absurd (omega arith);
  flag_clear = λ h. omega arith;
  length_fits = omega arith;
}

result-IsWellFormed : IsWellFormed result
result-IsWellFormed = record {
  code_range = omega arith;
  vendor_range = omega arith;
  flags_byte = omega arith;
  flag_set = λ h. omega arith;
  flag_clear = λ h. absurd (omega arith);
  length_fits = omega arith;
}

decode_avps-encode_avps_example :
    decode_avps (encode_avps (origin ∷ result ∷ [])) ≡ ok (origin ∷ result ∷ [])
decode_avps-encode_avps_example =
    decode_avps-encode_avps (origin ∷ result ∷ []) (origin-IsWellFormed, (result-IsWellFormed, tt))

decode_avps-ends_example : decode_avps (0 ∷ 0 ∷ 1 ∷ 8 ∷ 0x40 ∷ 0 ∷ 0 ∷ 7 ∷ []) ≢ err out_of_fuel
decode_avps-ends_example = decode_avps-ends (0 ∷ 0 ∷ 1 ∷ 8 ∷ 0x40 ∷ 0 ∷ 0 ∷ 7 ∷ [])

abbrev origin_bytes : Bytes
origin_bytes = 0 ∷ 0 ∷ 1 ∷ 8 ∷ 0x40 ∷ 0 ∷ 0 ∷ 11 ∷ 97 ∷ 98 ∷ 99 ∷ 0 ∷ []

decode_avps_sound_example :
    All IsReadable (origin ∷ []) × (wire_sizes (origin ∷ []) ≡ length origin_bytes)
unfolding decode_avps decode_avps_loop read24 front_avp
decode_avps_sound_example = decode_avps_sound origin_bytes (origin ∷ []) (ground arith) refl

abbrev watchdog : Message
watchdog = record {
  flags = 0x80;
  command_code = 280;
  app_id = 0;
  hop_by_hop = 7;
  end_to_end = 8;
  avps = origin ∷ [];
}

watchdog-IsWellFormed : Messages.IsWellFormed watchdog
unfolding encode_avps encode_avp put24 pad4
watchdog-IsWellFormed = record {
  flags_byte = omega arith;
  command_range = omega arith;
  app_range = omega arith;
  hop_range = omega arith;
  end_range = omega arith;
  avps_well = (origin-IsWellFormed, tt);
  length_fits = omega arith;
}

decode_message-encode_example :
    decode_message (encode watchdog ++ (1 ∷ 2 ∷ [])) ≡ ok (watchdog, 1 ∷ 2 ∷ [])
decode_message-encode_example = decode_message-encode watchdog (1 ∷ 2 ∷ []) watchdog-IsWellFormed
