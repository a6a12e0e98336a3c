-- ===== src/Tests/Gtp.antt =====
-- GTPv2-C on concrete messages.
use vectorcore_twag.Base.{
  ◌≤◌, ◌≡◌, ◌↔◌, refl, true, List, [], ◌∷◌, ok, arith, length, All, Distinct, ◌+◌,
}
use vectorcore_twag.Base.Bytes.{Bytes, put24}
use vectorcore_twag.Gtp.Message.{Gtpv2Message, encode, decode, max_gtpv2_sequence}
use vectorcore_twag.Gtp.Message.RoundTrip as Messages
use vectorcore_twag.Gtp.Message.RoundTrip.{decode-encode, encode_accepts}
use vectorcore_twag.Gtp.Sequence.{Action, init, run, step, next_sequence, load, swap}
use vectorcore_twag.Gtp.Sequence.Order.{InRange, cycle, issued_run, issued-Distinct}
use vectorcore_twag.Gtp.Ie.{Gtpv2Ie, encode_ies, decode_ies}
use vectorcore_twag.Gtp.Ie.RoundTrip.{IsWellFormed, decode_ies-encode_ies}

abbrev create_session : Gtpv2Message
create_session = record {
  type = 32;
  teid = 0;
  has_teid = true;
  sequence = 0x1234;
  payload = 1 ∷ 0 ∷ 1 ∷ 0 ∷ 9 ∷ [];
}

abbrev create_session_bytes : Bytes
create_session_bytes =
    0x48 ∷ 32 ∷ 0 ∷ 13 ∷ 0 ∷ 0 ∷ 0 ∷ 0 ∷ 0 ∷ 0x12 ∷ 0x34 ∷ 0 ∷ 1 ∷ 0 ∷ 1 ∷ 0 ∷ 9 ∷ []

create_session-IsWellFormed : Messages.IsWellFormed create_session
create_session-IsWellFormed = record {
  type_byte = omega arith;
  teid_range = omega arith;
  teid_absent = λ h. refl;
}

decode-encode_example : decode create_session_bytes ≡ ok create_session
unfolding encode put24
decode-encode_example =
    decode-encode create_session create_session_bytes create_session-IsWellFormed refl

encode_accepts_example :
    ((b : Bytes) × (encode create_session ≡ ok b))
    ↔ ((1 ≤ 0x1234) × (0x1234 ≤ max_gtpv2_sequence) × (8 + length create_session.payload ≤ 0xffff))
encode_accepts_example = encode_accepts create_session

-- Two goroutines load the counter before either swaps it, so that the second swap fails.
abbrev race : List Action
race = load 0 ∷ load 1 ∷ swap 0 ∷ swap 1 ∷ load 1 ∷ swap 1 ∷ []

issued_run_example :
    ((run (init max_gtpv2_sequence) race).issued
      ≡ cycle max_gtpv2_sequence (length (run (init max_gtpv2_sequence) race).issued))
    × All InRange (run (init max_gtpv2_sequence) race).issued
issued_run_example = issued_run max_gtpv2_sequence race (omega arith, omega arith)

issued-Distinct_example : Distinct (run (init max_gtpv2_sequence) race).issued
unfolding run step next_sequence init
issued-Distinct_example =
    issued-Distinct max_gtpv2_sequence race (omega arith, omega arith) (omega arith)

abbrev bearer : Gtpv2Ie
bearer = record { type = 73; instance_no = 3; payload = 5 ∷ [] }

bearer-IsWellFormed : IsWellFormed bearer
bearer-IsWellFormed = record {
  type_byte = omega arith;
  instance_nibble = omega arith;
  length_fits = omega arith;
}

abbrev two_bearers : Bytes
two_bearers = 73 ∷ 0 ∷ 1 ∷ 3 ∷ 5 ∷ 73 ∷ 0 ∷ 1 ∷ 3 ∷ 5 ∷ []

decode_ies-encode_ies_example :
    decode_ies (encode_ies (bearer ∷ bearer ∷ [])) ≡ ok (bearer ∷ bearer ∷ [])
decode_ies-encode_ies_example =
    decode_ies-encode_ies (bearer ∷ bearer ∷ []) (bearer-IsWellFormed, (bearer-IsWellFormed, tt))
