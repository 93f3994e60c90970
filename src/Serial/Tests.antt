-- ===== src/Serial/Tests.antt =====
-- include/hlib/serial.hpp at concrete inputs.
use hlib.Base.{◌≡◌, refl, [], ◌∷◌, some, none, arith, codes, negsuc}
use hlib.Serial.{of_uint32, of_int16, of_bool, of_uint16, poke, stores, uint32, int16}
use hlib.Serial.Be
use hlib.Serial.Be.{write_uint32, write_int16, read_int16}
use hlib.Serial.BeRoundTrip
use hlib.Serial.RoundTrip.{transform-RoundTrips}
use hlib.Serial.Le
use hlib.Serial.LeRoundTrip

be_order :
    hlib.Serial.Be.transform (codes "......") 1 (of_uint32 305419896)
    ≡ some (46 ∷ 18 ∷ 52 ∷ 86 ∷ 120 ∷ 46 ∷ [], 5)
unfolding hlib.Serial.Be.transform stores
be_order = refl

le_order :
    hlib.Serial.Le.transform (codes "......") 1 (of_uint32 305419896)
    ≡ some (46 ∷ 120 ∷ 86 ∷ 52 ∷ 18 ∷ 46 ∷ [], 5)
unfolding hlib.Serial.Le.transform stores
le_order = refl

be_negative : hlib.Serial.Be.read int16 (255 ∷ 254 ∷ []) 0 ≡ some (of_int16 (negsuc 1), 2)
unfolding hlib.Serial.Be.read
be_negative = refl

write_past_the_end : hlib.Serial.Le.transform (codes "abc") 0 (of_uint32 1) ≡ none
unfolding hlib.Serial.Le.transform stores
write_past_the_end = refl

transform-RoundTrips_example :
    hlib.Serial.BeRoundTrip.RoundTrips (codes "........") 3 (of_int16 (negsuc 299))
    × hlib.Serial.LeRoundTrip.RoundTrips (codes "........") 3 (of_int16 (negsuc 299))
transform-RoundTrips_example =
    transform-RoundTrips (codes "........") 3 (of_int16 (negsuc 299)) (omega arith) (omega arith)
