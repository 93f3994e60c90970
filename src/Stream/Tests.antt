-- ===== src/Stream/Tests.antt =====
-- The sink and the source at concrete inputs.
use hlib.Base.{◌≡◌, refl, true, ◌∷◌, [], some, arith, codes, negsuc, ◌++◌}
use hlib.Buffer.{Allocator, Buffer, realloc, residues}
use hlib.Buffer.Valid.{IsValid}
use hlib.Serial.{of_uint16, of_int8, of_bool}
use hlib.Serial.Codec.{be}
use hlib.Stream.{
  Sink, Source, make_sink, produce, produce_bytes, headroom, headroom_limited, full, consume_bytes,
  is_empty,
}
use hlib.Stream.Deserializer.{deserialize_text}
use hlib.Stream.RoundTrip.{StreamRoundTrips, serialize-StreamRoundTrips}
use hlib.Stream.Serializer.{serialize_text}
use hlib.Stream.Texts.{TextRoundTrips, serialize_text-TextRoundTrips}

abbrev generous : Allocator
generous = record { grants = λ n. true; residue = λ i. 170 }

abbrev note : Buffer
note = record { block = some (codes "note"); maximum = 64; capacity = 4; size = 3 }

abbrev small_sink : Sink
small_sink = record { maximum = 32; buffer = note }

note-IsValid : IsValid note
note-IsValid = record {
  block_length = refl;
  null_block = λ z. absurd (omega (arith, z));
  size_fits = omega arith;
  capacity_fits = omega arith;
  maximum_fits = omega arith;
}

text_written :
    serialize_text generous small_sink (codes "ab")
    ≡ some (record {
      maximum = 32;
      buffer = record {
        block = some (codes "notab" ++ (0 ∷ []));
        maximum = 64;
        capacity = 6;
        size = 6;
      };
    })
unfolding serialize_text produce_bytes headroom realloc residues hlib.Buffer.Capacity.resize
    hlib.Buffer.Edit.overwrite
text_written = refl

headroom_left : headroom_limited small_sink 100 ≡ some 29
unfolding headroom_limited
headroom_left = refl

-- A sink of minimal capacity has no maximum to subtract from: the limit is added to the size.
headroom_minimal : headroom_limited (record { maximum = 0; buffer = note }) 100 ≡ some 103
unfolding headroom_limited
headroom_minimal = refl

text_read :
    deserialize_text 9 (record { bytes = codes "xyz" ++ (0 ∷ codes "w"); progress = 1 })
    ≡ some (record { bytes = codes "xyz" ++ (0 ∷ codes "w"); progress = 4 }, 1)
unfolding deserialize_text hlib.Stream.available hlib.Stream.consume
text_read = refl

serialize-StreamRoundTrips_example :
    StreamRoundTrips be generous small_sink (of_uint16 513 ∷ of_int8 (negsuc 4) ∷ of_bool true ∷ [])
serialize-StreamRoundTrips_example =
    serialize-StreamRoundTrips be generous small_sink
      (of_uint16 513 ∷ of_int8 (negsuc 4) ∷ of_bool true ∷ [])
      (record {
        valid = note-IsValid;
        bounded = omega arith;
        fits = omega arith;
        room = omega arith;
        granted = λ n h. refl;
      })
      (omega arith, (omega arith, (tt, tt)))

serialize_text-TextRoundTrips_example : TextRoundTrips generous small_sink (codes "hi") 3
serialize_text-TextRoundTrips_example =
    serialize_text-TextRoundTrips generous small_sink (codes "hi") 3
      (record {
        valid = note-IsValid;
        bounded = omega arith;
        fits = omega arith;
        room = omega arith;
        granted = λ n h. refl;
      })
      (omega arith, (omega arith, tt)) (omega arith)
