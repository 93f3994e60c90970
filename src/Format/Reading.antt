-- ===== src/Format/Reading.antt =====
-- src/hlib_format.cpp with src/hlib_string.cpp: a number that is formatted is read back.
use hlib.Base.{ℕ, ◌<◌, ◌≡◌, refl, ap, ◌∙◌, false, some, [], ◌∷◌, Bytes, ◌==◌, lt→ltb, arith}
use hlib.Strings.Integers.{stoui16_nothrow}
use hlib.Strings.Reading.{stoi-Reads, as_unsigned}
use hlib.Format.Decimal.{Shows}

-- A number that is read back.
pub reads_port :
    (xs : Bytes) (port : ℕ)
    → Shows port xs
    → (0 == port) ≡ false
    → port < 65536
    → stoui16_nothrow xs 10 ≡ some port
reads_port [] port s e h = absurd (ground (arith, s.1, e))
reads_port (c ∷ cs) port (n, v) e h =
    (stoi-Reads 10 (omega arith) (omega arith) c cs n).uint16
    ∙ ap (as_unsigned 16) v
    ∙ rw (lt→ltb port 65536 h) refl
