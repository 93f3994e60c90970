-- ===== src/Stream.antt =====
-- include/hlib/sink.hpp, src/hlib_sink.cpp, include/hlib/source.hpp, src/hlib_source.cpp: where
-- bytes go to and come from. The sink is `SinkAdapter<Buffer>`; a source is the bytes that its
-- adapter shows and the number of them that are consumed.
pub mod Serializer
pub mod Deserializer
pub mod Producing
pub mod Streaming
pub mod RoundTrip
pub mod Texts
mod Tests
use hlib.Base.{
  ℕ, ◌+◌, ◌-◌, ◌%◌, ◌^◌, min, Bool, true, false, not, ◌&&◌, ◌||◌, Option, none, some, ◌>>=◌, ◌>>◌,
  leb, ◌==◌, if◌then◌else◌, Bytes, length, take, drop, Return, value, throws,
}
use hlib.Buffer.{Allocator, Buffer, add_size, infinite_capacity, bytes_at}
use hlib.Buffer.Capacity.{Pointer, asserts, reserve, resize}
use hlib.Buffer.Edit.{overwrite, on_block}

-- `class Sink`, with the buffer of its adapter
pub record Sink : Type 0 where
  pub maximum : ℕ
  pub buffer : Buffer

-- `Sink::MinimalCapacity`
abbrev pub minimal_capacity : ℕ
minimal_capacity = 0

-- A call of the buffer that throws out of a function marked noexcept ends the program.
abbrev pub no_throw : Buffer × Return Pointer → Option (Buffer × Pointer)
no_throw (b, value p) = some (b, p)
no_throw (b, throws e) = none

-- `SinkAdapter(maximum, data)`
unfoldable pub make_sink : Allocator → ℕ → Buffer → Option Sink
make_sink a maximum b =
    if maximum == infinite_capacity
    then some (record { maximum = maximum; buffer = b })
    else reserve a b maximum >>= no_throw >>= λ r. some (record { maximum = maximum; buffer = r.0 })

unfoldable pub full : Sink → Bool
full s = minimal_capacity == s.maximum || s.buffer.size == s.maximum

-- `headroom()`
unfoldable pub headroom : Sink → Option ℕ
headroom s = do
  asserts (not (minimal_capacity == s.maximum))
  asserts (leb s.buffer.size s.maximum)
  some (s.maximum - s.buffer.size)

-- `headroom(limit)`
unfoldable pub headroom_limited : Sink → ℕ → Option ℕ
unfolding headroom
headroom_limited s limit =
    if minimal_capacity == s.maximum
    then some (add_size s.buffer.size limit)
    else headroom s >>= λ h. some (min h limit)

-- `produce(size)`: the sink with room for n more bytes, and where they are to go
unfoldable pub produce : Allocator → Sink → ℕ → Option (Sink × Pointer)
produce a s n = do
  asserts (minimal_capacity == s.maximum || leb (add_size s.buffer.size n) s.maximum)
  r ← resize a s.buffer (add_size s.buffer.size n) >>= no_throw
  some (record s { buffer = r.0 }, r.1 >>= λ p. some (p + s.buffer.size))

-- writing where `produce` says
abbrev pub fill : Sink → ℕ → Bytes → Option Sink
fill s p ys = on_block s.buffer.block (overwrite p ys) >>= λ block.
    some (record s { buffer = record (s.buffer) { block = block } })

-- `produce(data, size)`: the sink, and its size if there was memory
unfoldable pub produce_bytes : Allocator → Sink → Bytes → Option (Sink × ℕ)
unfolding produce
produce_bytes a s ys = do
  r ← produce a s (length ys)
  elim r.1 [ none ↦ some (r.0, 0) | some p ↦ fill r.0 p ys >>= λ s'. some (s', s'.buffer.size) ]

-- `class Source`
pub record Source : Type 0 where
  pub bytes : Bytes
  pub progress : ℕ

unfoldable pub available : Source → Option ℕ
available s = do asserts (leb s.progress (length s.bytes)); some (length s.bytes - s.progress)

unfoldable pub is_empty : Source → Option Bool
is_empty s = do asserts (leb s.progress (length s.bytes)); some (s.progress == length s.bytes)

-- `peek(size)`: where the next bytes stand
unfoldable pub peek : Source → ℕ → Option ℕ
peek s n = do asserts (leb (add_size s.progress n) (length s.bytes)); some s.progress

-- `consume(size)`
unfoldable pub consume : Source → ℕ → Option (Source × ℕ)
unfolding peek
consume s n = do p ← peek s n; some (record s { progress = add_size s.progress n }, p)

-- `consume(data, size)`: the bytes that go to `data`
unfoldable pub consume_bytes : Source → ℕ → Option (Source × Bytes)
unfolding consume
consume_bytes s n = do r ← consume s n; some (r.0, take n (drop r.1 s.bytes))
