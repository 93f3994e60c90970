-- ===== src/Strings.antt =====
-- src/hlib_string.cpp and include/hlib/string.hpp: texts. A std::string is the list of its bytes,
-- in the locale "C".
pub mod Numeral
pub mod Integers
pub mod Conversion
pub mod Dispatch
pub mod Digits
pub mod Reading
pub mod Parts
pub mod Splitting
pub mod Trimming
pub mod Counting
pub mod Replacing
pub mod Base64
pub mod Base64RoundTrip
pub mod Base64Buffer
mod Tests
