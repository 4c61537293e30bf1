-- ===== src/Text.antt =====
-- The parts of the C++ standard library that include/iouxx/iouops/network/ip.hpp and the version
-- parser of include/iouxx/iouringxx.hpp call on texts: `contains`, `std::views::split`,
-- `std::from_chars` and the integer fields of `std::format`.
pub mod Split
pub mod Number
