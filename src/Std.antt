-- ===== src/Std.antt =====
-- What the program takes from the C++ standard library: results of calls, strings, numbers in
-- text, and `std::unordered_map`.
pub mod Result
pub mod Exec
pub mod Keeps
pub mod Safe
pub mod Text
pub mod Numbers
pub mod UnorderedMap
