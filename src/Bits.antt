-- ===== src/Bits.antt =====
-- Laws of `^` and `|` at all numbers, by recursion on binary digits. The native operations come
-- with the equations `bit_xor-bitwise` and `bit_or-bitwise` only.
pub mod Step
pub mod Xor
pub mod Or
