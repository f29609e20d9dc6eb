-- ===== src/Json/Fuel.antt =====
-- src/runtime/Json.cpp: what the reading functions consume, and that the fuel of the loops is
-- enough.
pub mod Leaves
pub mod Numbers
pub mod Texts
pub mod Values
