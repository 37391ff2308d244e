-- ===== src/Python.antt =====
-- The parts of Python and of its standard library that the package computes with: exceptions,
-- slices of `bytes`, the integers of `ctypes`, and UTF-8.
pub mod Result
pub mod Bytes
pub mod Word
pub mod Text
pub mod Dict
