-- ===== src/Samples.antt =====
-- A small environment that the tests and the examples run in: tables as sorted lists, records
-- printed field by field, and a cipher that puts the key before the text. It stands for no code of
-- the repository.
pub mod SortedLists
pub mod Printers
pub mod Setting
pub mod People
