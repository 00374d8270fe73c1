-- ===== src/Output.antt =====
-- The files that the programs of memlab write, as the bytes of their text.
pub mod Csv
pub mod Trace
