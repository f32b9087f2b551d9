-- ===== src/GoText.antt =====
-- The functions of Go's strconv, strings, encoding/hex and net/url that the program uses, over
-- byte strings.
pub mod Decimal
pub mod Split
pub mod Hex
pub mod Print
