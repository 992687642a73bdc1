-- ===== src/Go.antt =====
-- Parts of Go's standard library that the engine computes with: package `encoding/hex`, and the
-- lexical functions of `path/filepath` on a system whose separator is "/".
pub mod Ip
pub mod Strconv
pub mod Hex
pub mod FilePath
