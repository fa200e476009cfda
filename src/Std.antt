-- ===== src/Std.antt =====
-- What the program uses of Go's standard library, written out: strings, strconv, base64, hex,
-- HTTP messages.
pub mod Text
pub mod Strconv
pub mod Base64
pub mod Float
pub mod Sort
pub mod Http
pub mod Redirect
