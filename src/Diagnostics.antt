-- ===== src/Diagnostics.antt =====
-- OdbcError.cpp and OdbcObject.cpp: diagnostic records, and the list of them that every handle
-- keeps. A text is the list of its bytes before the terminator, and a buffer that is written holds
-- such a text. An `int` argument is an integer; what a function stores through a pointer that is
-- not NULL is `some`.
pub mod Tables
pub mod Record
pub mod Object
pub mod Lookup
pub mod Queue
pub mod Text
pub mod Buffers
mod Tests
