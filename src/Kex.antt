-- ===== src/Kex.antt =====
-- kex.c: choosing the methods of a connection from the lists of the two sides.
pub mod NameList
pub mod Agree
pub mod Negotiate
