-- ===== src/Dynamic.antt =====
-- src/dynamic.h and dynamic.cpp: how messages are mapped to Perl packages.
pub mod Options
pub mod Packages
