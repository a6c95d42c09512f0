-- ===== src/Tests.antt =====
-- Examples: the theorems at concrete inputs.
mod Lists
mod Bond
mod Rings
mod Texts
mod System
mod Packets
mod Tables
mod Threads
