-- ===== src/Tests.antt =====
-- Runs at concrete inputs: each theorem of the header at one of them.
mod Service
mod Threads
mod Order
mod Sections
mod Pages
mod Pool
mod Client
mod Docs
mod Panel
mod Server
