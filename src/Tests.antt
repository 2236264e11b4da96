-- ===== src/Tests.antt =====
-- Runs of the model on concrete inputs, and instances of its theorems at them.
mod Text
mod Queries
mod Scripted
mod Running
mod Absence
mod Objects
mod Taps
mod Connection
