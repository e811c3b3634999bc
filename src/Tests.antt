-- ===== src/Tests.antt =====
-- The theorems at concrete inputs, and runs of the definitions.
mod World
mod Texts
mod Lists
mod Numbers
mod Timers
mod Commands
mod Match
mod Objects
mod Family
mod Verbs
mod Properties
mod SymTable
mod CodeGen
