-- ===== src/Examples.antt =====
-- Runs on concrete inputs, and each theorem at one where its hypotheses hold.
mod Expressions
mod Printing
mod Simulation
mod Rewards
mod Strategies
mod Queue
mod Pending
mod Guarding
