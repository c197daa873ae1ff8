-- ===== src/Tests.antt =====
-- Runs of the model on concrete inputs.
mod Data
mod Flights
mod Parsers
mod Saturations
mod Scores
mod Answers
mod Decisions
mod Streams
mod Caches
mod Settings
mod Processes
mod Rounds
