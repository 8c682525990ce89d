-- ===== src/Tests.antt =====
-- Concrete runs: each theorem of the results at an input where its hypotheses hold.
mod Table
mod Polls
mod Buffers
mod Requests
mod Loader
mod Server
mod Log
mod Codecs
mod Process
mod Pipeline
