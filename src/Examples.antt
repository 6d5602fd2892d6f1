-- ===== src/Examples.antt =====
-- The theorems at concrete inputs: a journal and its worker, and the stores of the daemon.
mod Watching
mod Working
mod Serving
mod Granting
mod Indexing
mod Supervising
mod Registering
mod Configuring
mod Searching
mod Installing
