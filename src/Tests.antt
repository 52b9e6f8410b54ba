-- ===== src/Tests.antt =====
-- Runs on concrete inputs, and the theorems at concrete inputs.
mod Heaps
mod Buffers
mod Arrays
mod Jobs
mod Trees
mod Chunks
mod Etags
mod Connections
mod Numbers
mod Requests
mod Handling
mod Cycles
mod Names
mod HttpChunks
mod Machine
mod Digits
mod Files
