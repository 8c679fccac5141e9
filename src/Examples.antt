-- ===== src/Examples.antt =====
-- Each theorem about the program at a concrete input, part by part.
mod Wire
mod Queues
mod Server
mod Physics
mod Network
mod Client
mod Audio
mod World
mod Serving
mod Programs
mod Run
mod Threads
mod Resources
