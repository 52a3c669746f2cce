-- ===== src/Tests.antt =====
-- Concrete inputs: the theorems at work on frames, envelopes, users and brokers of the size of a test.
mod Frames
mod Wire
mod Exchanges
mod Access
mod Keys
mod Topics
mod Sessions
mod Restarts
mod Logins
mod Purges
mod Logs
mod Rounds
mod Admins
mod Denials
mod Stores
mod Startups
mod Retransmissions
mod Reloads
mod Shops
mod Backlogs
