-- ===== src/Tests.antt =====
-- The theorems at concrete inputs, and tests of the definitions by evaluation.
mod Paths
mod Auths
mod Requests
mod Replies
mod FileSystem
mod Tokens
mod Server
mod Texts
mod Orders
mod Spared
mod Runs
mod Directories
