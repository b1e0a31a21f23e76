-- ===== src/Runs.antt =====
-- The results at concrete inputs: messages on the wire, a user database, and a server with clients.
mod Wire
mod Accounts
mod Traffic
mod Login
mod Registered
mod Sending
mod Files
mod Transfers
mod Names
mod Sessions
