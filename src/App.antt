-- ===== src/App.antt =====
-- The application's own code, FLChat/FLChat: its data service and its controllers, over the
-- database as a parameter.
pub mod Values
pub mod Database
pub mod Models
pub mod Service
pub mod Requests
pub mod Search
pub mod Messages
pub mod Account
pub mod LogIn
mod Memory
mod Samples
mod Tests
mod SessionTests
pub mod Records
pub mod Observe
pub mod WellFormed
pub mod Kept
pub mod Removed
pub mod RemovedKeeps
pub mod Accepted
pub mod Delivery
pub mod Friendship
pub mod Conversation
pub mod ConversationKept
pub mod Screen
pub mod Settings
pub mod Sessions
pub mod Exact
pub mod Listed
pub mod Registered
