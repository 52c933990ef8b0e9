-- ===== src/Conversation.antt =====
-- What a slave and the master say to each other, both ends of it (libdrqueue/request.c).
pub mod Turns
pub mod Status
pub mod Registration
pub mod Limits
pub mod Submission
pub mod Accepted
pub mod Submitted
pub mod Computers
pub mod LimitsSent
