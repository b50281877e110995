-- ===== src/Tests.antt =====
-- Concrete runs, and each theorem with a hypothesis at an input where it holds.
mod Channel
mod Chunking
mod Formats
mod Crypto
mod Queue
mod Sessions
mod Transport
mod Media
mod Points
