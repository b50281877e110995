-- ===== src/DataChannel.antt =====
-- src/datachannel/core/service.rs: `DataChannelService`, which matches responses to waiting requests,
-- joins chunked responses, validates the channel, beats its heart and hands subscribed messages on.
pub mod State
pub mod Pending
pub mod Session
pub mod Ingress
pub mod Router
pub mod Requests
pub mod Waiters
pub mod Once
pub mod Sound
pub mod Steady
pub mod Reach
pub mod History
pub mod Publish
pub mod Delivery
pub mod Opening
pub mod Front
pub mod Inert
pub mod Epochs
pub mod NoneLost
