-- ===== src/Rtp.antt =====
-- The RTP layer of the receiver: sequence arithmetic, the datagram guard and the buffer policy of
-- firmware/components/michi_audio.
pub mod Distance
pub mod Guard
pub mod Loss
pub mod BufferPolicy
