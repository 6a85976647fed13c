-- ===== src/Wnfs.antt =====
-- The transport of frames of extensions/aille_wnfs.hpp: the channel, and the health of its stream.
pub mod Channel
pub mod Stream
