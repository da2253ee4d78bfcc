-- ===== src/SipBridge.antt =====
-- The bridge between SIP calls and the live model (sip_bridge).
pub mod Rtp
pub mod Dialog
pub mod Challenge
pub mod Digest
pub mod Register
pub mod Caller
pub mod Server
pub mod Pcm
pub mod AudioCodec
