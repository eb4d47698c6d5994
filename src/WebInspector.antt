-- ===== src/WebInspector.antt =====
-- src/webinspector.c: the connection to the inspector of a device. Packets are a 4-byte big-endian
-- length and a body; a message may be spread over several packets as partial messages.
pub mod Packet
pub mod Reader
pub mod Session
