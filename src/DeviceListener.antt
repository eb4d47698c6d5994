-- ===== src/DeviceListener.antt =====
-- src/device_listener.c: the listener for attached and detached devices, in three layers: 32-bit
-- numbers on the wire, the reader of the byte stream, and the messages of usbmuxd.
pub mod Wire
pub mod Reader
pub mod Session
