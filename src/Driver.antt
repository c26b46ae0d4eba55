-- ===== src/Driver.antt =====
-- kernel/trigger6_drv.c and kernel/trigger6.h: the state of the device and the driver's operations on it.
pub mod Device
pub mod Addressing
pub mod Queue
pub mod Usb
pub mod Damage
pub mod Packet
pub mod Raw
pub mod Probe
pub mod Jpeg
pub mod Nv12
pub mod Fault
pub mod Keepalive
pub mod Frame
pub mod Requests
pub mod Chip
pub mod Timing
pub mod Modeset
pub mod Unbind
pub mod Bind
pub mod Misc
pub mod Events
pub mod Report
pub mod Export
pub mod Settings
