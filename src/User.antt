-- ===== src/User.antt =====
-- linux_user/: the user-space implementation.
pub mod Pci
pub mod Alarm
pub mod Clock
pub mod Event
pub mod Firmware
pub mod Irq
pub mod List
pub mod IrqLock
pub mod Lock
pub mod MemMap
pub mod Sema
pub mod Thread
pub mod Trace
