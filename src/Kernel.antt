-- ===== src/Kernel.antt =====
-- linux_kernel/: the kernel-space implementation.
pub mod Alarm
pub mod Clock
pub mod Event
pub mod Firmware
pub mod IrqProxy
pub mod Irq
pub mod IrqLock
pub mod Lock
pub mod MemMap
pub mod Module
pub mod Pci
pub mod Thread
pub mod Trace
