-- ===== src/User/Pci.antt =====
-- linux_user/src/osal_pci.c: PCI devices through the files below /proc/bus/pci.
pub mod Device
pub mod Posix
pub mod Config
pub mod Address
pub mod Header
pub mod Scan
mod Tests
