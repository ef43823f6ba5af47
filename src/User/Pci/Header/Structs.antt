-- ===== src/User/Pci/Header/Structs.antt =====
-- The structures of os_pci_dev_header_t in include/osal_pci.h, member by member.
use osal.Base.{ℕ, List}

pub record HeaderType0 : Type 0 where
  pub base_addresses : List ℕ
  pub cis : ℕ
  pub sub_vendor_id : ℕ
  pub sub_system_id : ℕ
  pub rom_base_address : ℕ
  pub reserved2 : List ℕ
  pub interrupt_line : ℕ
  pub interrupt_pin : ℕ
  pub minimum_grant : ℕ
  pub maximum_latency : ℕ

pub record HeaderType1 : Type 0 where
  pub base_addresses : List ℕ
  pub primary_bus_number : ℕ
  pub secondary_bus_number : ℕ
  pub subordinate_bus_number : ℕ
  pub secondary_latency_timer : ℕ
  pub io_base : ℕ
  pub io_limit : ℕ
  pub secondary_status : ℕ
  pub memory_base : ℕ
  pub memory_limit : ℕ
  pub prefetchable_memory_base : ℕ
  pub prefetchable_memory_limit : ℕ
  pub prefetchable_memory_base_upper32 : ℕ
  pub prefetchable_memory_limit_upper32 : ℕ
  pub io_base_upper : ℕ
  pub io_limit_upper : ℕ
  pub reserved2 : ℕ
  pub expansion_rom_base : ℕ
  pub interrupt_line : ℕ
  pub interrupt_pin : ℕ
  pub bridge_control : ℕ

pub record HeaderType2 : Type 0 where
  pub base_address : ℕ
  pub capabilities_ptr : ℕ
  pub reserved2 : ℕ
  pub secondary_status : ℕ
  pub primary_bus_number : ℕ
  pub cardbus_bus_number : ℕ
  pub subordinate_bus_number : ℕ
  pub cardbus_latency_timer : ℕ
  pub memory_base0 : ℕ
  pub memory_limit0 : ℕ
  pub memory_base1 : ℕ
  pub memory_limit1 : ℕ
  pub io_base0_lo : ℕ
  pub io_base0_hi : ℕ
  pub io_limit0_lo : ℕ
  pub io_limit0_hi : ℕ
  pub io_base1_lo : ℕ
  pub io_base1_hi : ℕ
  pub io_limit1_lo : ℕ
  pub io_limit1_hi : ℕ
  pub interrupt_line : ℕ
  pub interrupt_pin : ℕ
  pub bridge_control : ℕ
  pub sub_vendor_id : ℕ
  pub sub_system_id : ℕ
  pub legacy_base_address : ℕ
  pub reserved3 : List ℕ
  pub system_control : ℕ
  pub multi_media_control : ℕ
  pub general_status : ℕ
  pub reserved4 : List ℕ
  pub gpio0_control : ℕ
  pub gpio1_control : ℕ
  pub gpio2_control : ℕ
  pub gpio3_control : ℕ
  pub irq_mux_routing : ℕ
  pub retry_status : ℕ
  pub card_control : ℕ
  pub device_control : ℕ
  pub diagnostic : ℕ

pub record Header : Type 0 where
  pub vendor_id : ℕ
  pub device_id : ℕ
  pub command : ℕ
  pub status : ℕ
  pub revision_id : ℕ
  pub prog_if : ℕ
  pub sub_class : ℕ
  pub base_class : ℕ
  pub cache_line_size : ℕ
  pub latency_timer : ℕ
  pub header_type : ℕ
  pub bist : ℕ
  pub type0 : HeaderType0
  pub type1 : HeaderType1
  pub type2 : HeaderType2
  pub device_specific : List ℕ
