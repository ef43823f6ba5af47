-- ===== src/User/Pci/Header.antt =====
-- os_pci_dev_header_t of include/osal_pci.h, read from the bytes that os_pci_read_config_header stores
-- in it.
pub mod Structs
pub mod Members
pub mod Registers
pub mod Reads
mod Tests
use osal.Base.{ℕ, List}
use osal.User.Pci.Header.Structs.{HeaderType0, HeaderType1, HeaderType2, Header}
use osal.User.Pci.Header.Members.{Member, ◌>>=◌, pure, char, short, long, array, union, number}

abbrev type0_member : Member HeaderType0
type0_member = do
  base_addresses ← array 6 long
  cis ← long
  sub_vendor_id ← short
  sub_system_id ← short
  rom_base_address ← long
  reserved2 ← array 2 long
  interrupt_line ← char
  interrupt_pin ← char
  minimum_grant ← char
  maximum_latency ← char
  pure (record {
    base_addresses = base_addresses;
    cis = cis;
    sub_vendor_id = sub_vendor_id;
    sub_system_id = sub_system_id;
    rom_base_address = rom_base_address;
    reserved2 = reserved2;
    interrupt_line = interrupt_line;
    interrupt_pin = interrupt_pin;
    minimum_grant = minimum_grant;
    maximum_latency = maximum_latency;
  })

abbrev type1_member : Member HeaderType1
type1_member = do
  base_addresses ← array 2 long
  primary_bus_number ← char
  secondary_bus_number ← char
  subordinate_bus_number ← char
  secondary_latency_timer ← char
  io_base ← char
  io_limit ← char
  secondary_status ← short
  memory_base ← short
  memory_limit ← short
  prefetchable_memory_base ← short
  prefetchable_memory_limit ← short
  prefetchable_memory_base_upper32 ← long
  prefetchable_memory_limit_upper32 ← long
  io_base_upper ← short
  io_limit_upper ← short
  reserved2 ← long
  expansion_rom_base ← long
  interrupt_line ← char
  interrupt_pin ← char
  bridge_control ← short
  pure (record {
    base_addresses = base_addresses;
    primary_bus_number = primary_bus_number;
    secondary_bus_number = secondary_bus_number;
    subordinate_bus_number = subordinate_bus_number;
    secondary_latency_timer = secondary_latency_timer;
    io_base = io_base;
    io_limit = io_limit;
    secondary_status = secondary_status;
    memory_base = memory_base;
    memory_limit = memory_limit;
    prefetchable_memory_base = prefetchable_memory_base;
    prefetchable_memory_limit = prefetchable_memory_limit;
    prefetchable_memory_base_upper32 = prefetchable_memory_base_upper32;
    prefetchable_memory_limit_upper32 = prefetchable_memory_limit_upper32;
    io_base_upper = io_base_upper;
    io_limit_upper = io_limit_upper;
    reserved2 = reserved2;
    expansion_rom_base = expansion_rom_base;
    interrupt_line = interrupt_line;
    interrupt_pin = interrupt_pin;
    bridge_control = bridge_control;
  })

abbrev type2_member : Member HeaderType2
type2_member = do
  base_address ← long
  capabilities_ptr ← char
  reserved2 ← char
  secondary_status ← short
  primary_bus_number ← char
  cardbus_bus_number ← char
  subordinate_bus_number ← char
  cardbus_latency_timer ← char
  memory_base0 ← long
  memory_limit0 ← long
  memory_base1 ← long
  memory_limit1 ← long
  io_base0_lo ← short
  io_base0_hi ← short
  io_limit0_lo ← short
  io_limit0_hi ← short
  io_base1_lo ← short
  io_base1_hi ← short
  io_limit1_lo ← short
  io_limit1_hi ← short
  interrupt_line ← char
  interrupt_pin ← char
  bridge_control ← short
  sub_vendor_id ← short
  sub_system_id ← short
  legacy_base_address ← long
  reserved3 ← array 56 char
  system_control ← long
  multi_media_control ← char
  general_status ← char
  reserved4 ← array 2 char
  gpio0_control ← char
  gpio1_control ← char
  gpio2_control ← char
  gpio3_control ← char
  irq_mux_routing ← long
  retry_status ← char
  card_control ← char
  device_control ← char
  diagnostic ← char
  pure (record {
    base_address = base_address;
    capabilities_ptr = capabilities_ptr;
    reserved2 = reserved2;
    secondary_status = secondary_status;
    primary_bus_number = primary_bus_number;
    cardbus_bus_number = cardbus_bus_number;
    subordinate_bus_number = subordinate_bus_number;
    cardbus_latency_timer = cardbus_latency_timer;
    memory_base0 = memory_base0;
    memory_limit0 = memory_limit0;
    memory_base1 = memory_base1;
    memory_limit1 = memory_limit1;
    io_base0_lo = io_base0_lo;
    io_base0_hi = io_base0_hi;
    io_limit0_lo = io_limit0_lo;
    io_limit0_hi = io_limit0_hi;
    io_base1_lo = io_base1_lo;
    io_base1_hi = io_base1_hi;
    io_limit1_lo = io_limit1_lo;
    io_limit1_hi = io_limit1_hi;
    interrupt_line = interrupt_line;
    interrupt_pin = interrupt_pin;
    bridge_control = bridge_control;
    sub_vendor_id = sub_vendor_id;
    sub_system_id = sub_system_id;
    legacy_base_address = legacy_base_address;
    reserved3 = reserved3;
    system_control = system_control;
    multi_media_control = multi_media_control;
    general_status = general_status;
    reserved4 = reserved4;
    gpio0_control = gpio0_control;
    gpio1_control = gpio1_control;
    gpio2_control = gpio2_control;
    gpio3_control = gpio3_control;
    irq_mux_routing = irq_mux_routing;
    retry_status = retry_status;
    card_control = card_control;
    device_control = device_control;
    diagnostic = diagnostic;
  })

abbrev header_member : Member Header
header_member = do
  vendor_id ← short
  device_id ← short
  command ← short
  status ← short
  revision_id ← char
  prog_if ← char
  sub_class ← char
  base_class ← char
  cache_line_size ← char
  latency_timer ← char
  header_type ← char
  bist ← char
  u ← union type0_member type1_member type2_member
  device_specific ← array 108 char
  pure (record {
    vendor_id = vendor_id;
    device_id = device_id;
    command = command;
    status = status;
    revision_id = revision_id;
    prog_if = prog_if;
    sub_class = sub_class;
    base_class = base_class;
    cache_line_size = cache_line_size;
    latency_timer = latency_timer;
    header_type = header_type;
    bist = bist;
    type0 = u.0;
    type1 = u.1;
    type2 = u.2;
    device_specific = device_specific;
  })

-- The structure whose memory holds the bytes.
unfoldable pub header_of : List ℕ → Header
header_of bytes = (header_member bytes 0).0

-- sizeof(os_pci_dev_header_t).
unfoldable pub header_size : List ℕ → ℕ
header_size bytes = (header_member bytes 0).1
