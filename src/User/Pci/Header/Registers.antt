-- ===== src/User/Pci/Header/Registers.antt =====
-- The registers that include/osal_pci.h names, and where the structure has them.
use osal.Base.{ℕ, zero, suc, ◌+◌, ◌*◌, Option, none, some, List, [], ◌∷◌}
use osal.User.Pci.Header.Structs.{Header}

-- The constants OS_PCI_VENDOR_ID to OS_PCI_INTERRUPT_PIN.
pub data Register : Type 0 where
  vendor_id device_id command status class_revision revision_id class_prog class_device : Register
  cache_line_size latency_timer header_type bist : Register
  base_address_0 base_address_1 base_address_2 base_address_3 base_address_4 base_address_5 :
      Register
  interrupt_line interrupt_pin : Register

-- What the constant is.
abbrev pub offset : Register → ℕ
offset vendor_id = 0
offset device_id = 2
offset command = 4
offset status = 6
offset class_revision = 8
offset revision_id = 8
offset class_prog = 9
offset class_device = 10
offset cache_line_size = 12
offset latency_timer = 13
offset header_type = 14
offset bist = 15
offset base_address_0 = 16
offset base_address_1 = 20
offset base_address_2 = 24
offset base_address_3 = 28
offset base_address_4 = 32
offset base_address_5 = 36
offset interrupt_line = 60
offset interrupt_pin = 61

-- The bytes that its comment gives it; of OS_PCI_REVISION_ID, OS_PCI_CLASS_PROG and
-- OS_PCI_CLASS_DEVICE those up to the next.
abbrev pub width : Register → ℕ
width vendor_id = 2
width device_id = 2
width command = 2
width status = 2
width class_revision = 4
width revision_id = 1
width class_prog = 1
width class_device = 2
width cache_line_size = 1
width latency_timer = 1
width header_type = 1
width bist = 1
width base_address_0 = 4
width base_address_1 = 4
width base_address_2 = 4
width base_address_3 = 4
width base_address_4 = 4
width base_address_5 = 4
width interrupt_line = 1
width interrupt_pin = 1

-- The member of the union that a header's type chooses.
pub data Variant : Type 0 where
  type0 type1 type2 : Variant

-- The first elements of an array, and none behind its end.
abbrev element : ℕ → List ℕ → Option ℕ
element i [] = none
element zero (x ∷ xs) = some x
element (suc i) (x ∷ xs) = element i xs

-- Where a caller finds a register in the structure: none where the variant has no member for it.
unfoldable pub value : Register → Variant → Header → Option ℕ
value vendor_id v h = some h.vendor_id
value device_id v h = some h.device_id
value command v h = some h.command
value status v h = some h.status
value class_revision v h =
    some (h.revision_id + 256 * (h.prog_if + 256 * (h.sub_class + 256 * h.base_class)))
value revision_id v h = some h.revision_id
value class_prog v h = some h.prog_if
value class_device v h = some (h.sub_class + 256 * h.base_class)
value cache_line_size v h = some h.cache_line_size
value latency_timer v h = some h.latency_timer
value header_type v h = some h.header_type
value bist v h = some h.bist
value base_address_0 type0 h = element 0 h.type0.base_addresses
value base_address_0 type1 h = element 0 h.type1.base_addresses
value base_address_0 type2 h = some h.type2.base_address
value base_address_1 type0 h = element 1 h.type0.base_addresses
value base_address_1 type1 h = element 1 h.type1.base_addresses
value base_address_1 type2 h = none
value base_address_2 type0 h = element 2 h.type0.base_addresses
value base_address_2 type1 h = element 2 h.type1.base_addresses
value base_address_2 type2 h = none
value base_address_3 type0 h = element 3 h.type0.base_addresses
value base_address_3 type1 h = element 3 h.type1.base_addresses
value base_address_3 type2 h = none
value base_address_4 type0 h = element 4 h.type0.base_addresses
value base_address_4 type1 h = element 4 h.type1.base_addresses
value base_address_4 type2 h = none
value base_address_5 type0 h = element 5 h.type0.base_addresses
value base_address_5 type1 h = element 5 h.type1.base_addresses
value base_address_5 type2 h = none
value interrupt_line type0 h = some h.type0.interrupt_line
value interrupt_line type1 h = some h.type1.interrupt_line
value interrupt_line type2 h = some h.type2.interrupt_line
value interrupt_pin type0 h = some h.type0.interrupt_pin
value interrupt_pin type1 h = some h.type1.interrupt_pin
value interrupt_pin type2 h = some h.type2.interrupt_pin
