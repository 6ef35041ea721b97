-- ===== src/Vm/Types.antt =====
-- The data of the guest address space: protection and state constants (src/types.h), the status codes
-- of src/heap.h, MEMORY_BASIC_INFORMATION and `VirtualAllocation` of src/heap.cpp.
use Prim.Native.Nat.{bit_and, bit_or}
use wibo.Base.{ℕ, List, Bool, not, ◌==◌}

abbrev pub page_noaccess : ℕ
page_noaccess = 0x01

abbrev pub page_readonly : ℕ
page_readonly = 0x02

abbrev pub page_readwrite : ℕ
page_readwrite = 0x04

abbrev pub page_writecopy : ℕ
page_writecopy = 0x08

abbrev pub page_execute : ℕ
page_execute = 0x10

abbrev pub page_execute_read : ℕ
page_execute_read = 0x20

abbrev pub page_execute_readwrite : ℕ
page_execute_readwrite = 0x40

abbrev pub page_execute_writecopy : ℕ
page_execute_writecopy = 0x80

abbrev pub mem_commit : ℕ
mem_commit = 0x00001000

abbrev pub mem_reserve : ℕ
mem_reserve = 0x00002000

abbrev pub mem_decommit : ℕ
mem_decommit = 0x00004000

abbrev pub mem_release : ℕ
mem_release = 0x00008000

abbrev pub mem_free : ℕ
mem_free = 0x00010000

abbrev pub mem_mapped : ℕ
mem_mapped = 0x00040000

abbrev pub mem_reset : ℕ
mem_reset = 0x00080000

abbrev pub mem_top_down : ℕ
mem_top_down = 0x00100000

-- MEM_WRITE_WATCH | MEM_PHYSICAL | MEM_LARGE_PAGES | MEM_RESET_UNDO
abbrev pub mem_unsupported : ℕ
mem_unsupported = bit_or (bit_or (bit_or 0x00200000 0x00400000) 0x20000000) 0x01000000

-- MEM_COALESCE_PLACEHOLDERS | MEM_PRESERVE_PLACEHOLDER
abbrev pub mem_placeholders : ℕ
mem_placeholders = bit_or 0x00000001 0x00000002

-- `x & flag` as a condition
abbrev pub has_flag : ℕ → ℕ → Bool
has_flag x flag = not (bit_and x flag == 0)

-- `VmStatus`
pub data VmStatus : Type 0 where
  success invalid_parameter invalid_address no_access not_supported no_memory : VmStatus
  rejected unknown_error : VmStatus

-- MEMORY_BASIC_INFORMATION
pub record Info : Type 0 where
  pub base_address : ℕ
  pub allocation_base : ℕ
  pub allocation_protect : ℕ
  pub region_size : ℕ
  pub state : ℕ
  pub protect : ℕ
  pub type : ℕ

-- `VirtualAllocation`: a protection of 0 marks a page that is not committed.
pub record Region : Type 0 where
  pub base : ℕ
  pub size : ℕ
  pub allocation_protect : ℕ
  pub type : ℕ
  pub page_protect : List ℕ

-- Protections of the host.
pub record Prot : Type 0 where
  pub read : Bool
  pub write : Bool
  pub exec : Bool
