-- ===== src/Vm/Status.antt =====
-- Protections and status codes of src/heap.cpp, and the host calls it makes.
use wibo.Base.{ℕ, ◌%◌, Bool, true, false, Option, ◌==◌, ◌||◌, if◌then◌else◌}
use wibo.Vm.Types.{
  Prot, VmStatus, success, invalid_parameter, invalid_address, no_access, not_supported, no_memory,
  rejected, unknown_error, page_noaccess, page_readonly, page_readwrite, page_writecopy,
  page_execute, page_execute_read, page_execute_readwrite, page_execute_writecopy,
}

-- The host: what a call answers, none for success or the `errno` of a failure. A `mmap` with MAP_FIXED
-- that succeeds returns the address it was given.
pub record Host : Type 0 where
  pub mmap : ℕ → ℕ → Prot → Option ℕ
  pub mprotect : ℕ → ℕ → Prot → Option ℕ
  pub madvise : ℕ → ℕ → Option ℕ

abbrev prot : Bool → Bool → Bool → Prot
prot r w x = record { read = r; write = w; exec = x }

abbrev pub prot_none : Prot
prot_none = prot false false false

-- `posixProtectFromWin32`
unfoldable pub posix_protect : ℕ → Prot
posix_protect fl_protect =
    let p = fl_protect % 256 in
    if p == page_noaccess
    then prot false false false
    else if p == page_readonly
    then prot true false false
    else if (p == page_readwrite) || (p == page_writecopy)
    then prot true true false
    else if p == page_execute
    then prot false false true
    else if p == page_execute_read
    then prot true false true
    else if (p == page_execute_readwrite) || (p == page_execute_writecopy)
    then prot true true true
    else prot true true false

abbrev pub enomem : ℕ
enomem = 12

-- `vmStatusFromErrno`, with the numbers that Linux gives ENOMEM, EACCES, EPERM, EINVAL and EBUSY.
unfoldable pub vm_status_from_errno : ℕ → VmStatus
vm_status_from_errno err =
    if err == enomem
    then no_memory
    else if (err == 13) || (err == 1)
    then no_access
    else if err == 22
    then invalid_parameter
    else if err == 16
    then rejected
    else unknown_error

-- `win32ErrorFromVmStatus`, with the error codes of src/errors.h.
unfoldable pub win32_error_from_vm_status : VmStatus → ℕ
win32_error_from_vm_status success = 0
win32_error_from_vm_status invalid_parameter = 87
win32_error_from_vm_status invalid_address = 487
win32_error_from_vm_status rejected = 487
win32_error_from_vm_status no_access = 998
win32_error_from_vm_status not_supported = 50
win32_error_from_vm_status no_memory = 8
win32_error_from_vm_status unknown_error = 87
