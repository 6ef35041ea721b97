-- ===== src/Lib.antt =====
-- wibo runs 32-bit Windows programs on Linux and macOS: a loader maps the program's image into a
-- guest address space, and dll/ implements the Windows functions that it imports over a small core in
-- src/.
--
-- This library models parts of that core as functions of explicit states and proves what makes them
-- correct.
--
-- Handles (src/handles.h, src/handles.cpp) is the table between the handle values that a program holds
-- and the kernel objects. Index has the arithmetic of handle values (indexOf, makeHandle, isPseudo);
-- Objects the object headers with their two reference counts (detail::ref, detail::deref); Table the
-- slots, the free lists and the quarantine, with the choice of a slot in alloc and its return in release;
-- Names the namespace of named objects; World the members of Handles over the whole state. A function of
-- World returns an Option whose none is a fault: a use of a deleted object or a slot out of range. Slots,
-- Counts, Lookup, Alloc, Release, Flags, Duplicate, Quarantine, Compat, Naming and Clear prove what one
-- operation does, History and Stale what holds along any history of operations. Each of
-- alloc, release, get, setInformation and getInformation takes the table's lock for its bookkeeping and is
-- one step. clear takes no lock. duplicateTo takes none of its own: its get, its alloc and its
-- release each take the lock anew. duplicate_to is the call with no other thread in between; one with others
-- in between is in a history the sequence of the steps for its get, its alloc or the drop of its pin, and
-- its release. The
-- destructors of the objects and the moment between release's unlocking and the namespace's lock are not
-- modelled. Both tables of duplicateTo are the one of wibo::handles(), as at every call. Handle values
-- are 32-bit patterns; the theorems ask for a table of fewer than 2 ^ 29 - 1 slots, beyond which the code
-- has no handle values left.
--
-- Vm (src/heap.h, src/heap.cpp) is the guest address space: the regions of VirtualAlloc with a protection
-- for each page (g_virtualAllocations) and all that is mapped below 2 GiB (g_mappings), both std::map and
-- here lists in the order of their keys. Align has the arithmetic of addresses (alignUp, alignDown,
-- addOverflows) on 64-bit words, Types and Status the constants and codes, Mapping g_mappings, Gap
-- findFreeMappingLocked, Regions g_virtualAllocations and refreshGuestMappingLocked, Allocate virtualReset
-- and virtualAlloc, Release virtualFree, virtualProtect and the view ranges, Query virtualQuery. The host's
-- mmap, mprotect and madvise are a parameter: a record of functions that say which call fails with which
-- errno. A MAP_FIXED mmap that succeeds returns the address it was given, as its manual says. Pages have
-- 4096 bytes. Every function holds g_mappingsMutex for its bookkeeping, so a call is one step. FreeRange,
-- FreeScan, Tiling, Placement, RoundTrip, Pages, Blocks, Commit, Commitment and Decommit hold the
-- proofs. The runs of pages that a commitment maps
-- are collected with fuel for one step per page, and each step moves on by a page at least. The arenas of
-- mimalloc, the set-up from /proc/self/maps and the guest's stacks are not modelled.
--
-- Time (dll/kernel32/timeutil.h) has in Ticks the conversions between FILETIME and the seconds of Unix with
-- their remainder, the sum on 128 bits as the code has it where the compiler offers that type. Civil has
-- the day number of a date, the lengths of months and the seconds of a SYSTEMTIME, for years from 1 on, and
-- NextDay what the day numbers count. The inverse, civilFromDays, and the conversions to a timespec and from a
-- tm are not modelled.
--
-- Tls (src/tls.h, src/tls.cpp) is thread-local storage: the 64 slots in each thread block and the arrays in
-- guest memory for the 1024 further ones. Memory has the arrays by address and the file's variables, with
-- guestMalloc as a parameter; Capacity the capacities chosen, whose loops double within fuel for eleven
-- steps from 1 to 1024; Grow ensureGlobalExpansionCapacityLocked; Slots reserveSlot, releaseSlot,
-- isSlotAllocated, getValue and setValue; Modules the arrays of the modules and how a thread enters and
-- leaves. Every function holds g_tlsMutex for its work on the arrays, so a call is one step. A function
-- returns none where the code would use an array that is not allocated. Sound, Prepared, Installed, Ensure,
-- Written, Values and Updates hold the proofs. forEachTib, which calls back into its caller, is not modelled.
--
-- Wide (src/strutil.cpp) has the routines on strings of 16-bit characters. A pointer is the list of cells
-- from there to the end of its allocation, and none is a read or a write past that end. Cells has the
-- lengths and the comparison, Search the searches, Copy the copies, Convert the conversions; Text, First and
-- Copied prove what they do on terminated strings. The C library's tests on characters and its strtol are
-- parameters. The debug output of wideStringToString is not modelled.
--
-- Sync (dll/kernel32/synchapi.cpp, dll/kernel32/internal.h) has the locks in the program's memory and the
-- objects that are waited for. Srw are the slim reader and writer locks and Section the critical sections:
-- each is a record of the words that change, and a thread's place says which atomic operation it does next
-- and what it has read, so that proceed and act are one operation of one thread and a history is any
-- interleaving of them. The increments of RecursionCount, which only the owner makes, are one operation.
-- Waiting on an address is a loop that reads again; that a waiter is woken is not modelled, nor is
-- DeleteCriticalSection. Waitables are events, semaphores, mutexes, threads and processes and what a wait or a
-- release does to them under the object's mutex; Blocks the wait blocks, Multiple WaitForMultipleObjects over
-- the objects that the handles name, with the signals that arrive before the time is up as a list. Threads,
-- SrwSafety, SectionSums, SectionSafety, Mutexes, Semaphores, Signals, Collecting, Polling and
-- Taking hold the proofs. The code
-- sets no mutex as abandoned, but its tests of that flag are modelled. Once is one-time initialisation in the same
-- manner, with the states that waiters share by number, without the refusals of flags; OnceSafety and
-- OnceHistory prove it. WaitOnAddress with a time limit is not modelled.
pub mod Base
pub mod Handles
pub mod Sync
pub mod Time
pub mod Tls
pub mod Vm
pub mod Wide
