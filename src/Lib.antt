-- ===== src/Lib.antt =====
-- Project Ram Crisis finds pages of memory with the same content and lets them share one copy. It
-- has two halves. The user-space engine (user/dedupe_engine.h, user/dedupe_engine.cpp) scans a
-- region of pages, and clones a shared page before a write; a scheduler (user/scan_scheduler.cpp)
-- chooses the region by the scores of a predictor (user/ml_predictor.cpp). The kernel-mode driver
-- (driver/deduper.h, driver/deduper.cpp) keeps the processes that opted in, a table of page
-- signatures, groups of shared page frames and a registry of frames that are protected for
-- copy-on-write; control requests and write faults arrive at it, and its thread scans the pages of
-- the processes that opted in. The controller (user/controller.cpp) is the command that sends the
-- control requests.
--
-- The files, and the code that each is about:
--   Prelude, Prelude/...    lists, words of 32 and 64 bits, Boolean tests, integers.
--   Engine/Data             the records of user/dedupe_engine.h; Page, MemoryRegion, Stats.
--   Engine/Signature        fastHash64, computeFingerprint, makeSignature.
--   Engine/SignatureMap     the unordered_map of scanRegion.
--   Engine/Scan             pagesAreEqual, mergePage, scanRegion.
--   Engine/Write            clonePageForWrite, writeToPage.
--   Engine/Reference        the abstract view of a scan: content alone, no hash table.
--   Engine/Session          sequences of scans and writes against a plain memory.
--   Driver/Kernel           interfaces for what the driver takes from the Windows kernel.
--   Driver/Data, /State     the records of driver/deduper.h, and the driver's global state.
--   Driver/Compare, /Policy the comparison routines, and IsProcessPolicyAllowed.
--   Driver/Registry         RegisterOptInProcess, UnregisterOptInProcess, IsProcessOptedIn,
--                           ListOptedInProcesses, and sequences of opting in and out.
--   Driver/CowRegistry      RegisterCowProtectedPage and its companions.
--   Driver/Groups           Promote-, DemoteSharedPageGroup, MarkPageShared, UnmarkPageShared.
--   Driver/Pages            AddPageEntry.
--   Driver/Drain, /Query    DrainDedupeState, QueryDedupeStats, QueryDedupeHealth.
--   Driver/CowFault         CowFaultCallback.
--   Driver/Dispatch         DriverDeviceControl.
--   Driver/Scanner          MakePageSignatureFromUserPage, ScanProcessPages, ScanOptedInProcesses,
--                           PageScanThread.
--   Driver/Interception     Initialize-, ShutdownCowInterception, and the callback's registration.
--   Driver/Shutdown         InitializeDedupeDriver, ShutdownDedupeDriver.
--   Driver/Lifecycle        DriverEntry, DriverUnload, the control device and the scanner's thread.
--   Driver/Copies           lists of copies of one number.
--   User/Doubles            an interface for the type double.
--   User/Predictor          MLPredictor of user/ml_predictor.cpp.
--   User/Process            ProcessState of user/process_state.h.
--   User/Scheduler          ScanScheduler of user/scan_scheduler.cpp.
--   User/Controller         wmain of user/controller.cpp.
--   User/Simulator          user/dedupe_simulator.cpp.
--   User/Benchmark          user/benchmark.cpp.
--   User/DriverBenchmark    wmain of user/driver_benchmark.cpp.
--   Tests/...               a kernel that computes, and the theorems at concrete inputs.
--
-- The state of the engine is its Stats record and the region that a call is given. A function of
-- the engine returns an Option: none is undefined behaviour of the source, a read outside a vector.
-- The hash functions are written out, but nothing rests on what they return: a scan compares bytes.
-- A page is hashed only if computeFingerprint reads inside it, which the theorems ask for and which
-- holds for pages of PageSize bytes. Numbers are natural numbers with the wrap-around of size_t and
-- uint32_t written out.
--
-- The state of the driver is a record of its five tables, the mutex and the COW flags. An action on
-- it is a function to an Option: none means that the call never returns, because its thread waits
-- for a mutex that it owns. The tables (RTL_GENERIC_TABLE), FAST_MUTEX, the memory manager and the
-- process lookup are interfaces with the documented laws. A fast mutex is not recursive. A table
-- asks the comparison routine, whose answers are those of RTL_GENERIC_COMPARE_RESULTS: 0 is
-- GenericLessThan, 1 GenericGreaterThan, 2 GenericEqual. The laws speak of a key for which every
-- answer about an entry is one of the first two, whichever of the two the routine is given first:
-- the key is not found, it is inserted as a new entry, and a deletion by it deletes nothing. The
-- driver's routines answer -1, 0 and 1, so 0, which they answer for equal keys, is GenericLessThan,
-- and -1 is not documented. The theorems about the tables are therefore about tables in which all
-- entries have the key that is asked for; about an answer of -1 nothing is assumed. What the kernel
-- says of processes and of memory is that of the time of the call, and is the same in all calls of
-- one theorem. Whether the pool has memory for a new entry is an argument of each insertion.
-- AllocatePrivateCopyForCowFault is declared in driver/deduper.cpp and defined nowhere, so it is an
-- argument of the fault handler. Debug prints are left out. The driver's actions are modelled one
-- thread at a time, but for ListOptedInProcesses, whose first line is apart from the rest. A group
-- of page frames has the numbers that its array counts, and what the first place of the array holds
-- where the count is 0. The drain's loop condition, a 32-bit count above 0, is read as "an entry is
-- left".
--
-- Loops run over lists, by structural recursion. The drain of the page table and the loops of the
-- shutdown run on fuel, the number of entries at their start, and running out with entries left
-- counts as not returning. A round deletes the entry it looks at, or finds none and leaves the
-- table as it was, and then so does every later round: what ends at all ends with that fuel. The
-- theorems on loops that do not end are for every fuel. The scanner's thread runs on fuel for its
-- rounds, and what the event tells in each round is an argument; it has returned only where the
-- event was set. The walk over an address space runs on the highest user address as fuel: each
-- round goes on to a greater address. The controller's listing runs on fuel that its theorem
-- bounds.
--
-- A load and an unload are actions on the driver's image: its state, whether it has a device and a
-- thread, and which of the device, the link and the thread the kernel has, whether the driver knows
-- of them or not. What the kernel answers to each call is an argument, and so is whether the scan
-- that the thread is in returns when the thread is to stop. Apart from that the thread does not run
-- within the load or the unload. CompareCowPrivatePages is declared and defined nowhere, so it is
-- an argument of the shutdown. The page scanner takes the answers of ZwQueryVirtualMemory, the
-- words of a page and the physical addresses as an argument; a page that faults is none, as the
-- source ignores it.
--
-- The scheduler's record has its mutex, processes and flags, and the statistics of the engine that
-- it refers to. A round of its worker is a function of what the other threads do while it waits. A
-- double is an element of an interface with three laws on the comparison, which hold of NaN too.
-- The controller's record is the list of what it did with the device, the newest first; what
-- Windows answers is an argument.
--
-- The simulator's report and that of the engine's benchmark are records of what they print. The
-- generator std::mt19937_64 is an argument of the pages that both make. Of the simulator's main the
-- part up to the first request and the report are modelled; what its worker does in between is in
-- User/Scheduler, where its first round with a process does not return. The path that a compiler
-- makes of the literal in user/driver_benchmark.cpp is an argument, since its escape is not one of
-- C++.
--
-- Not modelled: the simulator's main between its first request and its report; DriverCreateClose,
-- which completes a request and has no state; the destruction of the scheduler's thread;
-- PageSignatureHash, since the order of the buckets is not observable; what the controller and the
-- driver's benchmark print, clocks and sleeps; the percentage in doubles that the engine's
-- benchmark prints last; the test programs of user/; and the scripts and build files.
pub mod Prelude
pub mod Engine
pub mod Driver
pub mod User
pub mod Tests
