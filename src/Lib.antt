-- ===== src/Lib.antt =====
-- Verification library of BPFabric: a switch whose data plane is an eBPF program that the
-- controller installs at run time.
--
-- The parts. The controller sends an ELF object to the agent (agent/agent.c), which loads it into
-- the virtual machine (ubpf/). The machine checks the program (`validate`) and runs it on each
-- packet; the program and the controller share maps (bpfmap/). What the program returns says on
-- which port the switch sends the packet.
--
-- The files and the code.
--   Ebpf         ubpf/ebpf.h: instructions, the opcode constants (`encode`), their decoding
--   Vm/Outcome   how the interpreter stops: the return values and faults of `ubpf_exec`
--   Vm/Alu       ubpf/ubpf_vm.c: the arithmetic cases of `ubpf_exec`
--   Vm/Memory    ubpf/ubpf_vm.c: `bounds_check`, loads and stores on a memory of bytes
--   Vm/Exec      ubpf/ubpf_vm.c: one iteration of `ubpf_exec` (`step`), its loop (`run`)
--   Vm/Validate  ubpf/ubpf_vm.c: `validate`
--   Vm/Safety    what accepted programs do: no file of the source
--   Vm/Code      ubpf/ubpf_vm.c, ubpf/ubpf_int.h: `struct ubpf_vm`, creation, registration, `ubpf_load`
--   Maps/Attr    bpfmap/bpfmap.h: attributes, flags, `round_up`
--   Maps/ArrayMap  bpfmap/arraymap.c
--   Maps/Ght     the interface of bpfmap/libghthash, a third-party library: a record of its calls
--                and of what its header documents, which the hash map takes as a parameter
--   Maps/HashMap   bpfmap/hashtab.c, over any instance of Maps/Ght
--   Maps/Registry  bpfmap/bpfmap.c: the array of maps and the calls that dispatch on their type
--   Vm/Jit       ubpf/ubpf_jit_x86_64.c: `ubpf_compile`; Jit/State, Jit/Emit: ubpf/ubpf_jit_x86_64.h;
--                Jit/Cases: `muldivmod` and the switch of `translate`; Jit/Translate: `translate`,
--                `resolve_jumps`; Jit/Whole: the two as `ubpf_compile` calls them; Jit/Encoding: how a
--                processor reads the code, which no source models
--   Tables       ubpf/inc/ubpf.h: `struct table_entry`, and the look-up of tables by name that the agent
--                and the loader share
--   Elf          ubpf/ubpf_loader.c: what `ubpf_load_elf` reads of a file; Elf/Sections: the header
--                checks and the array of sections; Elf/MapTables: the tables of map definitions;
--                Elf/Relocate: the relocations; Elf/Load: the whole function (`load_elf`)
--   Programs     examples/learningswitch.c, examples/learningswitch_centralized.c: the programs
--                as functions of a packet and the map, as their source text reads;
--                Programs/Histogram: examples/traffichist.c
--   Switch       softswitch/main.c: rings, `tx_frame`, `transmit`; Switch/Receive: the receive loop of
--                `main` for one port, while the kernel adds no frame; Switch/Sockets: the set-up of
--                the sockets and rings; Switch/Arguments: `parse_opt`
--   Dpdk         dpdkswitch/main.c: the output queues of a core, `pkt_transmit`, and the loop over a
--                received burst, over the calls of DPDK as parameters or records; Dpdk/Clock: the time
--                stamps of the main loop; Dpdk/Arguments, Dpdk/Cores, Dpdk/Setup: the options and the
--                dealing of the ports out to the cores in `main`; Dpdk/Links: the wait for the links
--   Agent        agent/agent.c: the handlers of the table requests; Agent/Dispatch: the table of
--                handlers, `recv_install` and the loop of `agent_task` over one `recv`
--   Prelude      Boolean tests, lists, machine words and byte strings
-- Modules below these state and prove their properties; modules named Tests hold the examples.
--
-- Conventions. Numbers are natural numbers, and the wrap-around of C's unsigned types is written
-- out. A pointer into a map's storage is an offset or the bytes from there on; a pointer of an
-- eBPF program is a 64-bit address. State is passed explicitly; a call that may go through a null
-- pointer, read freed memory or run off an array says so in its result. Allocations take a Boolean
-- that says whether memory suffices. The host is a little-endian machine of 64 bits.
--
-- Fuel. `Vm.Exec.run` takes the number of iterations, as an eBPF program may loop for ever: its
-- theorems hold for every number, and a run that has not stopped is a result of its own.
-- `Vm.Validate.check_from` takes as many rounds as there are instructions, each of which it passes
-- at most once. The walks over maps and the receive loop take fuel, and their theorems say how
-- much is enough; so do those of the loop over the messages, each of which takes at least 10 bytes.
--
-- Files. The layout of an ELF file is that of <elf.h> for 64-bit little-endian files. A string that does
-- not end before the file does counts as a read outside it, and a write outside the copy of the text
-- is a result of its own (`wild`). The loader's and the agent's counters are taken not to overflow an
-- `int`, which needs messages or files of gigabytes.
--
-- Machine code. The translation is modelled down to its bytes. The addresses of functions and strings are
-- parameters. The buffer of 65536 bytes suffices for programs of up to 2111 slots, as an instruction takes
-- at most 31 bytes; a longer program may fail an assertion, which is a result of its own.
--
-- Not modelled: what a processor does with the machine code, libghthash (third-party), the code that protobuf
-- generates (a parameter), the set-up calls of DPDK, statistics, the connection to the
-- controller, packets in and notifications, output of messages, release of maps and machines, the
-- other example programs (trafficcount, interarrival, ewma), and the Python programs.
pub mod Prelude
pub mod Ebpf
pub mod Vm
pub mod Maps
pub mod Tables
pub mod Programs
pub mod Switch
pub mod Dpdk
pub mod Elf
pub mod Agent
pub mod Tests
