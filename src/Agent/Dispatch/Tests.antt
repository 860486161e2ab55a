-- ===== src/Agent/Dispatch/Tests.antt =====
-- The agent's loop and its installation of programs at concrete messages.
use bpfabric.Prelude.{
  ℕ, suc, ◌+◌, ◌*◌, ◌≡◌, refl, arith, true, Option, none, some, List, [], ◌∷◌, ◌++◌,
}
use bpfabric.Prelude.{length}
use bpfabric.Prelude.Bytes.{bytes_eq}
use bpfabric.Ebpf.{Inst}
use bpfabric.Maps.Registry.{Call, done, no_maps}
use bpfabric.Maps.Tests.ListTable.{list_table}
use bpfabric.Vm.Validate.{validate}
use bpfabric.Elf.Sample.{
  object_file, all_room, new_vm, file_vm, object_file-loads, object_file-AreBytes,
}
use bpfabric.Agent.Dispatch.{
  Kind, hello, packet_out, Message, hello_of, packet_out_of, Header, Protobuf, Agent, Around,
  recv_install, receive, handler_at,
}
use bpfabric.Agent.Dispatch.Install.{Installs, recv_install-Runs, recv_install-IsCompiled}
use bpfabric.Vm.Jit.Translate.{Addresses}
use bpfabric.Agent.Dispatch.Frames.{Frame, AreFrames, wire}
use bpfabric.Agent.Dispatch.Framing.{handle_all, receive-Returns, receive-handle_all}

-- A stand-in for the translation: the function is the number of its instructions.
abbrev count : List Inst → Call (Option ℕ)
count insts = done (some (length insts))

-- An encoding of headers and of two kinds of message: a header is its type, its length and eight more
-- bytes; a packet is preceded by its port.
abbrev header_of : List ℕ → Option Header
header_of (t ∷ l ∷ rest) = some (record { type = t; length = l })
header_of _ = none

abbrev packet_of : List ℕ → Option (Message packet_out)
packet_of (port ∷ frame) = some (packet_out_of frame port)
packet_of [] = none

abbrev message_of : (k : Kind) → ℕ → List ℕ → Option (Message k)
message_of hello size bytes = some hello_of
message_of packet_out size bytes = packet_of bytes
message_of _ size bytes = none

abbrev size_of : (k : Kind) → Message k → ℕ
size_of packet_out (packet_out_of frame port) = 1 + length frame
size_of _ m = 4

abbrev plain : Protobuf
plain = record { header__unpack = header_of; unpack = message_of; get_packed_size = size_of }

abbrev around : ℕ → Around list_table
around offset = record { elf_at = 0x1_0000_1000; elf_rooms = all_room; new_entry = true }

abbrev new_agent : Agent list_table ℕ
new_agent = record {
  vm = new_vm;
  jitted = none;
  maps = no_maps list_table;
  ubpf_fn = none;
  sent = [];
  transmitted = [];
}

abbrev greeting : Frame
greeting = record {
  kind = hello;
  message = hello_of;
  head = 0 ∷ 4 ∷ 0 ∷ 0 ∷ 0 ∷ 0 ∷ 0 ∷ 0 ∷ 0 ∷ 0 ∷ [];
  body = 8 ∷ 1 ∷ 16 ∷ 1 ∷ [];
}

abbrev packet : Frame
packet = record {
  kind = packet_out;
  message = packet_out_of (7 ∷ 8 ∷ []) 2;
  head = 14 ∷ 3 ∷ 0 ∷ 0 ∷ 0 ∷ 0 ∷ 0 ∷ 0 ∷ 0 ∷ 0 ∷ [];
  body = 2 ∷ 7 ∷ 8 ∷ [];
}

abbrev frames : List Frame
frames = greeting ∷ packet ∷ []

frames-AreFrames : AreFrames plain frames
unfolding handler_at
frames-AreFrames = (
  record {
    header = record { type = 0; length = 4 };
    head_size = refl;
    head_unpacked = refl;
    handled = refl;
    body_size = refl;
    body_unpacked = refl;
    packed_size = refl;
  },
  (
    record {
      header = record { type = 14; length = 3 };
      head_size = refl;
      head_unpacked = refl;
      handled = refl;
      body_size = refl;
      body_unpacked = refl;
      packed_size = refl;
    },
    tt,
  ),
)

-- The bytes of both messages, and three more.
abbrev buffer : List ℕ
buffer = wire frames ++ (14 ∷ 3 ∷ 0 ∷ [])

receive-handle_all_example :
    receive list_table count plain around 3 buffer (0 + 27 + 3) 0 new_agent
    ≡ some (handle_all list_table count plain around 0 frames (done new_agent))
receive-handle_all_example =
    receive-handle_all list_table count plain around frames 2 buffer (14 ∷ 3 ∷ 0 ∷ []) 0 3 new_agent
      frames-AreFrames refl (omega arith) (omega arith)

receive-Returns_example :
    (r : Call (Agent list_table ℕ)) × (receive list_table count plain around
        (suc 3)
        buffer
        30
        0
        new_agent
      ≡ some r)
receive-Returns_example =
    receive-Returns list_table count plain around 3 buffer 30 0 new_agent (omega arith)

-- An agent whose functions are machine code, and the addresses that the translation uses.
abbrev compiling_agent : Agent list_table (List ℕ)
compiling_agent = record {
  vm = new_vm;
  jitted = none;
  maps = no_maps list_table;
  ubpf_fn = none;
  sent = [];
  transmitted = [];
}

abbrev addresses : Addresses
addresses = record {
  ext_funcs = λ i. 0x40_0000 + 16 * i;
  stderr = 0x7fff_f7fa_56a0;
  div_by_zero_fmt = 0x40_2010;
  fprintf = 0x7fff_f7e4_0000;
}

recv_install-IsCompiled_example :
    Installs list_table addresses true
      (around 0)
      object_file
      compiling_agent
      file_vm
      (no_maps list_table)
recv_install-IsCompiled_example =
    recv_install-IsCompiled list_table addresses true (around 0) object_file compiling_agent file_vm
      (no_maps list_table) object_file-AreBytes (omega arith) refl object_file-loads

-- An agent that runs a function already, and what it is after another program has been installed.
abbrev running : Agent list_table ℕ
running = record new_agent { jitted = some 7; ubpf_fn = some 7 }

abbrev reinstalled : Agent list_table ℕ
reinstalled = record running { vm = file_vm }

running-recv_install :
    recv_install list_table count (around 0) object_file running ≡ done reinstalled
unfolding recv_install bytes_eq validate
running-recv_install = refl

recv_install-Runs_example : (reinstalled.jitted ≡ some 7) × (reinstalled.ubpf_fn ≡ some 7)
recv_install-Runs_example =
    recv_install-Runs list_table count (around 0) object_file running reinstalled 7 refl
      running-recv_install
