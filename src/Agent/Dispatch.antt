-- ===== src/Agent/Dispatch.antt =====
-- agent/agent.c: the handlers' table, the installation of a program, and the loop of `agent_task` over
-- the messages that one `recv` has returned.
pub mod Install
pub mod Frames
pub mod Framing
mod Tests
use bpfabric.Prelude.{
  ℕ, zero, suc, ◌+◌, ◌*◌, Bool, true, false, Option, none, some, List, [], ◌∷◌, ◌++◌,
}
use bpfabric.Prelude.{leb, if◌then◌else◌, length, get_elem?, flat}
use bpfabric.Prelude.Bytes.{read_at}
use bpfabric.Ebpf.{Inst}
use bpfabric.Maps.Ght.{Ght}
use bpfabric.Maps.Registry.{Call, done, crash, Maps}
use bpfabric.Vm.Code.{Vm, LoadResult, loaded, failed, double_free}
use bpfabric.Vm.Jit.{compile}
use bpfabric.Elf.Load.{ElfRooms, ElfResult, loads, refuses, astray, load_elf}
use bpfabric.Agent.{
  Reply, Release, frees_null, frees_map_element, recv_table_entry_get_request,
  recv_table_entry_insert_request, recv_table_entry_delete_request, recv_tables_list_request,
  recv_table_list_request,
}

-- HEADER__TYPE__* of the messages that have a handler.
pub data Kind : Type 0 where
  hello install_request tables_list_request table_list_request table_entry_get_request : Kind
  table_entry_insert_request table_entry_delete_request packet_out : Kind

-- `handlers`: 15 entries, null for the types that are not listed.
abbrev handlers : List (Option Kind)
handlers =
    some hello
    ∷ some install_request
    ∷ none
    ∷ some tables_list_request
    ∷ none
    ∷ some table_list_request
    ∷ none
    ∷ some table_entry_get_request
    ∷ none
    ∷ some table_entry_insert_request
    ∷ none
    ∷ some table_entry_delete_request
    ∷ none
    ∷ none
    ∷ some packet_out
    ∷ []

-- `handlers[header->type]`: no handler past the end of the array either.
unfoldable pub handler_at : ℕ → Option Kind
handler_at type = flat (get_elem? handlers type)

-- The messages with the fields that are read.
pub data Message : Kind → Type 0 where
  hello_of : Message hello
  install_of : List ℕ → Message install_request
  tables_list_of : Message tables_list_request
  table_list_of : List ℕ → Message table_list_request
  get_of : List ℕ → List ℕ → Message table_entry_get_request
  insert_of : List ℕ → List ℕ → List ℕ → Message table_entry_insert_request
  delete_of : List ℕ → List ℕ → Message table_entry_delete_request
  packet_out_of : List ℕ → ℕ → Message packet_out

-- `Header`
pub record Header : Type 0 where
  pub type : ℕ
  pub length : ℕ

-- The functions that protoc generates: `header__unpack` on 10 bytes, and for each type of message
-- `*__unpack`, which gets the length and the bytes and returns null for `none`, and
-- `*__get_packed_size`.
pub record Protobuf : Type 0 where
  pub header__unpack : List ℕ → Option Header
  pub unpack : (k : Kind) → ℕ → List ℕ → Option (Message k)
  pub get_packed_size : (k : Kind) → Message k → ℕ

-- What the handlers work on: the machine with `vm->jitted`, the maps, `*(agent.ubpf_fn)`, and what has
-- been sent to the controller and handed to `agent.transmit`.
pub record Agent (g : Ght) (Fn : Type 0) : Type 0 where
  pub vm : Vm
  pub jitted : Option Fn
  pub maps : Maps g
  pub ubpf_fn : Option Fn
  pub sent : List Reply
  pub transmitted : List (List ℕ × ℕ)

-- What a handler finds around it: where its message's program stands in memory, and which allocations
-- succeed.
pub record Around (g : Ght) : Type 0 where
  pub elf_at : ℕ
  pub elf_rooms : ElfRooms g
  pub new_entry : Bool

module _ (g : Ght) {Fn : Type 0} (translate : List Inst → Call (Option Fn)) where
  -- `*(agent.ubpf_fn) = ubpf_compile(vm, &errmsg);`
  unfoldable pub set_program : Agent g Fn → Call (Option Fn) → Call (Agent g Fn)
  set_program a crash = crash
  set_program a (done f) = done (record a { jitted = f; ubpf_fn = f })

  unfoldable pub compile_for : Agent g Fn → Call (Agent g Fn)
  unfolding set_program compile
  compile_for a = set_program a (compile translate a.vm.code a.jitted)

  -- `recv_install` from the result of `ubpf_load_elf` on: the program is compiled whether it has been
  -- loaded or not.
  unfoldable pub compile_after : Agent g Fn → ElfResult g → Call (Agent g Fn)
  unfolding compile_for
  compile_after a astray = crash
  compile_after a (refuses e maps) = compile_for (record a { maps = maps })
  compile_after a (loads double_free maps) = crash
  compile_after a (loads (failed e vm) maps) = compile_for (record a { vm = vm; maps = maps })
  compile_after a (loads (loaded vm) maps) = compile_for (record a { vm = vm; maps = maps })

  unfoldable pub recv_install : Around g → List ℕ → Agent g Fn → Call (Agent g Fn)
  unfolding compile_after load_elf
  recv_install w elf a = compile_after a (load_elf g w.elf_rooms w.elf_at elf a.vm a.maps)

  -- `send` of a reply, with the maps as the handler leaves them.
  unfoldable pub send_reply : Agent g Fn → Call (Reply × Maps g) → Call (Agent g Fn)
  send_reply a crash = crash
  send_reply a (done (r, maps)) = done (record a { maps = maps; sent = a.sent ++ (r ∷ []) })

  -- After its reply the handler of a get request frees a null pointer, or a pointer into a map, which is
  -- undefined.
  unfoldable pub send_then_free : Agent g Fn → Call (Reply × Release) → Call (Agent g Fn)
  send_then_free a crash = crash
  send_then_free a (done (r, frees_map_element)) = crash
  send_then_free a (done (r, frees_null)) = done (record a { sent = a.sent ++ (r ∷ []) })

  -- `h(buf+offset, header)`, from the unpacked message on.
  unfoldable pub handle : {k : Kind} → Around g → Message k → Agent g Fn → Call (Agent g Fn)
  unfolding recv_install send_reply send_then_free recv_table_entry_get_request
      recv_table_entry_insert_request recv_table_entry_delete_request recv_tables_list_request
      recv_table_list_request
  handle w hello_of a = done a
  handle w (install_of elf) a = recv_install w elf a
  handle w tables_list_of a = send_reply a (recv_tables_list_request g a.maps a.vm.tables)
  handle w (table_list_of name) a = send_reply a (recv_table_list_request g a.maps a.vm.tables name)
  handle w (get_of name key) a =
      send_then_free a (recv_table_entry_get_request g a.maps a.vm.tables name key)
  handle w (insert_of name key value) a =
      send_reply a (recv_table_entry_insert_request g w.new_entry a.maps a.vm.tables name key value)
  handle w (delete_of name key) a =
      send_reply a (recv_table_entry_delete_request g a.maps a.vm.tables name key)
  handle w (packet_out_of frame out_port) a =
      done (record a { transmitted = a.transmitted ++ ((frame, out_port) ∷ []) })

  module _ (pb : Protobuf) (around : ℕ → Around g) where
    unfoldable pub with_size : ℕ → Call (Agent g Fn) → Call (ℕ × Agent g Fn)
    with_size size crash = crash
    with_size size (done a) = done (size, a)

    -- A handler: it unpacks its message, acts, and returns the packed size of the message. A null
    -- pointer for the message is followed.
    unfoldable pub handle_unpacked :
        (k : Kind) → ℕ → Option (Message k) → Agent g Fn → Call (ℕ × Agent g Fn)
    unfolding handle with_size
    handle_unpacked k offset none a = crash
    handle_unpacked k offset (some m) a =
        with_size (pb.get_packed_size k m) (handle (around offset) m a)

    -- The call of `handlers[header->type]`; `unpack` reads as many bytes as the header says, past the
    -- end of the buffer too.
    unfoldable pub call_handler : List ℕ → ℕ → ℕ → Option Kind → Agent g Fn → Call (ℕ × Agent g Fn)
    unfolding handle_unpacked read_at
    call_handler buf offset size none a = crash
    call_handler buf offset size (some k) a =
        if leb (offset + size) (length buf)
        then handle_unpacked k offset (pb.unpack k size (read_at offset size buf)) a
        else crash

    -- `offset += h(buf+offset, header)`
    unfoldable pub advance : ℕ → Call (ℕ × Agent g Fn) → Call (Option ℕ × Agent g Fn)
    advance offset crash = crash
    advance offset (done (size, a)) = done (some (offset + size), a)

    -- One round of the loop; `none` for the `break`.
    unfoldable pub receive_one :
        List ℕ → ℕ → Option Header → Agent g Fn → Call (Option ℕ × Agent g Fn)
    unfolding call_handler handler_at advance
    receive_one buf offset none a = done (none, a)
    receive_one buf offset (some h) a =
        advance (offset + 10) (call_handler buf (offset + 10) h.length (handler_at h.type) a)

    -- `while (len - offset >= 10)`, for at most `fuel` rounds: `none` where these do not suffice.
    unfoldable pub receive : ℕ → List ℕ → ℕ → ℕ → Agent g Fn → Option (Call (Agent g Fn))
    unfolding receive_one read_at
    receive zero buf len offset a = none
    receive (suc fuel) buf len offset a =
        if leb (offset + 10) len
        then elim (receive_one buf offset (pb.header__unpack (read_at offset 10 buf)) a) [
          | crash ↦ some crash
          | done (none, a') ↦ some (done a')
          | done (some next, a') ↦ receive fuel buf len next a'
        ]
        else some (done a)
