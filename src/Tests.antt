-- ===== src/Tests.antt =====
-- The properties of the programs, the switch and the agent at concrete packets and tables.
use bpfabric.Prelude.{ℕ, ◌≡◌, ◌⊎◌, refl, arith, ◌++◌}
use bpfabric.Prelude.{
  true, false, Option, none, some, List, [], ◌∷◌, take, replicate, if◌then◌else◌,
}
use bpfabric.Prelude.Bytes.{bytes_eq}
use bpfabric.Maps.Attr.{round_up}
use bpfabric.Maps.Attr.Rounding.{round_up_lem}
use bpfabric.Maps.HashMap
use bpfabric.Maps.HashMap.{HashMap, idle}
use bpfabric.Maps.HashMap.Values.{IsValid, view, same_key}
use bpfabric.Maps.Registry.{Maps, hash, done, map_at, lookup_elem, lookup_map}
use bpfabric.Maps.Tests.ListTable.{list_table}
use bpfabric.Programs.{Packet, flood, switch_all}
use bpfabric.Programs.Learning.{IsPacket, IsInports, Holds, decide_all, switch_all-decide_all}
use bpfabric.Prelude.{length-replicate}
use bpfabric.Maps.ArrayMap.{ArrayMap}
use bpfabric.Maps.ArrayMap.Values as ArrayValues
use bpfabric.Programs.Histogram.{Counts, traffichist_lem}
use bpfabric.Switch.{Frame, Port, Buffer, Dataplane, tx_frame, transmit, status_kernel}
use bpfabric.Prelude.{get_elem?, length, ◌+◌, ◌≤◌, inl}
use bpfabric.Switch.{rx_ready}
use bpfabric.Switch.Receive.{receive_from, next_received}
use bpfabric.Switch.Receive.Ends.{ready_count, receive_from_ends}
use bpfabric.Switch.Transmit.{Queues, KeepsRing, tx_frame-Queues}
use bpfabric.Switch.Delivery.{IsMissing, Delivers, transmit-Delivers}
use bpfabric.Tables.{TableEntry, find_table}
use bpfabric.Agent.{
  table_entry_insert, success, recv_table_entry_get_request, recv_table_entry_insert_request,
}
use bpfabric.Agent.Requests.{get_request-answer, IsTable, answer, insert_request-get_request}

-- An empty map from addresses to ports.
abbrev inports : HashMap list_table
inports = record {
  key_size = 6;
  value_size = 4;
  max_entries = 256;
  map_flags = 0;
  elem_size = 16;
  htab = ([], tt);
  cursor = idle;
}

inports-IsValid : IsValid list_table inports
inports-IsValid = record { elem_room = omega (arith, round_up_lem 6) }

inports-IsInports : IsInports list_table inports
inports-IsInports = record { valid = inports-IsValid; keys = refl; values = refl }

abbrev no_ports : List ℕ → Option ℕ
no_ports mac = none

inports-Holds : Holds list_table inports no_ports
inports-Holds mac whole = refl

abbrev request : Packet
request = record {
  in_port = 1;
  sec = 0;
  nsec = 0;
  length = 60;
  h_dest = replicate 6 0xff;
  h_source = 2 ∷ 0 ∷ 0 ∷ 0 ∷ 0 ∷ 1 ∷ [];
}

abbrev reply : Packet
reply = record {
  in_port = 3;
  sec = 0;
  nsec = 9;
  length = 60;
  h_dest = 2 ∷ 0 ∷ 0 ∷ 0 ∷ 0 ∷ 1 ∷ [];
  h_source = 2 ∷ 0 ∷ 0 ∷ 0 ∷ 0 ∷ 2 ∷ [];
}

request-IsPacket : IsPacket request
request-IsPacket = record { dest_size = refl; source_size = refl; port_fits = omega arith }

reply-IsPacket : IsPacket reply
reply-IsPacket = record { dest_size = refl; source_size = refl; port_fits = omega arith }

switch_all-decide_all_example :
    switch_all list_table inports (request ∷ reply ∷ [])
    ≡ decide_all no_ports (request ∷ reply ∷ [])
switch_all-decide_all_example =
    switch_all-decide_all list_table (request ∷ reply ∷ []) inports no_ports inports-IsInports
      inports-Holds (request-IsPacket, (reply-IsPacket, tt))

-- The counters of 24 length classes.
abbrev counters : ArrayMap
counters = record {
  key_size = 4;
  value_size = 8;
  max_entries = 24;
  elem_size = 8;
  value = replicate 7640 0;
}

counters-IsValid : ArrayValues.IsValid counters
counters-IsValid = record {
  has_entries = omega arith;
  elem_fits = omega arith;
  small = omega arith;
  room = omega (arith, length-replicate {A = ℕ} 7640 0);
}

traffichist_lem_example : Counts list_table true counters inports request 0
traffichist_lem_example =
    traffichist_lem list_table true counters inports request counters-IsValid refl (omega arith)

abbrev free_frame : Frame
free_frame = record { tp_status = status_kernel; tp_sec = 0; tp_nsec = 0; bytes = [] }

abbrev port : Port
port = record {
  rx_ring = record { frames = free_frame ∷ free_frame ∷ []; frame_num = 0 };
  tx_ring = record { frames = free_frame ∷ free_frame ∷ []; frame_num = 1 };
  overrun = false;
}

tx_frame-Queues_example :
    Queues port (1 ∷ 2 ∷ 3 ∷ []) (tx_frame port (1 ∷ 2 ∷ 3 ∷ []))
    × KeepsRing port (tx_frame port (1 ∷ 2 ∷ 3 ∷ [])).1
tx_frame-Queues_example = tx_frame-Queues port (1 ∷ 2 ∷ 3 ∷ []) (omega arith) (omega arith)

abbrev dataplane : Dataplane
dataplane = record { ports = port ∷ port ∷ port ∷ []; packet_ins = []; kicked = [] }

abbrev buffer : Buffer
buffer = record { in_port = 1; sec = 0; nsec = 0; length = 3; frame = 1 ∷ 2 ∷ 3 ∷ [] }

transmit-Delivers_example :
    ((transmit dataplane buffer flood false ≡ none) × IsMissing dataplane flood)
    ⊎ ((d' : Dataplane) × (transmit dataplane buffer flood false ≡ some d')
        × Delivers dataplane buffer flood d')
transmit-Delivers_example = transmit-Delivers dataplane buffer flood false

-- A port with a packet that has been received.
abbrev busy_port : Port
busy_port = record port {
  rx_ring = record {
    frames = record free_frame { tp_status = 1; bytes = 5 ∷ [] } ∷ free_frame ∷ [];
    frame_num = 0;
  };
}

abbrev busy : Dataplane
busy = record { ports = port ∷ busy_port ∷ []; packet_ins = []; kicked = [] }

-- A program that counts packets and floods them.
abbrev count_and_flood : ℕ → Buffer → ℕ × Buffer × ℕ
count_and_flood n buf = (flood, buf, n + 1)

busy-ready : ready_count busy_port.rx_ring.frames ≤ 5
unfolding rx_ready
busy-ready = omega arith

receive_from_ends_example :
    (s' : ℕ) × (d' : Dataplane) × (receive_from
        (some count_and_flood)
        5
        0
        busy
        1
        (next_received (some busy_port))
      ≡ some (s', d', true))
    × (next_received (get_elem? d'.ports 1) ≡ none)
    × (length d'.ports ≡ length busy.ports)
receive_from_ends_example =
    receive_from_ends (some count_and_flood) 5 0 busy 1 busy_port (next_received (some busy_port))
      (λ s buf. inl refl) refl refl busy-ready

-- The table of tables lists `inports` under the name "in".
abbrev in_entry : TableEntry
in_entry = record { fd = 1; table_type = 1; key_size = 6; value_size = 4; max_entries = 256 }

abbrev tables : HashMap list_table
tables = record {
  key_size = 32;
  value_size = 20;
  max_entries = 64;
  map_flags = 0;
  elem_size = 56;
  htab = (
    (
      105 ∷ 110 ∷ replicate 30 0,
      105
          ∷ 110
          ∷ (replicate 30 0
              ++ (1 ∷ 0 ∷ 0 ∷ 0 ∷ 1 ∷ 0 ∷ 0 ∷ 0 ∷ 6 ∷ 0 ∷ 0 ∷ 0 ∷ 4 ∷ 0 ∷ 0 ∷ 0 ∷ 0 ∷ 1 ∷ 0 ∷ 0 ∷ 0
                  ∷ 0 ∷ 0 ∷ 0 ∷ [])),
    )
        ∷ [],
    (refl, tt),
  );
  cursor = idle;
}

abbrev maps : Maps list_table
maps = some (hash tables) ∷ some (hash inports) ∷ []

inports-IsTable : IsTable list_table maps 0 (105 ∷ 110 ∷ []) in_entry inports
unfolding find_table map_at lookup_elem lookup_map HashMap.lookup_elem bytes_eq round_up
inports-IsTable = record {
  listed = refl;
  apart = λ e. absurd (omega arith);
  opened = refl;
  sized = refl;
}

abbrev key : List ℕ
key = 2 ∷ 0 ∷ 0 ∷ 0 ∷ 0 ∷ 1 ∷ []

get_request-answer_example :
    recv_table_entry_get_request list_table maps 0 (105 ∷ 110 ∷ []) key
    ≡ done (answer list_table key (view list_table inports key))
get_request-answer_example =
    get_request-answer list_table maps 0 (105 ∷ 110 ∷ []) key in_entry inports inports-IsTable
      (omega arith)

insert_request-get_request_example :
    (maps' : Maps list_table) × (recv_table_entry_insert_request list_table true maps 0
        (105 ∷ 110 ∷ [])
        key
        (7 ∷ 0 ∷ 0 ∷ 0 ∷ [])
      ≡ done (table_entry_insert success, maps'))
    × ((key' : List ℕ)
        → 6 ≤ length key'
        → recv_table_entry_get_request list_table maps' 0 (105 ∷ 110 ∷ []) key' ≡ (
            if same_key list_table inports key key'
            then done (answer list_table key' (some (take 4 (7 ∷ 0 ∷ 0 ∷ 0 ∷ []))))
            else recv_table_entry_get_request list_table maps 0 (105 ∷ 110 ∷ []) key'))
insert_request-get_request_example =
    insert_request-get_request list_table maps 0 (105 ∷ 110 ∷ []) key (7 ∷ 0 ∷ 0 ∷ 0 ∷ []) in_entry
      inports inports-IsTable inports-IsValid (omega arith) refl
