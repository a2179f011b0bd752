-- ===== src/NetMsg/Tests.antt =====
-- Concrete messages for the theorem on the queues of src/netmsg.c.
use sapphire_os.Prelude.{ℕ, ◌≡◌, refl, List, [], ◌∷◌, ◌++◌}
use sapphire_os.Ip.{Addr}
use sapphire_os.NetMsg.{
  NetMsg, Queues, add_to_transmit_q, add_to_receive_q, remove_from_transmit_q,
  remove_from_receive_q, remove_tail,
}
use sapphire_os.NetMsg.Order.{Call, transmitted, added, oldest_first, transmitted-oldest_first}

abbrev somewhere : Addr
somewhere = record { ip3 = 10; ip2 = 0; ip1 = 0; ip0 = 7 }

abbrev message : ℕ → NetMsg
message id = record {
  flags = 0;
  ip_hdr = record {
    vhl = 0x45;
    ds = 0;
    total_length = 20;
    id = id;
    flags_offset = 0;
    ttl = 64;
    protocol = 17;
    header_checksum = 0;
    source_addr = somewhere;
    dest_addr = somewhere;
  };
  payload = [];
}

abbrev one_waiting : Queues
one_waiting = record { tx_q = message 1 ∷ []; rx_q = [] }

abbrev calls : List Call
calls =
    Call.add_tx (message 2)
    ∷ Call.add_rx (message 3)
    ∷ Call.take_tx
    ∷ Call.take_rx
    ∷ Call.take_tx
    ∷ []

-- both messages leave in the order in which they came
both_leave : (transmitted calls one_waiting).0 ≡ message 1 ∷ message 2 ∷ []
unfolding transmitted add_to_transmit_q add_to_receive_q remove_from_transmit_q
    remove_from_receive_q remove_tail
both_leave = refl

transmitted-oldest_first_example :
    (transmitted calls one_waiting).0 ++ oldest_first (transmitted calls one_waiting).1.tx_q
    ≡ oldest_first one_waiting.tx_q ++ added calls
transmitted-oldest_first_example = transmitted-oldest_first calls one_waiting
