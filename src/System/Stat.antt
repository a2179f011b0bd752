-- ===== src/System/Stat.antt =====
-- Entries of `stats_type_t` of src/statistics.h.
use sapphire_os.Prelude.{ℕ}

-- The entries of `stats_type_t` that the modelled modules count, by their place in the enumeration.
abbrev pub mem_allocations : ℕ
mem_allocations = 8

abbrev pub mem_failed_allocations : ℕ
mem_failed_allocations = 9

abbrev pub mem_frees : ℕ
mem_frees = 10

abbrev pub mem_defrags : ℕ
mem_defrags = 11

abbrev pub flash_fs_soft_io_errors : ℕ
flash_fs_soft_io_errors = 40

abbrev pub flash_fs_hard_io_errors : ℕ
flash_fs_hard_io_errors = 41

abbrev pub count : ℕ
count = 55

abbrev pub netmsg_udp_created : ℕ
netmsg_udp_created = 14

abbrev pub netmsg_icmp_created : ℕ
netmsg_icmp_created = 12

abbrev pub netmsg_icmp_received : ℕ
netmsg_icmp_received = 13

abbrev pub sockets_packets_dropped : ℕ
sockets_packets_dropped = 20

abbrev pub udp_checksum_fails : ℕ
udp_checksum_fails = 21

abbrev pub netmsg_udp_received : ℕ
netmsg_udp_received = 15

abbrev pub netmsg_ipv4_checksums_failed : ℕ
netmsg_ipv4_checksums_failed = 16

abbrev pub netmsg_create_object_failed : ℕ
netmsg_create_object_failed = 18

abbrev pub netmsg_object_created : ℕ
netmsg_object_created = 19

abbrev pub routing_rreqs_received : ℕ
routing_rreqs_received = 46

abbrev pub routing_rreps_received : ℕ
routing_rreps_received = 47

abbrev pub routing_rerrs_received : ℕ
routing_rerrs_received = 48
