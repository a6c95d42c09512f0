-- ===== src/Bond.antt =====
-- dpdk-examples/bond-kni: an application that answers ARP requests and IPv4 packets over a bonded
-- port. The calls of DPDK are parameters, or events that are recorded.
pub mod Frame
pub mod Flags
pub mod Lcore
pub mod Commands
pub mod Setup
pub mod Main
