-- ===== src/Lib.antt =====
-- nftlb (https://github.com/relianoid/nftlb) keeps load balanced services in nftables: a
-- configuration, read from JSON or received by its web service, describes farms with their backends,
-- addresses, sessions and policies, and the program turns it into rules. This library models the part
-- of the program that stands between the configuration and the rules: the objects, the words of the
-- configuration, the walk over a document, and the operations that keep the objects' counters, flags,
-- links and states.
--
-- The parts, and the files of the repository that they model:
--   Prelude     names, tests, lists, integers and texts that the parts share
--   Libc        atoi, strtol, sscanf and sprintf as src/config.c, src/objects.c, src/addresses.c call them
--   Enums       the enumerations and flags of include/objects.h, farms.h, policies.h, sessions.h, config.h
--   Model       the structs of include/farms.h, backends.h, addresses.h, sessions.h and the links
--   Objects     src/objects.c: the printed form of values, the comparison of attributes, and the
--               dispatch of an attribute to the handlers of its level, which are an interface
--   Config      src/config.c: the parsed attribute, the words it is read from, the walk over a document
--   Farms       src/farms.c: farm_create, the setters, farm_changed, farm_actionable, the helpers
--   Backends    src/backends.c: marks, priority, counters, flags, and the transition of a state
--   Addresses   src/addresses.c: the ports of an address
--   Sessions    src/sessions.c: the two lists of sessions of a farm, and the kernel's set that one is
--               read from
--   Network     what the program asks the kernel through src/network.c and libnftables: an interface
--   States      backend_set_state, backend_s_gen_priority and farm_set_action of src/backends.c and
--               src/farms.c, which call one another, with farm_validate and the network information
--   FarmAddresses  src/farmaddress.c with address_create and address_delete: the links, counted
--   Policies    src/policies.c, src/farmpolicy.c and src/addresspolicy.c: the policies and the links to
--               them, counted, and policy_set_action with what it tells the farms and the addresses
--   Elements    src/elements.c: the elements of a policy, and their reading from the kernel's set
--   Nftst       src/nftst.c: what rules are written for, and its actions once they are written
--   Checksum    src/checksum.c: the checksum of a packet
--   Examples    the theorems at concrete inputs
--
-- How code and model correspond. A function keeps its name; a function that changes an object takes the
-- object and returns it, and one that changes several takes and returns a World, a Store, a
-- SessionList or a Farm. A node of a list is named by an `id`, the address of the node in memory, which
-- malloc makes different from those of the other nodes; a pointer to it is the id, an assignment
-- through the pointer replaces the node of that id in its list, and list_del removes it. A `char *` that
-- may be NULL is an optional text. An int is an integer without bounds where the code adds a few weights or
-- counts nodes; the checksum keeps its 32 and 16 bits. A function that the walk over a document calls
-- for each attribute (obj_set_attribute) is a parameter of the walk. masquerade_mark, which main.c reads
-- from the command line, is an argument. Log messages are left out. Where
-- the code leaves its objects the model gives `none`: address_add_array_port and
-- address_search_array_port for a port outside the array of 65535 cells, which the code does not test,
-- and farm_set_action with ACTION_DELETE, which frees the farm.
--
-- Loops. The loop of backend_s_gen_priority runs on fuel, one more than the number of backends: each
-- round but the last raises the priority past a backend that is down. The loop of
-- address_get_array_ports runs on the length of the text, of which each round takes a character at
-- least. The loop that folds a checksum runs on three rounds, enough for a sum of 32 bits. The
-- calls of States run on fuel, as deep as they nest: levels (n + 1) for n backends bounds a nest where
-- the farm has its action, and twice that and 4 (enough_fuel) any. The loops of nft_parse_sessions and
-- nft_parse_elements run on the length of the text, of which a round takes a character at least. The
-- other loops follow a list.
--
-- Not modelled: nft.c (the text of the rules, which libnftables reads), the sockets of
-- network.c and events.c (netlink), server.c (libev and HTTP), main.c, the writing of JSON, which
-- jansson does, the setting of a policy's and an element's attributes, and the deletion of farms and
-- backends. A buffer of a fixed size that the code copies text to is a text of any length.
pub mod Policies
pub mod Nftst
pub mod Elements
pub mod Prelude
pub mod Enums
pub mod Libc
pub mod Model
pub mod Network
pub mod Objects
pub mod Config
pub mod Farms
pub mod Backends
pub mod Addresses
pub mod Sessions
pub mod FarmAddresses
pub mod States
pub mod Checksum
pub mod Examples
