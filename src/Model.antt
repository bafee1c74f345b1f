-- ===== src/Model.antt =====
-- The objects of the configuration: `struct backend`, `struct farm` and the others of include/*.h.
-- A node's address in memory is its `id`. A pointer from one object to another is the id of the
-- object; the link from a node to the list that holds it, and its pointer to the owner of that list,
-- are the node's place in the owner's list. A `char *` that the program sets to NULL is an optional
-- text, and one that it never does is a text.
use nftlb.Prelude.{ℕ, ℤ, String, List, Option}
use nftlb.Enums.{
  Family, Mode, Protocol, Scheduler, Helper, State, Switch, Action, PolicyType, PolicyRoute,
}

pub record Backend : Type 0 where
  pub id : ℕ
  pub action : Action
  pub name : String
  pub fqdn : String
  pub ipaddr : Option String
  pub ethaddr : Option String
  pub ofidx : ℤ
  pub oface : Option String
  pub port : String
  pub srcaddr : Option String
  pub weight : ℤ
  pub priority : ℕ
  pub mark : ℕ
  pub estconnlimit : ℤ
  pub estconnlimit_logprefix : String
  pub state : State

pub record Session : Type 0 where
  pub id : ℕ
  pub client : String
  pub bck : Option ℕ
  pub expiration : Option String
  pub state : State
  pub action : Action

pub record FarmAddress : Type 0 where
  pub id : ℕ
  pub address : ℕ
  pub action : Action

pub record FarmPolicy : Type 0 where
  pub id : ℕ
  pub policy : ℕ
  pub action : Action

pub record Farm : Type 0 where
  pub id : ℕ
  pub action : Action
  pub reload_action : ℕ
  pub name : String
  pub fqdn : String
  pub oface : Option String
  pub oethaddr : Option String
  pub ofidx : ℤ
  pub srcaddr : Option String
  pub mode : Mode
  pub responsettl : ℤ
  pub scheduler : Scheduler
  pub schedparam : ℕ
  pub persistence : ℕ
  pub persistttl : ℤ
  pub helper : Helper
  pub log : ℕ
  pub logprefix : String
  pub logrtlimit : ℤ
  pub logrtlimit_unit : ℤ
  pub mark : ℕ
  pub state : State
  pub priority : ℕ
  pub limitsttl : ℤ
  pub newrtlimit : ℤ
  pub newrtlimit_unit : ℤ
  pub newrtlimitbst : ℤ
  pub newrtlimit_logprefix : String
  pub rstrtlimit : ℤ
  pub rstrtlimit_unit : ℤ
  pub rstrtlimitbst : ℤ
  pub rstrtlimit_logprefix : String
  pub estconnlimit : ℤ
  pub estconnlimit_logprefix : String
  pub tcpstrict : Switch
  pub tcpstrict_logprefix : String
  pub queue : ℤ
  pub verdict : ℕ
  pub flow_offload : Switch
  pub intra_connect : Switch
  pub total_weight : ℤ
  pub total_bcks : ℕ
  pub bcks_available : ℕ
  pub bcks_usable : ℕ
  pub bcks_have_port : ℕ
  pub bcks_have_srcaddr : ℕ
  pub bcks_have_if : ℕ
  pub policies_action : Action
  pub policies_used : ℕ
  pub nft_chains : ℕ
  pub backends : List Backend
  pub policies : List FarmPolicy
  pub total_timed_sessions : ℕ
  pub timed_sessions : List Session
  pub total_static_sessions : ℕ
  pub static_sessions : List Session
  pub addresses : List FarmAddress
  pub addresses_used : ℕ

pub record AddressPolicy : Type 0 where
  pub id : ℕ
  pub policy : ℕ
  pub action : Action

-- port_list of struct address, and nports: `ports` are the ports whose cell is 1, the last one set
-- in front. A port has a cell where it is from 1 to NFTLB_MAX_PORTS, and the operations on the array,
-- in Addresses/Ports.antt, give nothing for another.
pub record PortList : Type 0 where
  pub ports : List ℤ
  pub nports : ℕ

pub record Address : Type 0 where
  pub id : ℕ
  pub action : Action
  pub name : String
  pub fqdn : String
  pub iface : Option String
  pub iethaddr : Option String
  pub ifidx : ℤ
  pub ipaddr : String
  pub ports : String
  pub family : Family
  pub protocol : Protocol
  pub verdict : ℕ
  pub logprefix : String
  pub logrtlimit : ℤ
  pub logrtlimit_unit : ℤ
  pub policies : List AddressPolicy
  pub policies_used : ℕ
  pub policies_action : Action
  pub used : ℕ
  pub nft_chains : ℕ
  pub port_list : PortList

pub record Element : Type 0 where
  pub id : ℕ
  pub data_text : String
  pub time : Option String
  pub action : Action
  pub counter_pkts : String
  pub counter_bytes : String

pub record Policy : Type 0 where
  pub id : ℕ
  pub name : String
  pub type : PolicyType
  pub route : PolicyRoute
  pub family : Family
  pub timeout : ℤ
  pub total_elem : ℤ
  pub used : ℕ
  pub logprefix : String
  pub action : Action
  pub elements : List Element
