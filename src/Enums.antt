-- ===== src/Enums.antt =====
-- The enumerations and flag words of include/objects.h, include/farms.h, include/policies.h,
-- include/sessions.h and include/config.h. An enumeration is a data type with the source's
-- enumerators in the source's order; `…_value` is the int that an enumerator stands for.
use nftlb.Prelude.{ℕ, Bool, ◌==◌}

pub data Family : Type 0 where
  ipv4 ipv6 inet netdev : Family

pub data Mode : Type 0 where
  snat dnat dsr stlsdnat local : Mode

pub data Protocol : Type 0 where
  all tcp udp sctp : Protocol

pub data Scheduler : Type 0 where
  rr weight hash symhash : Scheduler

pub data Helper : Type 0 where
  none ftp pptp sip snmp tftp : Helper

-- up: available and enabled; avail: available, but not enabled due to the priority; down: not
-- available due to a problem; off: disabled by hand; conferr: disabled due to a configuration error.
pub data State : Type 0 where
  up avail down off conferr : State

pub data Switch : Type 0 where
  off on : Switch

pub data Action : Type 0 where
  start stop flush reload delete none : Action

pub data RateUnit : Type 0 where
  second minute hour day week : RateUnit

pub data PolicyType : Type 0 where
  deny allow : PolicyType

pub data PolicyRoute : Type 0 where
  in_route out_route : PolicyRoute

pub data SessionType : Type 0 where
  static timed : SessionType

pub data ParserOutput : Type 0 where
  ok failed ignore struct_failed valid_failed idem_value obj_unknown : ParserOutput

pub data Level : Type 0 where
  init farms bcks farmpolicy policies elements sessions addresses farmaddress addresspolicy : Level

pub data Key : Type 0 where
  farms name newname fqdn iface oface family ethaddr iethaddr oethaddr virtaddr virtports ipaddr :
      Key
  srcaddr port ports mode proto sched schedparam persistence persisttm helper log mark state bcks :
      Key
  weight priority action limitsttl newrtlimit newrtlimitburst rstrtlimit rstrtlimitburst : Key
  estconnlimit tcpstrict queue policies elements type timeout data_key time logprefix : Key
  newrtlimit_logprefix rstrtlimit_logprefix estconnlimit_logprefix tcpstrict_logprefix : Key
  responsettl flowoffload sessions client backend used intraconnect addresses route verdict : Key
  log_rtlimit counter_packets counter_bytes : Key

abbrev pub mode_value : Mode → ℕ
mode_value Mode.snat = 0
mode_value Mode.dnat = 1
mode_value Mode.dsr = 2
mode_value Mode.stlsdnat = 3
mode_value Mode.local = 4

abbrev pub protocol_value : Protocol → ℕ
protocol_value Protocol.all = 0
protocol_value Protocol.tcp = 1
protocol_value Protocol.udp = 2
protocol_value Protocol.sctp = 3

abbrev pub state_value : State → ℕ
state_value State.up = 0
state_value State.avail = 1
state_value State.down = 2
state_value State.off = 3
state_value State.conferr = 4

abbrev pub action_value : Action → ℕ
action_value Action.start = 0
action_value Action.stop = 1
action_value Action.flush = 2
action_value Action.reload = 3
action_value Action.delete = 4
action_value Action.none = 5

abbrev pub family_value : Family → ℕ
family_value Family.ipv4 = 0
family_value Family.ipv6 = 1
family_value Family.inet = 2
family_value Family.netdev = 3

abbrev pub scheduler_value : Scheduler → ℕ
scheduler_value Scheduler.rr = 0
scheduler_value Scheduler.weight = 1
scheduler_value Scheduler.hash = 2
scheduler_value Scheduler.symhash = 3

abbrev pub helper_value : Helper → ℕ
helper_value Helper.none = 0
helper_value Helper.ftp = 1
helper_value Helper.pptp = 2
helper_value Helper.sip = 3
helper_value Helper.snmp = 4
helper_value Helper.tftp = 5

abbrev pub switch_value : Switch → ℕ
switch_value Switch.off = 0
switch_value Switch.on = 1

abbrev pub unit_value : RateUnit → ℕ
unit_value RateUnit.second = 0
unit_value RateUnit.minute = 1
unit_value RateUnit.hour = 2
unit_value RateUnit.day = 3
unit_value RateUnit.week = 4

abbrev pub policy_type_value : PolicyType → ℕ
policy_type_value PolicyType.deny = 0
policy_type_value PolicyType.allow = 1

abbrev pub policy_route_value : PolicyRoute → ℕ
policy_route_value PolicyRoute.in_route = 0
policy_route_value PolicyRoute.out_route = 1

abbrev pub parser_value : ParserOutput → ℕ
parser_value ParserOutput.ok = 0
parser_value ParserOutput.failed = 1
parser_value ParserOutput.ignore = 2
parser_value ParserOutput.struct_failed = 3
parser_value ParserOutput.valid_failed = 4
parser_value ParserOutput.idem_value = 5
parser_value ParserOutput.obj_unknown = 6

abbrev pub level_value : Level → ℕ
level_value Level.init = 0
level_value Level.farms = 1
level_value Level.bcks = 2
level_value Level.farmpolicy = 3
level_value Level.policies = 4
level_value Level.elements = 5
level_value Level.sessions = 6
level_value Level.addresses = 7
level_value Level.farmaddress = 8
level_value Level.addresspolicy = 9

abbrev pub key_value : Key → ℕ
key_value Key.farms = 0
key_value Key.name = 1
key_value Key.newname = 2
key_value Key.fqdn = 3
key_value Key.iface = 4
key_value Key.oface = 5
key_value Key.family = 6
key_value Key.ethaddr = 7
key_value Key.iethaddr = 8
key_value Key.oethaddr = 9
key_value Key.virtaddr = 10
key_value Key.virtports = 11
key_value Key.ipaddr = 12
key_value Key.srcaddr = 13
key_value Key.port = 14
key_value Key.ports = 15
key_value Key.mode = 16
key_value Key.proto = 17
key_value Key.sched = 18
key_value Key.schedparam = 19
key_value Key.persistence = 20
key_value Key.persisttm = 21
key_value Key.helper = 22
key_value Key.log = 23
key_value Key.mark = 24
key_value Key.state = 25
key_value Key.bcks = 26
key_value Key.weight = 27
key_value Key.priority = 28
key_value Key.action = 29
key_value Key.limitsttl = 30
key_value Key.newrtlimit = 31
key_value Key.newrtlimitburst = 32
key_value Key.rstrtlimit = 33
key_value Key.rstrtlimitburst = 34
key_value Key.estconnlimit = 35
key_value Key.tcpstrict = 36
key_value Key.queue = 37
key_value Key.policies = 38
key_value Key.elements = 39
key_value Key.type = 40
key_value Key.timeout = 41
key_value Key.data_key = 42
key_value Key.time = 43
key_value Key.logprefix = 44
key_value Key.newrtlimit_logprefix = 45
key_value Key.rstrtlimit_logprefix = 46
key_value Key.estconnlimit_logprefix = 47
key_value Key.tcpstrict_logprefix = 48
key_value Key.responsettl = 49
key_value Key.flowoffload = 50
key_value Key.sessions = 51
key_value Key.client = 52
key_value Key.backend = 53
key_value Key.used = 54
key_value Key.intraconnect = 55
key_value Key.addresses = 56
key_value Key.route = 57
key_value Key.verdict = 58
key_value Key.log_rtlimit = 59
key_value Key.counter_packets = 60
key_value Key.counter_bytes = 61

-- VALUE_META_*
abbrev pub meta_none : ℕ
meta_none = 0

abbrev pub meta_srcip : ℕ
meta_srcip = 1

abbrev pub meta_dstip : ℕ
meta_dstip = 2

abbrev pub meta_srcport : ℕ
meta_srcport = 4

abbrev pub meta_dstport : ℕ
meta_dstport = 8

abbrev pub meta_srcmac : ℕ
meta_srcmac = 16

abbrev pub meta_dstmac : ℕ
meta_dstmac = 32

abbrev pub meta_mark : ℕ
meta_mark = 64

-- VALUE_LOG_*
abbrev pub log_none : ℕ
log_none = 0

abbrev pub log_input : ℕ
log_input = 1

abbrev pub log_forward : ℕ
log_forward = 2

abbrev pub log_output : ℕ
log_output = 4

-- VALUE_VERDICT_*
abbrev pub verdict_none : ℕ
verdict_none = 0

abbrev pub verdict_log : ℕ
verdict_log = 1

abbrev pub verdict_drop : ℕ
verdict_drop = 2

abbrev pub verdict_accept : ℕ
verdict_accept = 4

-- Equality of enumerators, as the source compares their ints.
abbrev pub is_mode : Mode → Mode → Bool
is_mode a b = mode_value a == mode_value b

abbrev pub is_state : State → State → Bool
is_state a b = state_value a == state_value b

abbrev pub is_action : Action → Action → Bool
is_action a b = action_value a == action_value b

abbrev pub is_protocol : Protocol → Protocol → Bool
is_protocol a b = protocol_value a == protocol_value b

abbrev pub is_helper : Helper → Helper → Bool
is_helper a b = helper_value a == helper_value b
