-- ===== src/Objects/Print.antt =====
-- The print functions of src/objects.c. One that may return NULL returns an optional text; one that
-- fills a buffer returns the text that it leaves there.
use Prim.Native.String.{◌++◌}
use mathlib.Core.List.{◌++◌ as append}
use nftlb.Prelude.{
  ℕ, ℤ, String, List, ◌∷◌, Option, none, some, has_flag, codes, ◌==◌, if◌then◌else◌,
}
use nftlb.Libc.{print_int}
use nftlb.Enums.{
  Family, Mode, Protocol, Scheduler, Helper, State, Switch, RateUnit, PolicyType, PolicyRoute, Key,
  meta_srcip, meta_dstip, meta_srcport, meta_dstport, meta_srcmac, meta_dstmac, log_input,
  log_forward, log_output, verdict_log, verdict_drop, verdict_accept,
}

unfoldable pub obj_print_key : Key → Option String
obj_print_key Key.farms = some "farms"
obj_print_key Key.name = some "name"
obj_print_key Key.newname = some "newname"
obj_print_key Key.fqdn = some "fqdn"
obj_print_key Key.iface = some "iface"
obj_print_key Key.oface = some "oface"
obj_print_key Key.family = some "family"
obj_print_key Key.ethaddr = some "ether-addr"
obj_print_key Key.iethaddr = some "iether-addr"
obj_print_key Key.oethaddr = some "oether-addr"
obj_print_key Key.virtaddr = some "virtual-addr"
obj_print_key Key.virtports = some "virtual-ports"
obj_print_key Key.ipaddr = some "ip-addr"
obj_print_key Key.srcaddr = some "source-addr"
obj_print_key Key.port = some "port"
obj_print_key Key.mode = some "mode"
obj_print_key Key.responsettl = some "responsettl"
obj_print_key Key.proto = some "protocol"
obj_print_key Key.sched = some "scheduler"
obj_print_key Key.schedparam = some "sched-param"
obj_print_key Key.persistence = some "persistence"
obj_print_key Key.persisttm = some "persist-ttl"
obj_print_key Key.helper = some "helper"
obj_print_key Key.log = some "log"
obj_print_key Key.logprefix = some "log-prefix"
obj_print_key Key.log_rtlimit = some "log-rtlimit"
obj_print_key Key.mark = some "mark"
obj_print_key Key.state = some "state"
obj_print_key Key.bcks = some "backends"
obj_print_key Key.weight = some "weight"
obj_print_key Key.priority = some "priority"
obj_print_key Key.action = some "action"
obj_print_key Key.limitsttl = some "limits-ttl"
obj_print_key Key.newrtlimit = some "new-rtlimit"
obj_print_key Key.newrtlimitburst = some "new-rtlimit-burst"
obj_print_key Key.newrtlimit_logprefix = some "new-rtlimit-log-prefix"
obj_print_key Key.rstrtlimit = some "rst-rtlimit"
obj_print_key Key.rstrtlimitburst = some "rst-rtlimit-burst"
obj_print_key Key.rstrtlimit_logprefix = some "rst-rtlimit-log-prefix"
obj_print_key Key.estconnlimit = some "est-connlimit"
obj_print_key Key.estconnlimit_logprefix = some "est-connlimit-log-prefix"
obj_print_key Key.tcpstrict = some "tcp-strict"
obj_print_key Key.tcpstrict_logprefix = some "tcp-strict-log-prefix"
obj_print_key Key.queue = some "queue"
obj_print_key Key.flowoffload = some "flow-offload"
obj_print_key Key.policies = some "policies"
obj_print_key Key.type = some "type"
obj_print_key Key.timeout = some "timeout"
obj_print_key Key.elements = some "elements"
obj_print_key Key.data_key = some "data"
obj_print_key Key.time = some "time"
obj_print_key Key.sessions = some "sessions"
obj_print_key Key.client = some "client"
obj_print_key Key.backend = some "backend"
obj_print_key Key.intraconnect = some "intra-connect"
obj_print_key _ = none

unfoldable pub obj_print_family : Family → Option String
obj_print_family Family.ipv4 = some "ipv4"
obj_print_family Family.ipv6 = some "ipv6"
obj_print_family Family.inet = some "inet"
obj_print_family Family.netdev = none

unfoldable pub obj_print_mode : Mode → Option String
obj_print_mode Mode.snat = some "snat"
obj_print_mode Mode.dnat = some "dnat"
obj_print_mode Mode.dsr = some "dsr"
obj_print_mode Mode.stlsdnat = some "stlsdnat"
obj_print_mode Mode.local = some "local"

unfoldable pub obj_print_proto : Protocol → Option String
obj_print_proto Protocol.tcp = some "tcp"
obj_print_proto Protocol.udp = some "udp"
obj_print_proto Protocol.sctp = some "sctp"
obj_print_proto Protocol.all = some "all"

-- The unit of a rate limit, the `switch` of `obj_print_rtlimit`.
unfoldable pub rtlimit_unit : RateUnit → String
rtlimit_unit RateUnit.minute = "minute"
rtlimit_unit RateUnit.hour = "hour"
rtlimit_unit RateUnit.day = "day"
rtlimit_unit RateUnit.week = "week"
rtlimit_unit RateUnit.second = "second"

-- The buffer of 50 characters holds every int and unit.
unfoldable pub obj_print_rtlimit : ℤ → RateUnit → List ℕ
unfolding print_int rtlimit_unit
obj_print_rtlimit value unit = append (print_int value) (b'/' ∷ codes (rtlimit_unit unit))

unfoldable pub obj_print_sched : Scheduler → Option String
obj_print_sched Scheduler.rr = some "rr"
obj_print_sched Scheduler.weight = some "weight"
obj_print_sched Scheduler.hash = some "hash"
obj_print_sched Scheduler.symhash = some "symhash"

-- strcat of a word and a blank, if the flag is set
abbrev flag_word : ℕ → ℕ → String → String
flag_word word flag text = if has_flag word flag then text else ""

unfoldable pub obj_print_meta : ℕ → String
obj_print_meta param =
    if param == 0
    then "none"
    else flag_word param meta_srcip "srcip "
      ++ flag_word param meta_dstip "dstip "
      ++ flag_word param meta_srcport "srcport "
      ++ flag_word param meta_dstport "dstport "
      ++ flag_word param meta_srcmac "srcmac "
      ++ flag_word param meta_dstmac "dstmac "

unfoldable pub obj_print_helper : Helper → Option String
obj_print_helper Helper.none = some "none"
obj_print_helper Helper.ftp = some "ftp"
obj_print_helper Helper.pptp = some "pptp"
obj_print_helper Helper.sip = some "sip"
obj_print_helper Helper.snmp = some "snmp"
obj_print_helper Helper.tftp = some "tftp"

unfoldable pub obj_print_log : ℕ → String
obj_print_log log =
    if log == 0
    then "none"
    else flag_word log log_input "input "
      ++ flag_word log log_forward "forward "
      ++ flag_word log log_output "output"

unfoldable pub obj_print_state : State → Option String
obj_print_state State.up = some "up"
obj_print_state State.down = some "down"
obj_print_state State.off = some "off"
obj_print_state State.conferr = some "config_error"
obj_print_state State.avail = some "available"

unfoldable pub obj_print_switch : Switch → Option String
obj_print_switch Switch.on = some "on"
obj_print_switch Switch.off = some "off"

unfoldable pub obj_print_policy_type : PolicyType → Option String
obj_print_policy_type PolicyType.deny = some "blacklist"
obj_print_policy_type PolicyType.allow = some "whitelist"

unfoldable pub obj_print_policy_route : PolicyRoute → Option String
obj_print_policy_route PolicyRoute.in_route = some "in"
obj_print_policy_route PolicyRoute.out_route = some "out"

unfoldable pub obj_print_verdict : ℕ → String
obj_print_verdict verdict =
    if verdict == 0
    then "none"
    else flag_word verdict verdict_log "log "
      ++ flag_word verdict verdict_drop "drop "
      ++ flag_word verdict verdict_accept "accept"
