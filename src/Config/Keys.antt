-- ===== src/Config/Keys.antt =====
-- The key words of the configuration: `config_key` of src/config.c. The source returns -1 where this
-- returns `none`.
use nftlb.Prelude.{String, Option, none, some, str_eq, if◌then◌else◌}
use nftlb.Enums.{Key}

unfoldable pub config_key : String → Option Key
config_key key =
    if str_eq key "farms"
    then some Key.farms
    else if str_eq key "name"
    then some Key.name
    else if str_eq key "newname"
    then some Key.newname
    else if str_eq key "fqdn"
    then some Key.fqdn
    else if str_eq key "iface"
    then some Key.iface
    else if str_eq key "oface"
    then some Key.oface
    else if str_eq key "family"
    then some Key.family
    else if str_eq key "ether-addr"
    then some Key.ethaddr
    else if str_eq key "iether-addr"
    then some Key.iethaddr
    else if str_eq key "oether-addr"
    then some Key.oethaddr
    else if str_eq key "virtual-addr"
    then some Key.virtaddr
    else if str_eq key "virtual-ports"
    then some Key.virtports
    else if str_eq key "ip-addr"
    then some Key.ipaddr
    else if str_eq key "source-addr"
    then some Key.srcaddr
    else if str_eq key "port"
    then some Key.port
    else if str_eq key "mode"
    then some Key.mode
    else if str_eq key "responsettl"
    then some Key.responsettl
    else if str_eq key "protocol"
    then some Key.proto
    else if str_eq key "scheduler"
    then some Key.sched
    else if str_eq key "sched-param"
    then some Key.schedparam
    else if str_eq key "persistence"
    then some Key.persistence
    else if str_eq key "persist-ttl"
    then some Key.persisttm
    else if str_eq key "helper"
    then some Key.helper
    else if str_eq key "log"
    then some Key.log
    else if str_eq key "log-prefix"
    then some Key.logprefix
    else if str_eq key "log-rtlimit"
    then some Key.log_rtlimit
    else if str_eq key "mark"
    then some Key.mark
    else if str_eq key "state"
    then some Key.state
    else if str_eq key "backends"
    then some Key.bcks
    else if str_eq key "weight"
    then some Key.weight
    else if str_eq key "priority"
    then some Key.priority
    else if str_eq key "action"
    then some Key.action
    else if str_eq key "limits-ttl"
    then some Key.limitsttl
    else if str_eq key "new-rtlimit"
    then some Key.newrtlimit
    else if str_eq key "new-rtlimit-burst"
    then some Key.newrtlimitburst
    else if str_eq key "new-rtlimit-log-prefix"
    then some Key.newrtlimit_logprefix
    else if str_eq key "rst-rtlimit"
    then some Key.rstrtlimit
    else if str_eq key "rst-rtlimit-burst"
    then some Key.rstrtlimitburst
    else if str_eq key "rst-rtlimit-log-prefix"
    then some Key.rstrtlimit_logprefix
    else if str_eq key "est-connlimit"
    then some Key.estconnlimit
    else if str_eq key "est-connlimit-log-prefix"
    then some Key.estconnlimit_logprefix
    else if str_eq key "tcp-strict"
    then some Key.tcpstrict
    else if str_eq key "tcp-strict-log-prefix"
    then some Key.tcpstrict_logprefix
    else if str_eq key "queue"
    then some Key.queue
    else if str_eq key "flow-offload"
    then some Key.flowoffload
    else if str_eq key "policies"
    then some Key.policies
    else if str_eq key "type"
    then some Key.type
    else if str_eq key "verdict"
    then some Key.verdict
    else if str_eq key "timeout"
    then some Key.timeout
    else if str_eq key "elements"
    then some Key.elements
    else if str_eq key "data"
    then some Key.data_key
    else if str_eq key "time"
    then some Key.time
    else if str_eq key "sessions"
    then some Key.sessions
    else if str_eq key "client"
    then some Key.client
    else if str_eq key "backend"
    then some Key.backend
    else if str_eq key "used"
    then some Key.used
    else if str_eq key "intra-connect"
    then some Key.intraconnect
    else if str_eq key "addresses"
    then some Key.addresses
    else if str_eq key "ports"
    then some Key.ports
    else if str_eq key "route"
    then some Key.route
    else if str_eq key "counter-packets"
    then some Key.counter_packets
    else if str_eq key "counter-bytes"
    then some Key.counter_bytes
    else none
