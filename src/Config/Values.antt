-- ===== src/Config/Values.antt =====
-- The words and flag words of the configuration: the `config_value_…` functions of src/config.c.
-- A word that is not known yields the default; that it is also reported is left out.
use Prim.Native.Nat.{bit_or}
use nftlb.Prelude.{ℕ, String, str_eq, str_has, if◌then◌else◌}
use nftlb.Enums.{
  Family, Mode, Protocol, Scheduler, Helper, State, Switch, Action, PolicyType, PolicyRoute,
  meta_none, meta_srcip, meta_dstip, meta_srcport, meta_dstport, meta_srcmac, meta_dstmac, log_none,
  log_input, log_forward, log_output, verdict_none, verdict_log, verdict_drop, verdict_accept,
}

unfoldable pub config_value_family : String → Family
config_value_family value =
    if str_eq value "ipv4"
    then Family.ipv4
    else if str_eq value "ipv6"
    then Family.ipv6
    else if str_eq value "inet"
    then Family.inet
    else Family.ipv4

unfoldable pub config_value_mode : String → Mode
config_value_mode value =
    if str_eq value "snat"
    then Mode.snat
    else if str_eq value "dnat"
    then Mode.dnat
    else if str_eq value "dsr"
    then Mode.dsr
    else if str_eq value "stlsdnat"
    then Mode.stlsdnat
    else if str_eq value "local"
    then Mode.local
    else Mode.snat

unfoldable pub config_value_proto : String → Protocol
config_value_proto value =
    if str_eq value "tcp"
    then Protocol.tcp
    else if str_eq value "udp"
    then Protocol.udp
    else if str_eq value "sctp"
    then Protocol.sctp
    else if str_eq value "all"
    then Protocol.all
    else Protocol.tcp

unfoldable pub config_value_sched : String → Scheduler
config_value_sched value =
    if str_eq value "rr"
    then Scheduler.rr
    else if str_eq value "weight"
    then Scheduler.weight
    else if str_eq value "hash"
    then Scheduler.hash
    else if str_eq value "symhash"
    then Scheduler.symhash
    else Scheduler.rr

unfoldable pub config_value_helper : String → Helper
config_value_helper value =
    if str_eq value "none"
    then Helper.none
    else if str_eq value "ftp"
    then Helper.ftp
    else if str_eq value "pptp"
    then Helper.pptp
    else if str_eq value "sip"
    then Helper.sip
    else if str_eq value "snmp"
    then Helper.snmp
    else if str_eq value "tftp"
    then Helper.tftp
    else Helper.none

unfoldable pub config_value_state : String → State
config_value_state value =
    if str_eq value "up"
    then State.up
    else if str_eq value "down"
    then State.down
    else if str_eq value "off"
    then State.off
    else if str_eq value "config_error"
    then State.conferr
    else State.up

unfoldable pub config_value_action : String → Action
config_value_action value =
    if str_eq value "stop"
    then Action.stop
    else if str_eq value "delete"
    then Action.delete
    else if str_eq value "start"
    then Action.start
    else if str_eq value "reload"
    then Action.reload
    else if str_eq value "flush"
    then Action.flush
    else Action.none

unfoldable pub config_value_type : String → PolicyType
config_value_type value =
    if str_eq value "blacklist"
    then PolicyType.deny
    else if str_eq value "whitelist"
    then PolicyType.allow
    else PolicyType.deny

unfoldable pub config_value_route : String → PolicyRoute
config_value_route value =
    if str_eq value "in"
    then PolicyRoute.in_route
    else if str_eq value "out"
    then PolicyRoute.out_route
    else PolicyRoute.in_route

unfoldable pub config_value_switch : String → Switch
config_value_switch value = if str_eq value "on" then Switch.on else Switch.off

-- mask |= flag, if the text has the word
abbrev add_flag : String → String → ℕ → ℕ → ℕ
add_flag value word flag mask = if str_has value word then bit_or mask flag else mask

unfoldable pub config_value_meta : String → ℕ
config_value_meta value =
    if str_has value "none"
    then meta_none
    else add_flag value "dstmac" meta_dstmac (
        add_flag value "srcmac" meta_srcmac (
          add_flag value "dstport" meta_dstport (
            add_flag value "srcport" meta_srcport
              (add_flag value "dstip" meta_dstip (add_flag value "srcip" meta_srcip 0)))))

unfoldable pub config_value_log : String → ℕ
config_value_log value =
    if str_has value "none"
    then log_none
    else add_flag value "output" log_output
        (add_flag value "forward" log_forward (add_flag value "input" log_input 0))

-- The test for an empty mask only reports it.
unfoldable pub config_value_verdict : String → ℕ
config_value_verdict value =
    add_flag value "accept" verdict_accept
      (add_flag value "drop" verdict_drop (add_flag value "log" verdict_log verdict_none))
