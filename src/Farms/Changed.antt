-- ===== src/Farms/Changed.antt =====
-- farm_changed and farm_actionable of src/farms.c.
use nftlb.Prelude.{Bool, true, false, ◌||◌, not, String, Option, none, some, ℤ, pos, if◌then◌else◌}
use nftlb.Enums.{
  Key, mode_value, scheduler_value, helper_value, state_value, action_value, switch_value,
  family_value, protocol_value,
}
use nftlb.Model.{Farm, Address}
use nftlb.Config.Pair.{ConfigPair}
use nftlb.Objects.Attributes.{obj_equ_attribute_string, obj_equ_attribute_int}
use nftlb.Backends.Predicates.{farm_is_ingress_mode}

abbrev text_differs : Option String → ConfigPair → Bool
text_differs s c = not (obj_equ_attribute_string s c.str_value)

abbrev int_differs : ℤ → ConfigPair → Bool
int_differs v c = not (obj_equ_attribute_int v c.int_value)

abbrev rate_differs : ℤ → ℤ → ConfigPair → Bool
rate_differs v unit c =
    not (obj_equ_attribute_int v c.int_value) || not (obj_equ_attribute_int unit c.int_value2)

-- The cases that read the address of the farm's current, or first, link.
unfoldable pub address_differs : Key → Address → ConfigPair → Bool
unfolding obj_equ_attribute_string obj_equ_attribute_int
address_differs Key.iethaddr a c = text_differs a.iethaddr c
address_differs Key.iface a c = text_differs a.iface c
address_differs Key.virtaddr a c = text_differs (some a.ipaddr) c
address_differs Key.family a c = int_differs (pos (family_value a.family)) c
address_differs Key.virtports a c = text_differs (some a.ports) c
address_differs Key.proto a c = int_differs (pos (protocol_value a.protocol)) c
address_differs key a c = false

unfoldable pub farm_differs : Key → Farm → ConfigPair → Bool
unfolding obj_equ_attribute_string obj_equ_attribute_int
farm_differs Key.name f c = true
farm_differs Key.newname f c = text_differs (some f.name) c
farm_differs Key.fqdn f c = text_differs (some f.fqdn) c
farm_differs Key.ethaddr f c = true
farm_differs Key.oethaddr f c = text_differs f.oethaddr c
farm_differs Key.oface f c = text_differs f.oface c
farm_differs Key.srcaddr f c = text_differs f.srcaddr c
farm_differs Key.mode f c = int_differs (pos (mode_value f.mode)) c
farm_differs Key.responsettl f c = int_differs f.responsettl c
farm_differs Key.sched f c = int_differs (pos (scheduler_value f.scheduler)) c
farm_differs Key.schedparam f c = int_differs (pos f.schedparam) c
farm_differs Key.persistence f c = int_differs (pos f.persistence) c
farm_differs Key.persisttm f c = int_differs f.persistttl c
farm_differs Key.helper f c = int_differs (pos (helper_value f.helper)) c
farm_differs Key.log f c = int_differs (pos f.log) c
farm_differs Key.logprefix f c = text_differs (some f.logprefix) c
farm_differs Key.log_rtlimit f c = rate_differs f.logrtlimit f.logrtlimit_unit c
farm_differs Key.mark f c = int_differs (pos f.mark) c
farm_differs Key.state f c = int_differs (pos (state_value f.state)) c
farm_differs Key.action f c = int_differs (pos (action_value f.action)) c
farm_differs Key.limitsttl f c = int_differs f.limitsttl c
farm_differs Key.newrtlimit f c = rate_differs f.newrtlimit f.newrtlimit_unit c
farm_differs Key.newrtlimitburst f c = int_differs f.newrtlimitbst c
farm_differs Key.rstrtlimit f c = rate_differs f.rstrtlimit f.rstrtlimit_unit c
farm_differs Key.rstrtlimitburst f c = int_differs f.rstrtlimitbst c
farm_differs Key.estconnlimit f c = int_differs f.estconnlimit c
farm_differs Key.tcpstrict f c = int_differs (pos (switch_value f.tcpstrict)) c
farm_differs Key.queue f c = int_differs f.queue c
farm_differs Key.verdict f c = int_differs (pos f.verdict) c
farm_differs Key.flowoffload f c = int_differs (pos (switch_value f.flow_offload)) c
farm_differs Key.newrtlimit_logprefix f c = text_differs (some f.newrtlimit_logprefix) c
farm_differs Key.rstrtlimit_logprefix f c = text_differs (some f.rstrtlimit_logprefix) c
farm_differs Key.estconnlimit_logprefix f c = text_differs (some f.estconnlimit_logprefix) c
farm_differs Key.tcpstrict_logprefix f c = text_differs (some f.tcpstrict_logprefix) c
farm_differs Key.intraconnect f c = int_differs (pos (switch_value f.intra_connect)) c
farm_differs key f c = false

abbrev pub reads_address : Key → Bool
reads_address Key.iethaddr = true
reads_address Key.iface = true
reads_address Key.virtaddr = true
reads_address Key.family = true
reads_address Key.virtports = true
reads_address Key.proto = true
reads_address key = false

abbrev pub link_changed : Key → Option Address → ConfigPair → Bool
unfolding address_differs
link_changed key none c = true
link_changed key (some a) c = address_differs key a c

-- The whole switch: `fa` is the address of the farm's current link, or of its first one.
unfoldable pub farm_changed : Key → Farm → Option Address → ConfigPair → Bool
unfolding farm_differs address_differs
farm_changed key f fa c = if reads_address key then link_changed key fa c else farm_differs key f c

-- Whether a change of the attribute needs the farm's rules to be made again.
unfoldable pub farm_actionable : Key → Farm → Bool
unfolding farm_is_ingress_mode
farm_actionable Key.newrtlimit f = not (farm_is_ingress_mode f)
farm_actionable Key.newrtlimitburst f = not (farm_is_ingress_mode f)
farm_actionable Key.rstrtlimit f = not (farm_is_ingress_mode f)
farm_actionable Key.rstrtlimitburst f = not (farm_is_ingress_mode f)
farm_actionable Key.estconnlimit f = not (farm_is_ingress_mode f)
farm_actionable Key.tcpstrict f = not (farm_is_ingress_mode f)
farm_actionable Key.queue f = not (farm_is_ingress_mode f)
farm_actionable Key.flowoffload f = not (farm_is_ingress_mode f)
farm_actionable Key.newrtlimit_logprefix f = not (farm_is_ingress_mode f)
farm_actionable Key.rstrtlimit_logprefix f = not (farm_is_ingress_mode f)
farm_actionable Key.estconnlimit_logprefix f = not (farm_is_ingress_mode f)
farm_actionable Key.tcpstrict_logprefix f = not (farm_is_ingress_mode f)
farm_actionable key f = true
