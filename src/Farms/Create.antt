-- ===== src/Farms/Create.antt =====
-- farm_create of src/farms.c: a farm with the defaults of include/objects.h.
use nftlb.Prelude.{ℕ, ◌+◌, String, [], none, pos, negsuc}
use nftlb.Enums.{
  Mode, Scheduler, Helper, State, Switch, Action, RateUnit, meta_none, log_none, verdict_log,
  verdict_drop, verdict_accept, unit_value,
}
use nftlb.Model.{Farm}

-- VALUE_RLD_*
abbrev pub rld_none : ℕ
rld_none = 0

-- The farm that farm_create puts at the end of the farms, with the given node and name.
unfoldable pub new_farm : ℕ → String → Farm
new_farm id name = record {
  id = id;
  action = Action.start;
  reload_action = rld_none;
  name = name;
  fqdn = "";
  oface = none;
  oethaddr = none;
  ofidx = negsuc 0;
  srcaddr = none;
  mode = Mode.snat;
  responsettl = pos 60;
  scheduler = Scheduler.rr;
  schedparam = meta_none;
  persistence = meta_none;
  persistttl = pos 60;
  helper = Helper.none;
  log = log_none;
  logprefix = "TYPE-FNAME ";
  logrtlimit = pos 0;
  logrtlimit_unit = pos (unit_value RateUnit.second);
  mark = 0;
  state = State.up;
  priority = 1;
  limitsttl = pos 120;
  newrtlimit = pos 0;
  newrtlimit_unit = pos (unit_value RateUnit.second);
  newrtlimitbst = pos 0;
  newrtlimit_logprefix = "KNAME-FNAME ";
  rstrtlimit = pos 0;
  rstrtlimit_unit = pos (unit_value RateUnit.second);
  rstrtlimitbst = pos 0;
  rstrtlimit_logprefix = "KNAME-FNAME ";
  estconnlimit = pos 0;
  estconnlimit_logprefix = "KNAME-FNAME ";
  tcpstrict = Switch.off;
  tcpstrict_logprefix = "KNAME-FNAME ";
  queue = negsuc 0;
  verdict = verdict_log + verdict_drop + verdict_accept;
  flow_offload = Switch.off;
  intra_connect = Switch.off;
  total_weight = pos 0;
  total_bcks = 0;
  bcks_available = 0;
  bcks_usable = 0;
  bcks_have_port = 0;
  bcks_have_srcaddr = 0;
  bcks_have_if = 0;
  policies_action = Action.none;
  policies_used = 0;
  nft_chains = 0;
  backends = [];
  policies = [];
  total_timed_sessions = 0;
  timed_sessions = [];
  total_static_sessions = 0;
  static_sessions = [];
  addresses = [];
  addresses_used = 0;
}
