-- ===== src/Examples/Fixtures.antt =====
-- A farm with three backends, as the functions of src/farms.c and src/backends.c make them, and a
-- session.
use nftlb.Prelude.{List, [], ◌∷◌, none, some, pos}
use nftlb.Enums.{State, Action}
use nftlb.Model.{Farm, Backend, Session}
use nftlb.Farms.Create.{new_farm}
use nftlb.Backends.Create.{new_backend}

unfoldable pub base_farm : Farm
unfolding new_farm
base_farm = new_farm 1 "web"

unfoldable pub base_backend : Backend
unfolding new_backend
base_backend = new_backend 10 "bck0" []

abbrev pub up_backend : Backend
up_backend = record base_backend {
  id = 11;
  name = "bck1";
  ipaddr = some "192.0.2.1";
  port = "80";
  weight = pos 2;
  mark = 1;
  state = State.up;
}

abbrev pub down_backend : Backend
down_backend = record base_backend {
  id = 12;
  name = "bck2";
  ipaddr = some "192.0.2.2";
  port = "80";
  mark = 2;
  state = State.down;
}

abbrev pub spare_backend : Backend
spare_backend = record base_backend {
  id = 13;
  name = "bck3";
  ipaddr = some "192.0.2.3";
  mark = 3;
  priority = 2;
  state = State.avail;
}

abbrev pub pool : List Backend
pool = up_backend ∷ down_backend ∷ spare_backend ∷ []

abbrev pub web_farm : Farm
web_farm = record base_farm {
  backends = pool;
  total_bcks = 3;
  bcks_available = 1;
  bcks_usable = 1;
  total_weight = pos 2;
}

abbrev pub pinned : Session
pinned = record {
  id = 20;
  client = "203.0.113.7";
  bck = some 11;
  expiration = none;
  state = State.up;
  action = Action.none;
}
