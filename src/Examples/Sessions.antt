-- ===== src/Examples/Sessions.antt =====
-- The theorems on src/sessions.c at a farm with a pinned session.
use nftlb.Prelude.{◌+◌, ◌≡◌, refl, ◌&&◌, [], ◌∷◌, none, some, count}
use nftlb.Enums.{Action, SessionType}
use nftlb.Model.{Farm}
use nftlb.Sessions.Lists.{sessions_of, is_for}
use nftlb.Sessions.Operations.{session_create, session_s_delete, session_s_set_action}
use nftlb.Sessions.Pointwise.{after_all, changes}
use nftlb.Sessions.WellFormed.{
  IsWellFormed, other, session_s_set_action-after_all, session_s_delete_lem,
}
use nftlb.Sessions.Creation.{Created, session_create-Created}
use nftlb.Examples.Fixtures.{web_farm, base_farm, pinned}

abbrev pinned_farm : Farm
pinned_farm = record web_farm { static_sessions = pinned ∷ []; total_static_sessions = 1 }

pinned_farm-IsWellFormed : IsWellFormed pinned_farm
unfolding sessions_of base_farm
pinned_farm-IsWellFormed = elim [
  | SessionType.static ↦ (refl, (tt, tt))
  | SessionType.timed ↦ (refl, tt)
]

session_s_set_action-after_all_example :
    ((type : SessionType)
      → (sessions_of (session_s_set_action pinned_farm (some 11) Action.stop).0 type).sessions
        ≡ after_all (some 11) Action.stop (sessions_of pinned_farm type).sessions)
    × IsWellFormed (session_s_set_action pinned_farm (some 11) Action.stop).0
    × ((session_s_set_action pinned_farm (some 11) Action.stop).1
        ≡ count (λ s. is_for (some 11) s && changes Action.stop s) pinned_farm.static_sessions
          + count (λ s. is_for (some 11) s && changes Action.stop s) pinned_farm.timed_sessions)
session_s_set_action-after_all_example =
    session_s_set_action-after_all pinned_farm (some 11) Action.stop pinned_farm-IsWellFormed

session_s_delete_lem_example :
    (sessions_of (session_s_delete pinned_farm SessionType.static) SessionType.static
      ≡ record { sessions = []; total = 0 })
    × (sessions_of (session_s_delete pinned_farm SessionType.static) (other SessionType.static)
        ≡ sessions_of pinned_farm (other SessionType.static))
session_s_delete_lem_example =
    session_s_delete_lem pinned_farm SessionType.static pinned_farm-IsWellFormed

session_create-Created_example :
    Created pinned_farm SessionType.static
      (some "203.0.113.8")
      (session_create 0 21 pinned_farm SessionType.static (some "203.0.113.8") none none)
unfolding sessions_of
session_create-Created_example =
    session_create-Created 0 21 pinned_farm SessionType.static (some "203.0.113.8") none none
      pinned_farm-IsWellFormed (refl, tt)
