-- ===== src/Core/Server/Histories.antt =====
-- crates/smkvm-core/src/server.rs: a server over a sequence of events and changes of configuration.
use smkvm.Base.{ℕ, false, ◌||◌, List, [], ◌∷◌, String}
use smkvm.Base.Equality.{◌==◌, nat_eq}
use smkvm.Layout.Model.{DeviceId, Layout}
use smkvm.Layout.Geometry.{Float}
use smkvm.Layout.Desktop.Places.{HasDistinctIds}
use smkvm.Core.Server.State.{Event, Placement, Settings, Server, new}
use smkvm.Core.Server.Handle.{handle, reconfigure}
use smkvm.Core.Server.Online.{OnlineKnown}
use smkvm.Core.Server.Invariant.{IsConsistent}
use smkvm.Core.Server.Consistent.{handle-IsConsistent, reconfigure-IsConsistent, new-IsConsistent}

pub data Step : Type 0 where
  event : Event → ℕ → Step
  configured : List Placement → Settings → Step

unfoldable pub step : Float → Step → Server → Server
unfolding handle reconfigure
step f (event e now) s = (handle f e now s).0
step f (configured ps settings) s = (reconfigure f ps settings s).0

unfoldable pub run : Float → List Step → Server → Server
unfolding step
run f [] s = s
run f (x ∷ xs) s = run f xs (step f x s)

run-IsConsistent_from :
    (f : Float) (steps : List Step) (s : Server) → IsConsistent s → IsConsistent (run f steps s)
unfolding run step
run-IsConsistent_from f [] s h = h
run-IsConsistent_from f (event e now ∷ xs) s h =
    run-IsConsistent_from f xs (handle f e now s).0 (handle-IsConsistent f e now s h)
run-IsConsistent_from f (configured ps settings ∷ xs) s h =
    run-IsConsistent_from f xs (reconfigure f ps settings s).0
      (reconfigure-IsConsistent f ps settings s h)

-- Over any sequence of events and changes of configuration, a server that started on a desktop of
-- which no other machine is online and no two machines have one identity is consistent: its input
-- is captured exactly while another machine has the cursor, the cursor is with its own machine or
-- with one that is connected, and the machines shown as online are its own and connected ones.
pub run-IsConsistent :
    (f : Float) (steps : List Step) (id : DeviceId) (name : String) (l : Layout)
    (settings : Settings)
    → OnlineKnown (λ j. j == id || false) l.devices
    → HasDistinctIds l.devices
    → IsConsistent (run f steps (new id name l settings))
run-IsConsistent f steps id name l settings a h =
    run-IsConsistent_from f steps (new id name l settings) (new-IsConsistent id name l settings a h)
