-- ===== src/Core/Joined/Tests.antt =====
-- A run of the server with a client, and the instance of their theorem.
use smkvm.Base.{ℕ, true, false, ◌≡◌, refl, none, List, [], ◌∷◌}
use smkvm.Base.Int.{pos}
use smkvm.Base.Lists.{find}
use smkvm.Base.Equality.{nat_eq}
use smkvm.Proto.Keys.{Key, key_eq, key_ord, is_modifier, left, button_eq, button_ord}
use smkvm.Input.Board.{stiff, stiff_obeys, unnamed, empty}
use smkvm.Input.Tracked
use smkvm.Input.Logged.{a_key, logged, refused, has, holds}
use smkvm.Input.Logged.Synced.{wanted}
use smkvm.Base.Sets
use smkvm.Layout.Rational.{fractions}
use smkvm.Base.I32
use smkvm.Base.Maps
use smkvm.Layout.Geometry
use smkvm.Layout.Geometry.{offset}
use smkvm.Layout.Resolve.{resolve, snap}
use smkvm.Core.Server.Handle.{handle}
use smkvm.Core.Client
use smkvm.Core.Client.Plain.{with_log}
use smkvm.Core.Client.{Client, arrive, note, deliverable}
use smkvm.Core.Server.State.{Event, Server, new, pointer_by, client_up, client_monitors}
use smkvm.Core.Server.Tests.{alone, at_once}
use smkvm.Layout.Tests.{whole}
use smkvm.Core.Joined.{feed}
use smkvm.Core.Joined.Sessions.{run, is_ordinary, all_ordinary, holds-run}

abbrev ctrl : Key
ctrl = record { usage = 0xE0 }

abbrev fresh : Client stiff
fresh = record {
  input = record { inner = empty; keys = []; buttons = [] };
  active = false;
  suspended = none;
  refused = none;
}

-- Ctrl and a key that the laptop refuses go down at the server's machine, the pointer goes to the laptop, and a button goes down.
abbrev chord : List (Event × ℕ)
chord =
    (client_up 2 "laptop", 1)
    ∷ (client_monitors 2 (whole ∷ []), 2)
    ∷ (Event.key ctrl true false, 3)
    ∷ (Event.key unnamed true false, 3)
    ∷ (pointer_by (pos 150) (pos 5), 4)
    ∷ (Event.button left true, 5)
    ∷ []

abbrev desk_server : Server
desk_server = new 1 "desk" alone at_once

-- The laptop has the cursor at the end, and refused one key.
chord_refused :
    ((run fractions (logged stiff) 2 chord (desk_server, with_log stiff fresh)).0.active ≡ 2)
    × (refused stiff
          (a_key unnamed)
          true
          (run fractions (logged stiff) 2 chord (desk_server, with_log stiff fresh)).1.input.inner
        ≡ true)
unfolding run handle resolve find snap new Maps.get Geometry.contains I32.add offset
    I32.saturating_add Maps.insert Client.handle arrive note deliverable Tracked.new Tracked.key
    Tracked.button Tracked.flush Tracked.sync Tracked.flushed Tracked.release_unwanted
    Tracked.release_unwanted_buttons Tracked.press_missing Tracked.press_missing_buttons
    Tracked.set_keys Tracked.set_buttons Tracked.release_order Tracked.press_order
    Tracked.release_all Tracked.release_buttons is_modifier Tracked.move_to Sets.insert Sets.remove
    Sets.collect feed
chord_refused = (refl, refl)

holds-run_example :
    ((run fractions stiff 2 chord (desk_server, fresh)).1.active ≡ true)
    × (has stiff (a_key ctrl) (run fractions stiff 2 chord (desk_server, fresh)).1.input
        ≡ wanted stiff stiff_obeys
            (a_key ctrl)
            (run fractions stiff 2 chord (desk_server, fresh)).0.keys
            (run fractions stiff 2 chord (desk_server, fresh)).0.buttons)
    × (holds stiff stiff_obeys
          (a_key ctrl)
          (run fractions stiff 2 chord (desk_server, fresh)).1.input.inner
        ≡ wanted stiff stiff_obeys
            (a_key ctrl)
            (run fractions stiff 2 chord (desk_server, fresh)).0.keys
            (run fractions stiff 2 chord (desk_server, fresh)).0.buttons)
unfolding is_ordinary all_ordinary run handle resolve find snap new Maps.get Geometry.contains
    I32.add offset I32.saturating_add Maps.insert Client.handle arrive note deliverable Tracked.new
    Tracked.key Tracked.button Tracked.flush Tracked.sync Tracked.flushed Tracked.release_unwanted
    Tracked.release_unwanted_buttons Tracked.press_missing Tracked.press_missing_buttons
    Tracked.set_keys Tracked.set_buttons Tracked.release_order Tracked.press_order
    Tracked.release_all Tracked.release_buttons is_modifier Tracked.move_to Sets.insert Sets.remove
    Sets.collect feed
holds-run_example =
    holds-run fractions stiff stiff_obeys (a_key ctrl) 2 chord desk_server fresh refl refl refl refl
      refl refl refl refl
