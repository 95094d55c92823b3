-- ===== src/Core/Server/Tests.antt =====
-- Runs of the server on the desktop of two machines, and instances of its theorems.
use smkvm.Base.{inl, inr, ap, sym, ◌∙◌, arith, true, false, ◌≡◌, refl, List, [], ◌∷◌}
use smkvm.Base.Int.{◌+ℤ◌, pos}
use smkvm.Base.I32
use smkvm.Base.Lists.{All, find}
use smkvm.Base.Equality.{nat_eq}
use smkvm.Base.Maps
use smkvm.Proto.Msg.{locked}
use smkvm.Layout.Geometry.{contains, offset}
use smkvm.Layout.Resolve.{resolve, snap}
use smkvm.Layout.Model.{Cell, Point, clamp, Layout}
use smkvm.Layout.Tests.{screen, beside, whole}
use smkvm.Layout.Rational.{fractions}
use smkvm.Core.Server.State.{
  Settings, Server, new, pointer_by, client_up, client_monitors, client_down, client_suspended,
  ready, captured, is_usable, primary,
}
use smkvm.Core.Server.Handle.{handle}
use smkvm.Core.Server.Invariant.{IsConsistent}
use smkvm.Core.Server.Consistent.{handle-IsConsistent}
use smkvm.Core.Server.Usable.{ActiveUsable, handle-ActiveUsable}
use smkvm.Layout.Resolve.Lands.{HasSaneCells}
use smkvm.Layout.Desktop.{cells, cells_in, cells_of}
use smkvm.Layout.Geometry.Points.{contains_iff}
use smkvm.Core.Server.Routed.{IsRouted, HasOneOwner}
use smkvm.Core.Server.Routed.Events.{handle-IsRouted}
use smkvm.Core.Server.Histories.{Step, event, configured, run, step, run-IsConsistent}

-- The desktop before the other machine is here.
abbrev pub alone : Layout
alone = record {
  edge_overflow = clamp;
  devices =
      record { id = 1; name = "desk"; monitors = whole ∷ []; online = true }
      ∷ record { id = 2; name = "laptop"; monitors = whole ∷ []; online = false }
      ∷ [];
  placements = ((1, "DP-1"), screen) ∷ ((2, "DP-1"), beside) ∷ [];
  reserved = [];
}

abbrev pub at_once : Settings
at_once = record { switch_delay = 0; switch_double_tap = 0; edge_overflow = clamp }

-- The laptop connects and the pointer goes to it; it is suspended.
abbrev visit : List Step
visit =
    event (client_up 2 "laptop") 1
    ∷ event (client_monitors 2 (whole ∷ [])) 2
    ∷ event (pointer_by (pos 150) (pos 5)) 3
    ∷ []

run-IsConsistent_example : IsConsistent (run fractions visit (new 1 "desk" alone at_once))
run-IsConsistent_example =
    run-IsConsistent fractions visit 1 "desk" alone at_once ((λ e. refl), ((λ e. cc), tt))
      ((refl, tt), (tt, tt))

-- The server while the laptop has the cursor.
abbrev away : Server
away = record (new 1 "desk" alone at_once) {
  active = 2;
  mode = captured;
  clients = (2, ready) ∷ [];
}

visit_away : (run fractions visit (new 1 "desk" alone at_once)).active ≡ 2
unfolding run step resolve find snap new Maps.get contains I32.add offset I32.saturating_add
    Maps.insert
visit_away = refl

-- The two screens change places while the laptop is suspended, and the cursor is handed to it.
abbrev swapped : List Step
swapped =
    event (client_up 2 "laptop") 1
    ∷ event (client_monitors 2 (whole ∷ [])) 2
    ∷ event (client_suspended 2 locked) 3
    ∷ configured
        (record { machine = "desk"; monitor = primary; global = beside }
          ∷ record { machine = "laptop"; monitor = primary; global = screen }
          ∷ [])
        at_once
    ∷ []

swapped_active :
    ((run fractions swapped (new 1 "desk" alone at_once)).active ≡ 2)
    × (is_usable 2 (run fractions swapped (new 1 "desk" alone at_once)) ≡ false)
unfolding run step resolve find snap new Maps.get contains I32.add offset I32.saturating_add
    Maps.insert is_usable
swapped_active = (refl, refl)

away-IsConsistent : IsConsistent away
unfolding Maps.get new find
away-IsConsistent = ((refl, refl), (((λ e. refl), ((λ e. refl), tt)), ((refl, tt), (tt, tt))))

handle-IsConsistent_example : IsConsistent (handle fractions (client_suspended 2 locked) 4 away).0
handle-IsConsistent_example =
    handle-IsConsistent fractions (client_suspended 2 locked) 4 away away-IsConsistent

away-ActiveUsable : ActiveUsable away
unfolding is_usable Maps.get new
away-ActiveUsable = refl

handle-ActiveUsable_example : ActiveUsable (handle fractions (client_down 2) 4 away).0
handle-ActiveUsable_example =
    handle-ActiveUsable fractions (client_down 2) 4 away refl away-ActiveUsable

-- Both machines are there.
abbrev together : Layout
together = record alone {
  devices =
      record { id = 1; name = "desk"; monitors = whole ∷ []; online = true }
      ∷ record { id = 2; name = "laptop"; monitors = whole ∷ []; online = true }
      ∷ [];
}

together-HasSaneCells : HasSaneCells together
unfolding cells cells_in cells_of Maps.get ◌+ℤ◌
together-HasSaneCells = ground arith

apart : (p : Point) → contains screen p ≡ true → contains beside p ≡ true → ⊥
unfolding ◌+ℤ◌
apart p h g =
    let i = (contains_iff screen p (ground arith)).0 h in
    let j = (contains_iff beside p (ground arith)).0 g in omega arith

together-HasOneOwner : HasOneOwner together
unfolding cells cells_in cells_of Maps.get
together-HasOneOwner p c d (inl e) (inl g) h k = ap (λ (c : Cell). c.device) (sym e ∙ g)
together-HasOneOwner p c d (inr (inl e)) (inr (inl g)) h k = ap (λ (c : Cell). c.device) (sym e ∙ g)
together-HasOneOwner p c d (inl e) (inr (inl g)) h k =
    absurd (apart p (rw (← e) at h) (rw (← g) at k))
together-HasOneOwner p c d (inr (inl e)) (inl g) h k =
    absurd (apart p (rw (← g) at k) (rw (← e) at h))
together-HasOneOwner p c d (inl e) (inr (inr m)) h k = elim m [ ]
together-HasOneOwner p c d (inr (inl e)) (inr (inr m)) h k = elim m [ ]
together-HasOneOwner p c d (inr (inr m)) i h k = elim m [ ]

handle-IsRouted_example :
    All
      (IsRouted
        (record away { layout = together })
        (handle fractions (pointer_by (pos 150) (pos 5)) 6 (record away { layout = together })).0)
      (handle fractions (pointer_by (pos 150) (pos 5)) 6 (record away { layout = together })).1
handle-IsRouted_example =
    handle-IsRouted fractions (pointer_by (pos 150) (pos 5)) 6 (record away { layout = together })
      together-HasSaneCells together-HasOneOwner
