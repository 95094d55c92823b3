-- ===== src/Gui/Tests.antt =====
-- A screen dropped near another, and instances of the theorems on where it comes to rest.
use smkvm.Base.{true, ◌≡◌, refl, [], ◌∷◌, arith}
use smkvm.Base.Int.{pos, ◌+ℤ◌, ◌-ℤ◌}
use smkvm.Base.I32
use smkvm.Layout.Model.{Point, Rect}
use smkvm.Layout.Geometry.{overlaps}
use smkvm.Layout.Geometry.Points.{IsSane}
use smkvm.Layout.Tests.{screen}
use smkvm.Gui.Snap.{
  snap, settle, is_clear, at, along, best_of, try_all, try_pull, pulls, is_better, comes_before,
}
use smkvm.Gui.Snap.Clear.{HasSlack, snap-is_clear, settle-is_clear}

-- Five to the right of the screen's edge, and three lower.
abbrev dropped : Rect
dropped = record { x = pos 105; y = pos 3; w = pos 60; h = pos 40 }

abbrev before : Point
before = record { x = pos 300; y = pos 0 }

dropped_snaps : snap dropped (screen ∷ []) (pos 20) ≡ record { x = pos 100; y = pos 0 }
unfolding snap along best_of try_all try_pull pulls is_better comes_before I32.add
    I32.saturating_add I32.wrap ◌+ℤ◌ ◌-ℤ◌
dropped_snaps = refl

dropped-IsSane : IsSane dropped
unfolding ◌+ℤ◌
dropped-IsSane = ground arith

slack_x : HasSlack 20 (pos 105) (pos 60)
unfolding ◌+ℤ◌ ◌-ℤ◌
slack_x = ground arith

slack_y : HasSlack 20 (pos 3) (pos 40)
unfolding ◌+ℤ◌ ◌-ℤ◌
slack_y = ground arith

dropped-is_clear : is_clear dropped (screen ∷ []) ≡ true
unfolding is_clear overlaps I32.add I32.wrap ◌+ℤ◌
dropped-is_clear = refl

before-is_clear : is_clear (at before dropped) (screen ∷ []) ≡ true
unfolding is_clear at overlaps I32.add I32.wrap ◌+ℤ◌
before-is_clear = refl

snap-is_clear_example :
    is_clear (at (snap dropped (screen ∷ []) (pos 20)) dropped) (screen ∷ []) ≡ true
snap-is_clear_example =
    snap-is_clear dropped (pos 20) dropped-IsSane refl slack_x slack_y (ground arith) (screen ∷ [])
      dropped-is_clear

settle-is_clear_example :
    (is_clear (at (settle dropped (screen ∷ []) (pos 20) before) dropped) (screen ∷ []) ≡ true)
    × (is_clear dropped (screen ∷ []) ≡ true
        → settle dropped (screen ∷ []) (pos 20) before ≡ snap dropped (screen ∷ []) (pos 20))
settle-is_clear_example =
    settle-is_clear dropped (pos 20) dropped-IsSane refl slack_x slack_y (ground arith)
      (screen ∷ []) before before-is_clear
