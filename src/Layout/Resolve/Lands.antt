-- ===== src/Layout/Resolve/Lands.antt =====
-- crates/smkvm-layout/src/resolve.rs: a resolved cursor is on a live screen.
use smkvm.Base.{
  ℕ, true, false, not, ◌&&◌, eqb, ◌≡◌, ◌≢◌, ◌∙◌, refl, if◌then◌else◌, Option-cases, Bool-cases, inl,
  inr, Option, none, some, List, [],
}
use smkvm.Base.Equality.{◌==◌}
use smkvm.Base.Equality.{◌==◌, nat_eq}
use smkvm.Base.Int.{ℤ, pos, int_eq}
use smkvm.Base.I32
use smkvm.Base.Lists.{
  retain, any, find, find_holds, All-find, enumerate, enumerate_nil, min_by-none, All_image, All,
  All_both, All-map, All-retain, All-enumerate, All-min_by,
}
use smkvm.Base.Members.{Member, All_Members}
use smkvm.Layout.Model.{DeviceId, Point, Rect, EdgeOverflow, clamp, block, Cell, Layout}
use smkvm.Layout.Geometry.{
  point_eq, Float, segment_exit, Dir, is_horizontal, contains, clamp_point, offset, perp_span,
  is_empty, Exit,
}
use smkvm.Layout.Geometry.Points.{IsSane, contains-clamp_point, contains-map_point}
use smkvm.Layout.Desktop.{cells}
use smkvm.Layout.Desktop.Cells.{cells-IsShown}
use smkvm.Layout.Resolve.{
  Motion, device_of, beyond_cells, is_beyond, off_line, aligned_cell, target_cell, nearest_hole,
  is_nearer, entry_point, entry_at, is_other, locate_in, finish, settle, slide, through_edge,
  off_screen, current, nearest_index, resolve,
}

-- A screen with room, whose edges are within an `i32`.
abbrev pub IsUsable : Cell → Type 0
IsUsable c =
    (IsSane c.global × (is_empty c.global ≡ false)) × (IsSane c.local × (is_empty c.local ≡ false))

module _ (f : Float) (screens : List Cell) where
  -- The motion ends on one of the screens, and says where on it, whether it left the machine `from`,
  -- and whether it ended elsewhere than at `cand`.
  abbrev pub Lands : Point → Option DeviceId → Motion → Type 0
  Lands cand from m =
      (c : Cell) × Member c screens
      × (contains c.global m.global ≡ true)
      × (m.located ≡ locate_in f c m.global)
      × (contains c.local m.located.local ≡ true)
      × (m.crossed_device ≡ is_other c.device from)
      × (m.adjusted ≡ not (m.global == cand))

  abbrev pub IsScreen : Cell → Type 0
  IsScreen c = Member c screens × IsUsable c

  finish-Lands :
      (c : Cell) (p cand : Point) (from : Option DeviceId)
      → IsScreen c
      → contains c.global p ≡ true
      → Lands cand from (finish f c p cand from)
  unfolding finish locate_in
  finish-Lands c p cand from s h =
      (c, s.0, h, refl, contains-map_point f c.global c.local p s.1.1.0 s.1.1.1, refl, refl)

  settle-Lands :
      (c : Cell) (cand : Point) (from : Option DeviceId)
      → IsScreen c
      → Lands cand from (settle f c cand from)
  unfolding settle
  settle-Lands c cand from s =
      finish-Lands c (clamp_point c.global cand) cand from s
        (contains-clamp_point c.global cand s.1.0.0 s.1.0.1)

  enter-Lands :
      (c : Cell) (coord : ℤ) (dir : Dir) (cand : Point) (from : Option DeviceId)
      → IsScreen c
      → Lands cand from (finish f c (entry_point c coord dir) cand from)
  unfolding entry_point
  enter-Lands c coord dir cand from s =
      finish-Lands c (entry_point c coord dir) cand from s
        (contains-clamp_point c.global (entry_at c coord dir) s.1.0.0 s.1.0.1)

  slide-Lands :
      (cur : Cell) (dir : Dir) (coord : ℤ) (cand : Point) (from : Option DeviceId)
      (reserved : List Rect) (beyond : List Cell)
      → IsScreen cur
      → All IsScreen beyond
      → Lands cand from (slide f cur dir coord cand from reserved beyond)
  unfolding slide target_cell
  slide-Lands cur dir coord cand from reserved beyond s all =
      elim (Option-cases (target_cell cur dir coord beyond)) [
        | inl e ↦ rw (e, slide) (settle-Lands cur cand from s)
        | inr (c, e) ↦
            let t = All-min_by IsScreen _ beyond c e all in
            let span = perp_span c.global dir in
            let at = I32.clamp coord span.0 (I32.sub span.1 (pos 1)) in
            rw (e, slide)
              (elim (Bool-cases
                (is_nearer (nearest_hole cur dir coord reserved) (off_line coord dir c))) [
                  | inl b ↦ rw b (settle-Lands cur cand from s)
                  | inr b ↦ rw b (enter-Lands c at dir cand from t)
                ])
      ]

  through_edge-Lands :
      (cur : Cell) (exit : Exit) (cand : Point) (from : Option DeviceId) (beyond : List Cell)
      (l : Layout)
      → IsScreen cur
      → All IsScreen beyond
      → Lands cand from (through_edge f cur exit cand from beyond l)
  unfolding through_edge aligned_cell
  through_edge-Lands cur exit cand from beyond l s all =
      let coord : ℤ = if is_horizontal exit.dir then exit.at.y else exit.at.x in
      elim (Option-cases (aligned_cell cur exit.dir coord beyond)) [
        | inr (c, e) ↦
            let in_line =
              All-retain IsScreen IsScreen (λ c. off_line coord exit.dir c == pos 0) beyond
                (λ c t h. h) all in
            let t = All-min_by IsScreen _ _ c e in_line in
            rw (e, through_edge) (enter-Lands c coord exit.dir cand from t)
        | inl e ↦
            rw (e, through_edge)
              (elim (Bool-cases (any (λ r. contains r cand) l.reserved)) [
                | inl b ↦ rw b (settle-Lands cur cand from s)
                | inr b ↦ rw b (overflow l.edge_overflow coord)
              ])
      ]
    where
      overflow :
          (o : EdgeOverflow) (coord : ℤ)
          → Lands cand from (elim o [
            | block ↦ settle f cur cand from
            | clamp ↦ slide f cur exit.dir coord cand from l.reserved beyond
          ])
      overflow block coord = settle-Lands cur cand from s
      overflow clamp coord = slide-Lands cur exit.dir coord cand from l.reserved beyond s all

  beyond-IsScreen :
      (cur : ℕ × Cell) (dir : Dir) (cs : List (ℕ × Cell))
      → All (λ (c : ℕ × Cell). IsScreen (c.1)) cs
      → All IsScreen (beyond_cells cur dir cs)
  unfolding beyond_cells
  beyond-IsScreen cur dir cs all =
      let passes = λ (c : ℕ × Cell). not (eqb c.0 cur.0) && is_beyond cur.1 c.1 dir in
      All_image IsScreen (λ (c : ℕ × Cell). c.1) (retain passes cs)
        (All-retain (λ (c : ℕ × Cell). IsScreen (c.1)) (λ (c : ℕ × Cell). IsScreen (c.1)) passes cs
          (λ c t h. h) all)

  off_screen-Lands :
      (cur : ℕ × Cell) (at cand : Point) (from : Option DeviceId) (l : Layout)
      → IsScreen cur.1
      → All (λ (c : ℕ × Cell). IsScreen (c.1)) (enumerate 0 (cells l))
      → Lands cand from (off_screen f cur at cand from l)
  unfolding off_screen
  off_screen-Lands cur at cand from l s all =
      elim (Option-cases (segment_exit f cur.1.global (clamp_point cur.1.global at) cand)) [
        | inl e ↦ rw (e, off_screen) (settle-Lands cur.1 cand from s)
        | inr (exit, e) ↦
            rw (e, off_screen)
              (through_edge-Lands cur.1 exit cand from _ l s
                (beyond-IsScreen cur exit.dir (enumerate 0 (cells l)) all))
      ]

current-none : (f : Float) (p : Point) (cs : List (ℕ × Cell)) → current f p cs ≡ none → cs ≡ []
unfolding current nearest_index
current-none f p cs h = elim (Option-cases (find (λ c. contains c.1.global p) cs)) [
  | inl e ↦ min_by-none _ cs (rw (e, current) at h)
  | inr (c, e) ↦ absurd (let g = rw (e, current) at h in cc)
]

-- Every cell has sane rectangles.
abbrev pub HasSaneCells : Layout → Type 0
HasSaneCells l = All (λ (c : Cell). IsSane (c.global) × IsSane (c.local)) (cells l)

module _ (f : Float) (l : Layout) (sane : HasSaneCells l) where
  pub screens-IsScreen : All (IsScreen f (cells l)) (cells l)
  screens-IsScreen =
      All_both (λ c. Member c (cells l)) IsUsable (cells l) (All_Members (cells l))
        (All-map _ _ (λ c h. ((h.0.0, h.1.9), (h.0.1, h.1.10))) (cells l)
          (All_both _ _ (cells l) sane (cells-IsShown l)))

  current-IsScreen :
      (from : Point) (cur : ℕ × Cell)
      → current f from (enumerate 0 (cells l)) ≡ some cur
      → IsScreen f (cells l) cur.1
  unfolding current nearest_index
  current-IsScreen from cur h =
      let all = All-enumerate (IsScreen f (cells l)) 0 (cells l) screens-IsScreen in
      elim (Option-cases (find (λ c. contains c.1.global from) (enumerate 0 (cells l)))) [
        | inl e ↦ All-min_by (λ c. IsScreen f (cells l) (c.1)) _ _ cur (nearest e) all
        | inr (c, e) ↦ All-find (λ c. IsScreen f (cells l) (c.1)) _ _ cur (held c e) all
      ]
    where
      nearest :
          find (λ c. contains c.1.global from) (enumerate 0 (cells l)) ≡ none
          → nearest_index f from (enumerate 0 (cells l)) ≡ some cur
      nearest e = let g = h in rw (e, current) at g

      held :
          (c : ℕ × Cell)
          → find (λ c. contains c.1.global from) (enumerate 0 (cells l)) ≡ some c
          → find (λ c. contains c.1.global from) (enumerate 0 (cells l)) ≡ some cur
      held c e = let g = h in e ∙ (rw (e, current) at g)

  -- There is always somewhere for the cursor to be, if there is any screen: on the desktop's screens, if
  -- their edges are within an `i32`, each motion resolves, to a point on a live screen, and the
  -- place reported is on that screen in its machine's own coordinates. The motion is said to cross
  -- if that machine is not the one it came from, and to be adjusted if it ends elsewhere than the
  -- pointer went.
  pub resolve-Lands :
      (from : Point) (dx dy : ℤ)
      → cells l ≢ []
      → (m : Motion) × (resolve f from dx dy l ≡ some m)
        × Lands f
            (cells l)
            (offset from dx dy)
            (device_of (find (λ c. contains c.global from) (cells l)))
            m
  unfolding resolve
  resolve-Lands from dx dy some_screen =
      let cand = offset from dx dy in
      let from_device = device_of (find (λ c. contains c.global from) (cells l)) in
      elim (Option-cases (find (λ c. contains c.global cand) (cells l))) [
        | inr (c, e) ↦ (
          finish f c cand cand from_device,
          rw (e, resolve) refl,
          finish-Lands f (cells l) c cand cand from_device
              (All-find (IsScreen f (cells l)) _ _ c e screens-IsScreen)
              (find_holds (λ c. contains c.global cand) (cells l) c e),
        )
        | inl e ↦ elim (Option-cases (current f from (enumerate 0 (cells l)))) [
          | inl n ↦ absurd (some_screen (enumerate_nil 0 (cells l) (current-none f from _ n)))
          | inr (cur, n) ↦ (
            off_screen f cur from cand from_device l,
            rw (e, resolve, n) refl,
            off_screen-Lands f (cells l) cur from cand from_device l (current-IsScreen from cur n)
                (All-enumerate (IsScreen f (cells l)) 0 (cells l) screens-IsScreen),
          )
        ]
      ]
