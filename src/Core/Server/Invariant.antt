-- ===== src/Core/Server/Invariant.antt =====
-- crates/smkvm-core/src/server.rs: what holds between two events.
use smkvm.Base.{
  ℕ, Bool, true, not, ◌||◌, ltb, eqb, ◌-◌, ◌≡◌, refl, ◌∙◌, is_none, Option-cases, Bool-cases, inl,
  inr, none,
}
use smkvm.Base.Equality.{◌==◌, nat_eq}
use smkvm.Base.Int.{ℤ}
use smkvm.Base.Maps
use smkvm.Layout.Model.{DeviceId, Point, Located}
use smkvm.Layout.Geometry.{Float, clamp_point, point_eq}
use smkvm.Layout.Desktop.Places.{HasDistinctIds}
use smkvm.Layout.Resolve.{Motion, locate, resolve}
use smkvm.Core.Server.State.{Server, is_usable}
use smkvm.Core.Server.Pointer.{
  cross_to, is_captured, own_cell, may_cross, is_repeat, hold_at_edge, count_move, put_cursor,
  stop_at_edge, press_edge, advance, settle_pending, pointer_absolute, local_to_global,
}
use smkvm.Core.Server.Online.{OnlineKnown}

-- The server's own machine, and those that are connected.
abbrev pub is_known : Server → DeviceId → Bool
is_known s id = id == s.local || not (is_none (Maps.get id s.clients))

-- What the cursor's place says: input is captured exactly while another machine has it, and a known machine does.
abbrev pub HasCursor : Server → Type 0
HasCursor s = ((s.active == s.local) ≡ not (is_captured s.mode)) × (is_known s s.active ≡ true)

abbrev pub HasDesktop : Server → Type 0
HasDesktop s = OnlineKnown (is_known s) s.layout.devices × HasDistinctIds s.layout.devices

abbrev pub IsConsistent : Server → Type 0
IsConsistent s = HasCursor s × HasDesktop s

-- What a step that only moves the cursor leaves alone.
abbrev pub Moves : Server → Server → Type 0
Moves s t =
    (t.local ≡ s.local)
    × (t.layout ≡ s.layout)
    × (t.clients ≡ s.clients)
    × (t.active ≡ s.active)
    × (t.mode ≡ s.mode)
    × (t.keys ≡ s.keys)
    × (t.buttons ≡ s.buttons)

pub Moves-IsConsistent : (s t : Server) → Moves s t → IsConsistent s → IsConsistent t
Moves-IsConsistent s t (l, d, c, a, m, k, b) h = rw (l, d, c, a, m) h

pub cross_to-IsConsistent :
    (target : DeviceId) (global : Point) (located : Located) (s : Server)
    → is_known s target ≡ true
    → HasDesktop s
    → IsConsistent (cross_to target global located s).0
unfolding cross_to
cross_to-IsConsistent target global located s k h = elim (Bool-cases (target == s.local)) [
  | inl e ↦ rw e ((e, k), h)
  | inr e ↦ rw e ((e, k), h)
]

module _ (f : Float) where
  put_cursor-Moves : (at : Point) (s : Server) → Moves s (put_cursor f at s).0
  unfolding put_cursor
  put_cursor-Moves at s = elim (Option-cases (locate f at s.layout)) [
    | inl e ↦ rw (e, put_cursor) (refl, refl, refl, refl, refl, refl, refl)
    | inr (l, e) ↦ rw (e, put_cursor) (refl, refl, refl, refl, refl, refl, refl)
  ]

  pub stop_at_edge-Moves : (beyond : Point) (s : Server) → Moves s (stop_at_edge f beyond s).0
  unfolding stop_at_edge
  stop_at_edge-Moves beyond s = elim (Option-cases (own_cell s)) [
    | inl e ↦ rw (e, stop_at_edge) (refl, refl, refl, refl, refl, refl, refl)
    | inr (c, e) ↦ elim (Bool-cases (clamp_point c.global beyond == s.cursor)) [
      | inl b ↦ rw (e, stop_at_edge, b) (refl, refl, refl, refl, refl, refl, refl)
      | inr b ↦ rw (e, stop_at_edge, b) (put_cursor-Moves (clamp_point c.global beyond) s)
    ]
  ]

  pub may_cross-Moves :
      (target : DeviceId) (now : ℕ) (s : Server) → Moves s (may_cross target now s).0
  unfolding may_cross
  may_cross-Moves target now s = elim (Bool-cases (eqb s.settings.switch_double_tap 0)) [
    | inl a ↦ rw a (refl, refl, refl, refl, refl, refl, refl)
    | inr a ↦ elim (Bool-cases (is_repeat target now s.settings.switch_double_tap s.last_tap)) [
      | inl b ↦ rw (a, b) (refl, refl, refl, refl, refl, refl, refl)
      | inr b ↦ elim (Bool-cases (eqb s.settings.switch_delay 0)) [
        | inl c ↦ rw (a, b, c) (refl, refl, refl, refl, refl, refl, refl)
        | inr c ↦ rw (a, b, c) (refl, refl, refl, refl, refl, refl, refl)
      ]
    ]
  ]

  pub pointer_absolute-Moves : (x y : ℤ) (s : Server) → Moves s (pointer_absolute f x y s)
  unfolding pointer_absolute
  pointer_absolute-Moves x y s =
      elim (Bool-cases (is_captured s.mode || not (s.active == s.local))) [
        | inl b ↦ rw b (refl, refl, refl, refl, refl, refl, refl)
        | inr b ↦ elim (Option-cases (local_to_global f x y s)) [
          | inl e ↦ rw (b, e, pointer_absolute) (refl, refl, refl, refl, refl, refl, refl)
          | inr (p, e) ↦ rw (b, e, pointer_absolute) (refl, refl, refl, refl, refl, refl, refl)
        ]
      ]

  pub Moves-after : (s t u : Server) → Moves s t → Moves t u → Moves s u
  Moves-after s t u (l, d, c, a, m, k, b) (l2, d2, c2, a2, m2, k2, b2) =
      (l2 ∙ l, d2 ∙ d, c2 ∙ c, a2 ∙ a, m2 ∙ m, k2 ∙ k, b2 ∙ b)

  -- What holds of the server whenever the cursor moves, or crosses to a machine that may have it.
  module _ (P : Server → Type 0) (moves : (s t : Server) → Moves s t → P s → P t)
      (crosses : (target : DeviceId) (global : Point) (located : Located) (s : Server)
        → is_usable target s ≡ true
        → P s
        → P (cross_to target global located s).0) where
    press_edge_keeps :
        (m : Motion) (now : ℕ) (s : Server)
        → is_usable m.located.device s ≡ true
        → P s
        → P (press_edge f m now s).0
    unfolding press_edge hold_at_edge is_usable
    press_edge_keeps m now s u h =
        let target = m.located.device in
        let r = may_cross target now s in
        let same = may_cross-Moves target now s in
        let kept = moves s r.0 same h in
        elim (Bool-cases r.1) [
          | inl e ↦
              rw (e, press_edge)
                (crosses target m.global m.located r.0 (rw (same.0, same.2, is_usable) u) kept)
          | inr e ↦
              rw (e, press_edge)
                (moves r.0 _ (stop_at_edge-Moves m.global (hold_at_edge target m.global now r.0))
                  kept)
        ]

    pub advance_keeps : (dx dy : ℤ) (now : ℕ) (s : Server) → P s → P (advance f dx dy now s).0
    unfolding advance count_move is_usable
    advance_keeps dx dy now s h = elim (Option-cases (resolve f s.cursor dx dy s.layout)) [
      | inl e ↦ rw (e, advance) h
      | inr (m, e) ↦
          let same : Moves s (count_move s) = (refl, refl, refl, refl, refl, refl, refl) in
          elim (Bool-cases (m.located.device == s.active)) [
            | inl a ↦ rw (e, advance, a) (moves s _ (refl, refl, refl, refl, refl, refl, refl) h)
            | inr a ↦ elim (Bool-cases (is_usable m.located.device s)) [
              | inl u ↦
                  rw (e, advance, a, u)
                    (press_edge_keeps m now (count_move s) u (moves s (count_move s) same h))
              | inr u ↦
                  rw (e, advance, a, u)
                    (moves s _
                      (stop_at_edge-Moves m.global (record (count_move s) { pending = none })) h)
            ]
          ]
    ]

    pub settle_pending_keeps : (now : ℕ) (s : Server) → P s → P (settle_pending f now s).0
    unfolding settle_pending
    settle_pending_keeps now s h = elim (Option-cases s.pending) [
      | inl e ↦ rw (e, settle_pending) h
      | inr (p, e) ↦
          elim (Bool-cases
            (eqb s.settings.switch_delay 0 || ltb (now - p.since) s.settings.switch_delay)) [
              | inl a ↦ rw (e, settle_pending, a) h
              | inr a ↦ elim (Bool-cases (is_usable p.target s)) [
                | inr u ↦
                    rw (e, settle_pending, a, u)
                      (moves s _ (refl, refl, refl, refl, refl, refl, refl) h)
                | inl u ↦ elim (Option-cases (locate f p.at s.layout)) [
                  | inl n ↦
                      rw (e, settle_pending, a, u, n)
                        (moves s _ (refl, refl, refl, refl, refl, refl, refl) h)
                  | inr (l, n) ↦ rw (e, settle_pending, a, u, n) (crosses p.target p.at l s u h)
                ]
              ]
            ]
    ]
