-- ===== src/Core/Joined/Follows.antt =====
-- crates/smkvm-core: a client and the server over one step of the server.
use smkvm.Base.{if◌then◌else◌, true, List, ◌≡◌, refl, Option-cases, Bool-cases, inl, inr}
use smkvm.Base.Equality.{◌==◌, ==_iff, nat_eq}
use smkvm.Layout.Model.{DeviceId, Point, Located}
use smkvm.Layout.Geometry.{Float, clamp_point, point_eq}
use smkvm.Layout.Resolve.{locate}
use smkvm.Proto.Msg.{ServerControl, leave, enter}
use smkvm.Core.Server.State.{Action, Server}
use smkvm.Core.Server.Pointer.{
  deliver_position, cross_to, is_captured, own_cell, put_cursor, stop_at_edge,
}
use smkvm.Core.Server.Routed.{SameHolder}
use smkvm.Proto.Keys.{key_eq, button_eq}
use smkvm.Input.Inject.{Inject, IsObedient}
use smkvm.Input.Logged.{Item, logged}
use smkvm.Core.Client
use smkvm.Core.Client.Session.{said, is_typed}
use smkvm.Core.Client.{Client}
use smkvm.Core.Joined.{
  feed, Follows, Settles, Settles-refl, Settles-after, handle-Settles, Calm, Calm-refl,
  Follows-Calm, handle-move_to-Calm,
}
use smkvm.Core.Joined.Told.{enter-Mirrors}

module _ (f : Float) (J : Inject) (o : IsObedient J) (i : Item) (d : DeviceId) where
  pub deliver_position-Calm :
      (located : Located) (s : Server) (c : Client (logged J))
      → Calm J o i d c (feed (logged J) d (deliver_position located s) c)
  unfolding deliver_position feed
  deliver_position-Calm located s c = elim (Bool-cases (located.device == s.local)) [
    | inl e ↦ elim (Bool-cases (is_captured s.mode)) [
      | inl m ↦ rw (e, m) (Calm-refl J o i d c)
      | inr m ↦ rw (e, m) (Calm-refl J o i d c)
    ]
    | inr e ↦ elim (Bool-cases (located.device == d)) [
      | inl m ↦ rw (e, m) (handle-move_to-Calm J o i d located.local.x located.local.y c)
      | inr m ↦ rw (e, m) (Calm-refl J o i d c)
    ]
  ]

  pub put_cursor-Calm :
      (at : Point) (s : Server) (c : Client (logged J))
      → Calm J o i d c (feed (logged J) d (put_cursor f at s).1 c)
  unfolding put_cursor feed
  put_cursor-Calm at s c = elim (Option-cases (locate f at s.layout)) [
    | inl e ↦ rw (e, put_cursor) (Calm-refl J o i d c)
    | inr (l, e) ↦ rw (e, put_cursor) (deliver_position-Calm l s c)
  ]

  pub stop_at_edge-Calm :
      (beyond : Point) (s : Server) (c : Client (logged J))
      → Calm J o i d c (feed (logged J) d (stop_at_edge f beyond s).1 c)
  unfolding stop_at_edge feed
  stop_at_edge-Calm beyond s c = elim (Option-cases (own_cell s)) [
    | inl e ↦ rw (e, stop_at_edge) (Calm-refl J o i d c)
    | inr (own, e) ↦ elim (Bool-cases (clamp_point own.global beyond == s.cursor)) [
      | inl h ↦ rw (e, stop_at_edge, h) (Calm-refl J o i d c)
      | inr h ↦ rw (e, stop_at_edge, h) (put_cursor-Calm (clamp_point own.global beyond) s c)
    ]
  ]

  -- Whoever gets the cursor has down what the server has.
  cross_to-Follows :
      (target : DeviceId) (global : Point) (located : Located) (s : Server) (c : Client (logged J))
      → Follows J o i d
          (cross_to target global located s).0
          (feed (logged J) d (cross_to target global located s).1 c)
  unfolding cross_to feed
  cross_to-Follows target global located s c = elim (Bool-cases (target == s.local)) [
    | inl e ↦ rw e (λ at away. absurd (let g = rw at at e in cc))
    | inr e ↦ rw e (λ at away.
        let here_too : (target == d) ≡ true = (==_iff target d).1 at in
        elim (Bool-cases (s.active == s.local)) [
          | inl a ↦ rw (a, here_too) (enter-Mirrors J o i d located.local s c)
          | inr a ↦ rw (a, here_too) (enter-Mirrors J o i d located.local s _)
        ])
  ]

  -- One message to some machine.
  told :
      (to : DeviceId) (msg : ServerControl) (c : Client (logged J))
      → is_typed (logged J) i (said msg) c ≡ true
      → Settles J o i d c (if to == d then (Client.handle (logged J) msg c).0 else c)
  told to msg c h = elim (Bool-cases (to == d)) [
    | inl e ↦ rw e (handle-Settles J o i d msg c h)
    | inr e ↦ rw e (Settles-refl J o i d c)
  ]

  cross_to-Settles :
      (target : DeviceId) (global : Point) (located : Located) (s : Server) (c : Client (logged J))
      → Settles J o i d c (feed (logged J) d (cross_to target global located s).1 c)
  unfolding cross_to feed is_typed
  cross_to-Settles target global located s c =
      let left = (Client.handle (logged J) leave c).0 in
      let after_leave = if s.active == d then left else c in
      let enters = enter located.local s.keys s.buttons in
      let gone = told s.active leave c refl in
      elim (Bool-cases (target == s.local)) [
        | inl e ↦ elim (Bool-cases (s.active == s.local)) [
          | inl a ↦ rw (e, a) (Settles-refl J o i d c)
          | inr a ↦ rw (e, a) gone
        ]
        | inr e ↦ elim (Bool-cases (s.active == s.local)) [
          | inl a ↦ rw (e, a) (told target enters c refl)
          | inr a ↦
              rw (e, a)
                (Settles-after J o i d c after_leave
                  (if target == d
                    then (Client.handle (logged J) enters after_leave).0
                    else after_leave)
                  gone (told target enters after_leave refl))
        ]
      ]

  -- What a step makes of the server and the client.
  abbrev pub Joins : Client (logged J) → Server × List Action → Type 0
  Joins c r =
      Follows J o i d r.0 (feed (logged J) d r.1 c) × Settles J o i d c (feed (logged J) d r.1 c)

  pub cross_to-Joins :
      (target : DeviceId) (global : Point) (located : Located) (s : Server) (c : Client (logged J))
      → Joins c (cross_to target global located s)
  cross_to-Joins target global located s c =
      (cross_to-Follows target global located s c, cross_to-Settles target global located s c)

  -- A step that moves nothing but the cursor.
  pub Calm-Joins :
      (s : Server) (r : Server × List Action) (c : Client (logged J))
      → SameHolder s r.0
      → Calm J o i d c (feed (logged J) d r.1 c)
      → Follows J o i d s c
      → Joins c r
  Calm-Joins s r c same calm h =
      (Follows-Calm J o i d s r.0 c (feed (logged J) d r.1 c) same calm h, calm.2)
