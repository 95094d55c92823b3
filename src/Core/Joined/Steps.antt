-- ===== src/Core/Joined/Steps.antt =====
-- crates/smkvm-core: what the handlers of the server make of the server and a client.
use smkvm.Base.{
  false, sym, ◌∙◌, ℕ, ◌||◌, ltb, eqb, ◌-◌, ◌≡◌, refl, Option-cases, Bool-cases, inl, inr, none,
}
use smkvm.Base.Equality.{◌==◌, ==_iff, nat_eq}
use smkvm.Base.Int.{ℤ}
use smkvm.Base.Lists.{find}
use smkvm.Layout.Model.{DeviceId, Point}
use smkvm.Layout.Geometry.{Float, point_eq}
use smkvm.Layout.Desktop.{cells}
use smkvm.Layout.Resolve.{Motion, locate, snap, resolve}
use smkvm.Proto.Msg.{ServerControl}
use smkvm.Core.Server.State.{Server, is_usable}
use smkvm.Core.Server.Pointer.{
  deliver_position, may_cross, hold_at_edge, count_move, stop_at_edge, press_edge, advance,
  settle_pending, recall_cursor, resettle, centre,
}
use smkvm.Core.Server.Handle.{to_active, recall_from}
use smkvm.Core.Server.Invariant.{stop_at_edge-Moves, Moves, Moves-after, may_cross-Moves}
use smkvm.Core.Server.Routed.{IsAway, same_holder}
use smkvm.Proto.Keys.{key_eq, button_eq}
use smkvm.Input.Inject.{Inject, IsObedient}
use smkvm.Input.Logged.{Item, logged}
use smkvm.Core.Client
use smkvm.Core.Client.{Client}
use smkvm.Core.Joined.{feed, Mirrors, Follows, Settles, Settles-refl}
use smkvm.Core.Joined.Follows.{
  Joins, Calm-Joins, cross_to-Joins, deliver_position-Calm, stop_at_edge-Calm,
}

module _ (f : Float) (J : Inject) (o : IsObedient J) (i : Item) (d : DeviceId) where
  stop_at_edge-Joins :
      (beyond : Point) (s t : Server) (c : Client (logged J))
      → Moves s t
      → Follows J o i d s c
      → Joins f J o i d c (stop_at_edge f beyond t)
  stop_at_edge-Joins beyond s t c same h =
      let r = stop_at_edge f beyond t in
      Calm-Joins f J o i d s r c
        (same_holder s r.0 (Moves-after f s t r.0 same (stop_at_edge-Moves f beyond t)))
        (stop_at_edge-Calm f J o i d beyond t c) h

  press_edge-Joins :
      (m : Motion) (now : ℕ) (s t : Server) (c : Client (logged J))
      → Moves s t
      → Follows J o i d s c
      → Joins f J o i d c (press_edge f m now t)
  unfolding press_edge hold_at_edge
  press_edge-Joins m now s t c same h =
      let target = m.located.device in
      let r = may_cross target now t in
      let all = Moves-after f s t r.0 same (may_cross-Moves f target now t) in
      elim (Bool-cases r.1) [
        | inl e ↦ rw (e, press_edge) (cross_to-Joins f J o i d target m.global m.located r.0 c)
        | inr e ↦
            rw (e, press_edge)
              (stop_at_edge-Joins m.global s (hold_at_edge target m.global now r.0) c all h)
      ]

  pub advance-Joins :
      (dx dy : ℤ) (now : ℕ) (s : Server) (c : Client (logged J))
      → Follows J o i d s c
      → Joins f J o i d c (advance f dx dy now s)
  unfolding advance count_move feed
  advance-Joins dx dy now s c h = elim (Option-cases (resolve f s.cursor dx dy s.layout)) [
    | inl e ↦ rw (e, advance) (h, Settles-refl J o i d c)
    | inr (m, e) ↦
        let same : Moves s (count_move s) = (refl, refl, refl, refl, refl, refl, refl) in
        elim (Bool-cases (m.located.device == s.active)) [
          | inl a ↦
              rw (e, advance, a)
                (Calm-Joins f J o i d s
                  (
                    record (count_move s) { pending = none; cursor = m.global },
                    deliver_position m.located (count_move s),
                  )
                  c (refl, refl, refl, refl)
                  (deliver_position-Calm f J o i d m.located (count_move s) c) h)
          | inr a ↦ elim (Bool-cases (is_usable m.located.device s)) [
            | inl u ↦ rw (e, advance, a, u) (press_edge-Joins m now s (count_move s) c same h)
            | inr u ↦
                rw (e, advance, a, u)
                  (stop_at_edge-Joins m.global s (record (count_move s) { pending = none }) c same
                    h)
          ]
        ]
  ]

  pub settle_pending-Joins :
      (now : ℕ) (s : Server) (c : Client (logged J))
      → Follows J o i d s c
      → Joins f J o i d c (settle_pending f now s)
  unfolding settle_pending feed
  settle_pending-Joins now s c h = elim (Option-cases s.pending) [
    | inl e ↦ rw (e, settle_pending) (h, Settles-refl J o i d c)
    | inr (p, e) ↦
        elim (Bool-cases
          (eqb s.settings.switch_delay 0 || ltb (now - p.since) s.settings.switch_delay)) [
            | inl a ↦ rw (e, settle_pending, a) (h, Settles-refl J o i d c)
            | inr a ↦ elim (Bool-cases (is_usable p.target s)) [
              | inr u ↦ rw (e, settle_pending, a, u) (h, Settles-refl J o i d c)
              | inl u ↦ elim (Option-cases (locate f p.at s.layout)) [
                | inl n ↦ rw (e, settle_pending, a, u, n) (h, Settles-refl J o i d c)
                | inr (l, n) ↦
                    rw (e, settle_pending, a, u, n) (cross_to-Joins f J o i d p.target p.at l s c)
              ]
            ]
          ]
  ]

  pub resettle-Joins :
      (s : Server) (c : Client (logged J)) → Follows J o i d s c → Joins f J o i d c (resettle f s)
  unfolding resettle feed
  resettle-Joins s c h = elim (Option-cases (snap f s.cursor s.layout)) [
    | inl e ↦ rw (e, resettle) (h, Settles-refl J o i d c)
    | inr ((p, located), e) ↦ elim (Bool-cases (located.device == s.active)) [
      | inl a ↦ rw (e, resettle, a) (h, Settles-refl J o i d c)
      | inr a ↦
          rw (e, resettle, a)
            (cross_to-Joins f J o i d located.device p located (record s { cursor = p }) c)
    ]
  ]

  -- Where the cursor comes back, no other machine has it.
  recall_cursor-Joins : (s : Server) (c : Client (logged J)) → Joins f J o i d c (recall_cursor f s)
  unfolding recall_cursor feed
  recall_cursor-Joins s c = elim (Option-cases (find (λ c. c.device == s.local) (cells s.layout))) [
    | inl e ↦ rw (e, recall_cursor) ((λ at away. absurd (never at away)), Settles-refl J o i d c)
    | inr (home, e) ↦
        rw (e, recall_cursor)
          (
            (λ at away. absurd (never at away)),
            elim (Option-cases (locate f (centre f home) s.layout)) [
              | inl n ↦ rw n (Settles-refl J o i d c)
              | inr (l, n) ↦ rw n (Settles-refl J o i d c)
            ],
          )
  ]
    where
      never : s.local ≡ d → (d == s.local) ≡ false → ⊥
      never at away = let g = (==_iff d s.local).1 (sym at) in cc

  pub recall_from-Joins :
      (id : DeviceId) (s : Server) (c : Client (logged J))
      → Follows J o i d s c
      → Joins f J o i d c (recall_from f id s)
  unfolding recall_from feed
  recall_from-Joins id s c h = elim (Bool-cases (s.active == id)) [
    | inl e ↦ rw e (recall_cursor-Joins s c)
    | inr e ↦ rw e (h, Settles-refl J o i d c)
  ]

  -- A message to the machine that has the cursor.
  pub to_active-Joins :
      (msg : ServerControl) (s t : Server) (c : Client (logged J))
      → t.local ≡ s.local
      → t.active ≡ s.active
      → (s.active ≡ d
          → IsAway s d
          → Mirrors J o i d t (Client.handle (logged J) msg c).0
            × Settles J o i d c (Client.handle (logged J) msg c).0)
      → Joins f J o i d c (t, to_active msg s)
  unfolding feed
  to_active-Joins msg s t c l a h = elim (Bool-cases (s.active == s.local)) [
    | inl e ↦ rw e (
      (λ at away. absurd (
          let g : s.active ≡ s.local = (==_iff s.active s.local).0 e in
          let k : d ≡ s.local = sym (sym a ∙ at) ∙ g in
          let q = (==_iff d s.local).1 k in let away2 = rw l at away in cc)),
      Settles-refl J o i d c,
    )
    | inr e ↦ elim (Bool-cases (s.active == d)) [
      | inl m ↦
          let at2 : s.active ≡ d = (==_iff s.active d).0 m in
          let away2 : IsAway s d = rw at2 at e in
          let both = h at2 away2 in rw (e, m) ((λ at away. both.0), both.1)
      | inr m ↦
          rw (e, m)
            (
              (λ at away. absurd (let g = (==_iff s.active d).1 (sym a ∙ at) in cc)),
              Settles-refl J o i d c,
            )
    ]
  ]
