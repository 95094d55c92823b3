-- ===== src/Core/Client/Kept.antt =====
-- crates/smkvm-core/src/client.rs: one step of a client, and the record of what is held.
use smkvm.Base.{sym, ◌∙◌, Bool, false, ◌≡◌, inl, inr, Option-cases, Bool-cases}
use smkvm.Proto.Keys.{key_eq, button_eq}
use smkvm.Proto.Msg.{SuspendReason}
use smkvm.Input.Inject.{Inject, IsObedient}
use smkvm.Input.Tracked
use smkvm.Input.Tracked.{Tracked, on_inner}
use smkvm.Input.Logged.{Item, logged, refused}
use smkvm.Input.Logged.Keeps.{Same, Keeps}
use smkvm.Input.Logged.Loops.{on_device-Keeps}
use smkvm.Input.Logged.Released.{release_all-frees, refused-release_all}
use smkvm.Core.Client.{Client, is_reason, suspend, resume, disconnected}

module _ (J : Inject) (o : IsObedient J) where
  -- What was refused stays in the log, and the record and the device go on agreeing on an item that
  -- the platform has not refused to let go of.
  abbrev pub Agrees : Item → Tracked (logged J) → Tracked (logged J) → Type 0
  Agrees i t u =
      ((w : Bool) → refused J i w u.inner ≡ false → refused J i w t.inner ≡ false)
      × (refused J i false u.inner ≡ false → Same J o i t → Same J o i u)

  pub Keeps-Agrees : (i : Item) (t u : Tracked (logged J)) → Keeps J o i t u → Agrees i t u
  Keeps-Agrees i t u k = (k.0, λ r. k.1)

  pub Agrees-after :
      (i : Item) (t u v : Tracked (logged J)) → Agrees i t u → Agrees i u v → Agrees i t v
  Agrees-after i t u v a b = ((λ w r. a.0 w (b.0 w r)), (λ r m. b.1 r (a.1 (b.0 false r) m)))

  pub show-Keeps :
      (i : Item) (t : Tracked (logged J))
      → Keeps J o i t (on_inner (logged J) (logged J).show_cursor t).0
  show-Keeps i t =
      on_device-Keeps J o i J.show_cursor t (o.show_keys t.inner.device)
        (o.show_buttons t.inner.device)

  pub hide-Keeps :
      (i : Item) (t : Tracked (logged J))
      → Keeps J o i t (on_inner (logged J) (logged J).hide_cursor t).0
  hide-Keeps i t =
      on_device-Keeps J o i J.hide_cursor t (o.hide_keys t.inner.device)
        (o.hide_buttons t.inner.device)

  pub released :
      (i : Item) (t : Tracked (logged J)) → Agrees i t (Tracked.release_all (logged J) t).0
  released i t = (
    (λ w r. refused-release_all J o i w t r),
    (λ r m. let e = release_all-frees J o i t m r in e.0 ∙ sym e.1),
  )

  pub suspend-Agrees :
      (i : Item) (reason : SuspendReason) (c : Client (logged J))
      → Agrees i c.input (suspend (logged J) reason c).0.input
  unfolding suspend
  suspend-Agrees i reason c = elim (Bool-cases (is_reason reason c.suspended)) [
    | inl e ↦ rw e ((λ w r. r), (λ r m. m))
    | inr e ↦ rw e (released i c.input)
  ]

  pub resume-Agrees :
      (i : Item) (c : Client (logged J)) → Agrees i c.input (resume (logged J) c).0.input
  unfolding resume
  resume-Agrees i c = elim (Option-cases c.suspended) [
    | inl e ↦ rw e ((λ w r. r), (λ r m. m))
    | inr (r, e) ↦ rw e ((λ w r. r), (λ r m. m))
  ]

  pub disconnected-Agrees :
      (i : Item) (c : Client (logged J)) → Agrees i c.input (disconnected (logged J) c).input
  unfolding disconnected
  disconnected-Agrees i c =
      let t = (Tracked.release_all (logged J) c.input).0 in
      Agrees-after i c.input t _ (released i c.input) (Keeps-Agrees i t _ (show-Keeps i t))
