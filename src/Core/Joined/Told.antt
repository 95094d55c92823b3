-- ===== src/Core/Joined/Told.antt =====
-- crates/smkvm-core: what a message of the server does to one key or button of a client.
use smkvm.Base.{
  not, ◌||◌, arith, Bool, true, false, ◌≡◌, refl, ap, sym, ◌∙◌, if◌then◌else◌, Bool-cases, inl, inr,
  none,
}
use smkvm.Base.Equality.{◌==◌, ==_iff, nat_eq}
use smkvm.Base.Lists.{contains}
use smkvm.Proto.Keys.{Key, key_eq, key_ord, MouseButton, button_eq, button_ord, Scroll}
use smkvm.Proto.Msg.{enter, button, wheel, key_event}
use smkvm.Input.Inject.{Inject, IsObedient}
use smkvm.Input.Logged.{Item, a_key, a_button, logged, refused, has, is_key, is_button}
use smkvm.Input.Logged.Keeps.{button-Keeps}
use smkvm.Input.Logged.Notes.{has-inner, has-key, has-button}
use smkvm.Input.Logged.Loops.{flush-Keeps}
use smkvm.Input.Logged.Synced.{wanted, has-sync}
use smkvm.Core.Client.Session.{is_typed}
use smkvm.Core.Client.Runs.{refused-type_key, handle-Agrees}
use smkvm.Input.Tracked
use smkvm.Input.Tracked.Held.{contains_noted}
use smkvm.Layout.Model.{DeviceId, Point}
use smkvm.Core.Client.{Client, deliverable, arrive, note, disconnected}
use smkvm.Core.Client
use smkvm.Core.Server.State.{Server}
use smkvm.Core.Server.Handle.{on_key, on_button}
use smkvm.Core.Joined.{Mirrors, Settles, handle-Settles, Calm, Calm-refl}

module _ (J : Inject) (o : IsObedient J) (i : Item) (d : DeviceId) where
  pub enter-Mirrors :
      (at : Point) (s : Server) (c : Client (logged J))
      → Mirrors J o i d s (Client.handle (logged J) (enter at s.keys s.buttons) c).0
  unfolding Client.handle arrive note
  enter-Mirrors at s c = (refl, (λ r q. has-sync J o i s.keys s.buttons _ r q))

  -- A repeat is of a key that is down already, and is not noted.
  has-type_key :
      (k : Key) (down repeat : Bool) (t : Tracked.Tracked (logged J))
      → refused J i down (Client.type_key (logged J) k down repeat t).0.inner ≡ false
      → (down ≡ true → repeat ≡ true → (not (is_key i k) || has (logged J) i t) ≡ true)
      → has (logged J) i (Client.type_key (logged J) k down repeat t).0
        ≡ (if is_key i k then down else has (logged J) i t)
  has-type_key k true true t r h = has-inner J i t _ ∙ ground (arith, h refl refl)
  has-type_key k true false t r h = has-key J i k true t r
  has-type_key k false true t r h = has-key J i k false t r
  has-type_key k false false t r h = has-key J i k false t r

  wanted-on_key :
      (k : Key) (down repeat : Bool) (s : Server) (i : Item)
      → wanted J o i (on_key k down repeat s).0.keys (on_key k down repeat s).0.buttons
        ≡ (if is_key i k then down else wanted J o i s.keys s.buttons)
  unfolding on_key
  wanted-on_key k down repeat s (a_key j) = contains_noted k j down s.keys
  wanted-on_key k down repeat s (a_button b) = refl

  wanted-on_button :
      (b : MouseButton) (down : Bool) (s : Server) (i : Item)
      → wanted J o i (on_button b down s).0.keys (on_button b down s).0.buttons
        ≡ (if is_button i b then down else wanted J o i s.keys s.buttons)
  unfolding on_button
  wanted-on_button b down s (a_key k) = refl
  wanted-on_button b down s (a_button c) = contains_noted b c down s.buttons

  has-flush :
      (t : Tracked.Tracked (logged J))
      → has (logged J) i (Tracked.flush (logged J) t).0 ≡ has (logged J) i t
  unfolding Tracked.flush
  has-flush t = has-inner J i t _

  either :
      (down : Bool) (t : Tracked.Tracked (logged J))
      → refused J i false t.inner ≡ false
      → refused J i true t.inner ≡ false
      → refused J i down t.inner ≡ false
  either true t r q = q
  either false t r q = r

  Mirrors-deliverable :
      (s : Server) (c : Client (logged J))
      → c.suspended ≡ none
      → Mirrors J o i d s c
      → deliverable (logged J) c ≡ true
  unfolding deliverable
  Mirrors-deliverable s c z h = rw (h.0, z) refl

  -- A key of which the item is another key, or that the server has down.
  abbrev pub Known : Key → Bool → Bool → Server → Type 0
  Known k down repeat s =
      down ≡ true → repeat ≡ true → (not (is_key i k) || wanted J o i s.keys s.buttons) ≡ true

  pub key_event-Mirrors :
      (k : Key) (down repeat : Bool) (s : Server) (c : Client (logged J))
      → Known k down repeat s
      → c.suspended ≡ none
      → Mirrors J o i d s c
      → Mirrors J o i d
          (on_key k down repeat s).0
          (Client.handle (logged J) (key_event k down repeat) c).0
  unfolding Client.handle
  key_event-Mirrors k down repeat s c known z h =
      let takes : deliverable (logged J) c ≡ true = Mirrors-deliverable s c z h in
      let u = (Client.type_key (logged J) k down repeat c.input).0 in
      rw takes (
        h.0,
        (λ r q.
            let kept = flush-Keeps J o i u in
            let r1 = kept.0 false r in
            let q1 = kept.0 true q in
            let mirrored =
              h.1 (refused-type_key J o i false k down repeat c.input r1)
                (refused-type_key J o i true k down repeat c.input q1) in
            has-flush u
            ∙ has-type_key k down repeat c.input (either down u r1 q1)
                (λ x y. ap (λ b. not (is_key i k) || b) mirrored ∙ known x y)
            ∙ ap (λ b. if is_key i k then down else b) mirrored
            ∙ sym (wanted-on_key k down repeat s i)),
      )

  pub button-Mirrors :
      (b : MouseButton) (down : Bool) (s : Server) (c : Client (logged J))
      → c.suspended ≡ none
      → Mirrors J o i d s c
      → Mirrors J o i d (on_button b down s).0 (Client.handle (logged J) (button b down) c).0
  unfolding Client.handle
  button-Mirrors b down s c z h =
      let takes : deliverable (logged J) c ≡ true = Mirrors-deliverable s c z h in
      let u = (Tracked.button (logged J) b down c.input).0 in
      rw takes (
        h.0,
        (λ r q.
            let kept = flush-Keeps J o i u in
            let before = button-Keeps J o i b down c.input in
            let r1 = kept.0 false r in
            let q1 = kept.0 true q in
            let mirrored = h.1 (before.0 false r1) (before.0 true q1) in
            has-flush u
            ∙ has-button J i b down c.input (either down u r1 q1)
            ∙ ap (λ x. if is_button i b then down else x) mirrored
            ∙ sym (wanted-on_button b down s i)),
      )

  pub wheel-Calm :
      (x : Scroll) (c : Client (logged J)) → Calm J o i d c (Client.handle (logged J) (wheel x) c).0
  unfolding Client.handle Tracked.wheel Tracked.flush is_typed
  wheel-Calm x c =
      let k = handle-Settles J o i d (wheel x) c refl in
      elim (Bool-cases (deliverable (logged J) c)) [
        | inl e ↦ rw e (refl, has-inner J i c.input _, rw e at k)
        | inr e ↦ rw e (Calm-refl J o i d c)
      ]

  contains-item :
      (k : Key) (t : Tracked.Tracked (logged J)) (i : Item)
      → (not (is_key i k) || contains t.keys k) ≡ (not (is_key i k) || has (logged J) i t)
  contains-item k t (a_key j) = elim (Bool-cases (k == j)) [
    | inl e ↦ ap (λ l. not (k == j) || contains t.keys l) ((==_iff k j).0 e)
    | inr e ↦ rw e refl
  ]
  contains-item k t (a_button b) = refl

  key_event-refused :
      (k : Key) (down repeat : Bool) (c : Client (logged J)) (w : Bool)
      → refused J i w (Client.handle (logged J) (key_event k down repeat) c).0.input.inner ≡ false
      → refused J i w c.input.inner ≡ false
  unfolding Client.handle
  key_event-refused k down repeat c w = elim (Bool-cases (deliverable (logged J) c)) [
    | inl e ↦ rw e (λ r.
        let u = (Client.type_key (logged J) k down repeat c.input).0 in
        refused-type_key J o i w k down repeat c.input ((flush-Keeps J o i u).0 w r))
    | inr e ↦ rw e (λ r. r)
  ]

  -- The agreement of the record and the device, over a key that the server has down if it repeats.
  pub key_event-Settles :
      (k : Key) (down repeat : Bool) (s : Server) (c : Client (logged J))
      → Known k down repeat s
      → Mirrors J o i d s c
      → Settles J o i d c (Client.handle (logged J) (key_event k down repeat) c).0
  unfolding is_typed
  key_event-Settles k true true s c known h = (
    key_event-refused k true true c,
    (λ r q m.
        let mirrored =
          h.1 (key_event-refused k true true c false r) (key_event-refused k true true c true q) in
        (handle-Agrees J o i (key_event k true true) c (
            contains-item k c.input i
            ∙ ap (λ b. not (is_key i k) || b) mirrored
            ∙ known refl refl)).1
          r m),
  )
  key_event-Settles k false true s c known h =
      handle-Settles J o i d (key_event k false true) c refl
  key_event-Settles k true false s c known h =
      handle-Settles J o i d (key_event k true false) c refl
  key_event-Settles k false false s c known h =
      handle-Settles J o i d (key_event k false false) c refl
