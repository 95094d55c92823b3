-- ===== src/Input/Tracked/Settled.antt =====
-- crates/smkvm-input/src/lib.rs: what is down on the device after `sync` and `release_all`.
use smkvm.Base.{false, ◌≡◌, ◌∙◌, sym, ap, none, List, arith}
use smkvm.Base.Lists.{contains}
use smkvm.Proto.Keys.{Key, key_eq, key_ord, MouseButton, button_eq, button_ord}
use smkvm.Input.Inject.{Inject, IsObedient}
use smkvm.Input.Tracked.{
  Tracked, release_order, set_keys, sync, release_all, flush, flushed, release_buttons,
}
use smkvm.Input.Tracked.Held.{Matches, set_keys-Matches, set_buttons-Matches, sync-Matches}
use smkvm.Input.Tracked.Exact.{
  contains-release_order, keep_first-none, keys-set_buttons, set_keys_done, set_buttons_done,
  set_keys_frees,
}
use smkvm.Input.Tracked.Synced.{sync_exact}

module _ (J : Inject) (o : IsObedient J) where
  -- For a `Tracked` that remembers what the device holds: when `sync` reports no error, the device
  -- holds exactly the keys and the buttons of the two lists.
  pub sync-holds :
      (ks : List Key) (bs : List MouseButton) (t : Tracked J)
      → Matches J o t
      → (sync J ks bs t).1 ≡ none
      → ((k : Key) → o.holds_key (sync J ks bs t).0.inner k ≡ contains ks k)
        × ((b : MouseButton) → o.holds_button (sync J ks bs t).0.inner b ≡ contains bs b)
  sync-holds ks bs t m h =
      let kept = sync-Matches J o ks bs t m in
      let exact = sync_exact J ks bs t h in
      ((λ k. sym (kept.0 k) ∙ exact.0 k), (λ b. sym (kept.1 b) ∙ exact.1 b))

  -- For a `Tracked` that remembers what the device holds: whatever else is refused, after
  -- `release_all` the device does not hold a key that it never refuses to let go of.
  pub holds-release_all :
      (t : Tracked J) (k : Key)
      → Matches J o t
      → ((d : J.Device) → (J.key k false d).1 ≡ none)
      → o.holds_key (release_all J t).0.inner k ≡ false
  unfolding release_all flushed flush release_buttons
  holds-release_all t k m h =
      let order = release_order t.keys in
      let r1 = set_keys J false order t none in
      let r2 = release_buttons J r1 in
      let m2 =
        set_buttons-Matches J o false r1.0.buttons r1.0 r1.1
          (set_keys-Matches J o false order t none m) in
      ground (
        arith,
        o.flush_keys r2.0.inner k,
        m2.0 k,
        ap (λ l. contains l k) (keys-set_buttons J false r1.0.buttons r1.0 r1.1),
        set_keys_frees J order t none k h,
        contains-release_order t.keys k,
      )

  -- For a `Tracked` that remembers what the device holds: when `release_all` reports no error, the
  -- device holds no key and no button.
  pub release_all-holds :
      (t : Tracked J)
      → Matches J o t
      → (release_all J t).1 ≡ none
      → ((k : Key) → o.holds_key (release_all J t).0.inner k ≡ false)
        × ((b : MouseButton) → o.holds_button (release_all J t).0.inner b ≡ false)
  unfolding release_all flushed flush release_buttons
  release_all-holds t m h =
      let order = release_order t.keys in
      let r1 = set_keys J false order t none in
      let r2 = release_buttons J r1 in
      let h2 = (keep_first-none r2.1 (J.flush r2.0.inner).1 h).0 in
      let d2 = set_buttons_done J false r1.0.buttons r1.0 r1.1 h2 in
      let d1 = set_keys_done J false order t none d2.0 in
      let m2 =
        set_buttons-Matches J o false r1.0.buttons r1.0 r1.1
          (set_keys-Matches J o false order t none m) in
      (
        (λ k. ground (
          arith,
          o.flush_keys r2.0.inner k,
          m2.0 k,
          ap (λ l. contains l k) (keys-set_buttons J false r1.0.buttons r1.0 r1.1),
          d1.1 k,
          contains-release_order t.keys k,
        )),
        (λ b. ground (arith, o.flush_buttons r2.0.inner b, m2.1 b, d2.1 b)),
      )
