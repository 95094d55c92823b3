-- ===== src/Input/Tracked.antt =====
-- crates/smkvm-input/src/lib.rs: `Parked`, and `Tracked`, an injector that remembers what it pressed.
pub mod Held
pub mod Exact
pub mod Synced
pub mod Settled
use smkvm.Base.{
  ℕ, Bool, true, false, not, ◌&&◌, if◌then◌else◌, Option, none, some, List, [], ◌∷◌, ◌++◌,
}
use smkvm.Base.Equality.{◌==◌}
use smkvm.Base.Int.{ℤ}
use smkvm.Base.Lists.{retain, contains}
use smkvm.Base.Sets
use smkvm.Proto.Keys.{Key, key_eq, key_ord, is_modifier, MouseButton, button_eq, button_ord, Scroll}
use smkvm.Input.Inject.{Inject, InputError, Outcome}

-- Where the pointer was before it was moved out of the way.
abbrev pub Parked : Type 0
Parked = Option (ℤ × ℤ)

unfoldable pub park : ℤ × ℤ → Parked → Parked × Bool
park from (some p) = (some p, false)
park from none = (some from, true)

unfoldable pub restore : Parked → Parked × Option (ℤ × ℤ)
restore p = (none, p)

unfoldable pub placed : Parked → Parked
placed p = none

-- Ordinary keys before modifiers, the way a hand lets go of a chord.
unfoldable pub release_order : List Key → List Key
release_order ks = retain (λ k. not (is_modifier k)) ks ++ retain is_modifier ks

-- Modifiers before ordinary keys, so a chord arrives already modified.
unfoldable pub press_order : List Key → List Key
press_order ks = retain is_modifier ks ++ retain (λ k. not (is_modifier k)) ks

abbrev pub keep_first : Outcome → Outcome → Outcome
keep_first none r = r
keep_first (some e) r = some e

pub record Tracked (J : Inject) : Type 0 where
  pub inner : J.Device
  pub keys : List Key
  pub buttons : List MouseButton

module _ (J : Inject) where
  unfoldable pub new : J.Device → Tracked J
  new d = record { inner = d; keys = []; buttons = [] }

  -- `&mut self.inner`, with what an operation of it answers.
  abbrev pub on_inner : (J.Device → J.Device × Outcome) → Tracked J → Tracked J × Outcome
  on_inner f t = let r = f t.inner in (record t { inner = r.0 }, r.1)

  unfoldable pub move_to : ℤ → ℤ → Tracked J → Tracked J × Outcome
  move_to x y = on_inner (J.move_to x y)

  unfoldable pub wheel : Scroll → Tracked J → Tracked J × Outcome
  wheel s = on_inner (J.wheel s)

  unfoldable pub flush : Tracked J → Tracked J × Outcome
  flush = on_inner J.flush

  -- What `key` notes once the platform has answered.
  abbrev pub note_key : Key → Bool → Tracked J → Outcome → Tracked J × Outcome
  note_key k down t (some e) = (t, some e)
  note_key k down t none =
      (record t { keys = if down then Sets.insert k t.keys else Sets.remove k t.keys }, none)

  unfoldable pub key : Key → Bool → Tracked J → Tracked J × Outcome
  key k down t = let r = J.key k down t.inner in note_key k down (record t { inner = r.0 }) (r.1)

  abbrev pub note_button : MouseButton → Bool → Tracked J → Outcome → Tracked J × Outcome
  note_button b down t (some e) = (t, some e)
  note_button b down t none = (
    record t { buttons = if down then Sets.insert b t.buttons else Sets.remove b t.buttons },
    none,
  )

  unfoldable pub button : MouseButton → Bool → Tracked J → Tracked J × Outcome
  button b down t =
      let r = J.button b down t.inner in note_button b down (record t { inner = r.0 }) (r.1)

  -- The loops of `sync` and `release_all`: every key is tried, and the first error is kept.
  unfoldable pub set_keys : Bool → List Key → Tracked J → Outcome → Tracked J × Outcome
  set_keys down [] t first = (t, first)
  set_keys down (k ∷ ks) t first =
      let r = key k down t in set_keys down ks (r.0) (keep_first first (r.1))

  unfoldable pub set_buttons : Bool → List MouseButton → Tracked J → Outcome → Tracked J × Outcome
  set_buttons down [] t first = (t, first)
  set_buttons down (b ∷ bs) t first =
      let r = button b down t in set_buttons down bs (r.0) (keep_first first (r.1))

  -- The four loops of `sync`.
  unfoldable pub release_unwanted : List Key → Tracked J × Outcome → Tracked J × Outcome
  release_unwanted wanted r =
      set_keys false (release_order (retain (λ k. not (contains wanted k)) r.0.keys)) r.0 r.1

  unfoldable pub release_unwanted_buttons :
      List MouseButton → Tracked J × Outcome → Tracked J × Outcome
  release_unwanted_buttons wanted r =
      set_buttons false (retain (λ b. not (contains wanted b)) r.0.buttons) r.0 r.1

  unfoldable pub press_missing : List Key → Tracked J × Outcome → Tracked J × Outcome
  press_missing wanted r =
      set_keys true (press_order (retain (λ k. not (contains r.0.keys k)) wanted)) r.0 r.1

  unfoldable pub press_missing_buttons :
      List MouseButton → Tracked J × Outcome → Tracked J × Outcome
  press_missing_buttons wanted r =
      set_buttons true (retain (λ b. not (contains r.0.buttons b)) wanted) r.0 r.1

  -- What `sync` and `release_all` end with.
  unfoldable pub flushed : Tracked J × Outcome → Tracked J × Outcome
  unfolding flush
  flushed r = let f = flush r.0 in (f.0, keep_first r.1 f.1)

  -- Make what is held match the lists exactly.
  unfoldable pub sync : List Key → List MouseButton → Tracked J → Tracked J × Outcome
  unfolding release_unwanted release_unwanted_buttons press_missing press_missing_buttons flushed
  sync ks bs t =
      let wanted = Sets.collect ks in
      let wanted_buttons = Sets.collect bs in
      flushed (
        press_missing_buttons wanted_buttons (
          press_missing wanted
            (release_unwanted_buttons wanted_buttons (release_unwanted wanted (t, none)))))

  -- `self.keys.clear()` and `self.buttons.clear()`
  abbrev pub cleared : Tracked J × Outcome → Tracked J × Outcome
  cleared r = (record (r.0) { keys = []; buttons = [] }, r.1)

  unfoldable pub release_buttons : Tracked J × Outcome → Tracked J × Outcome
  release_buttons r = set_buttons false r.0.buttons r.0 r.1

  -- Let go of everything.
  unfoldable pub release_all : Tracked J → Tracked J × Outcome
  unfolding flushed release_buttons
  release_all t = flushed (cleared (release_buttons (set_keys false (release_order t.keys) t none)))

  unfoldable pub is_holding_anything : Tracked J → Bool
  is_holding_anything t = not (is_nil t.keys && is_nil t.buttons)
    where
      is_nil : {A : Type 0} → List A → Bool
      is_nil [] = true
      is_nil (x ∷ xs) = false
