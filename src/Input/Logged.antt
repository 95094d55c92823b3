-- ===== src/Input/Logged.antt =====
-- A platform (crates/smkvm-input/src/lib.rs, `Inject`) with a log beside it of what it refused. The
-- log changes nothing of what the platform does or answers.
pub mod Notes
pub mod Keeps
pub mod Loops
pub mod Released
pub mod Synced
pub mod Plain
use smkvm.Base.{Bool, true, false, ◌≡◌, none, some, List, [], ◌∷◌, if◌then◌else◌}
use smkvm.Base.Equality.{◌==◌}
use smkvm.Base.Lists.{contains}
use smkvm.Proto.Keys.{Key, key_eq, MouseButton, button_eq}
use smkvm.Input.Inject.{Inject, Outcome, IsObedient}
use smkvm.Input.Tracked.{Tracked}

-- A key or a button.
pub data Item : Type 0 where
  a_key : Key → Item
  a_button : MouseButton → Item

-- The device; the keys and the buttons that it refused to let go of, and to press.
pub record Logged (J : Inject) : Type 0 where
  pub device : J.Device
  pub stuck_keys : List Key
  pub lost_keys : List Key
  pub stuck_buttons : List MouseButton
  pub lost_buttons : List MouseButton

module _ (J : Inject) where
  abbrev pub unlogged : J.Device → Logged J
  unlogged d = record {
    device = d;
    stuck_keys = [];
    lost_keys = [];
    stuck_buttons = [];
    lost_buttons = [];
  }

  abbrev pub log_key : Key → Bool → Outcome → Logged J → Logged J
  log_key k down none d = d
  log_key k true (some e) d = record d { lost_keys = k ∷ d.lost_keys }
  log_key k false (some e) d = record d { stuck_keys = k ∷ d.stuck_keys }

  abbrev pub log_button : MouseButton → Bool → Outcome → Logged J → Logged J
  log_button b down none d = d
  log_button b true (some e) d = record d { lost_buttons = b ∷ d.lost_buttons }
  log_button b false (some e) d = record d { stuck_buttons = b ∷ d.stuck_buttons }

  abbrev pub on_device : (J.Device → J.Device × Outcome) → Logged J → Logged J × Outcome
  on_device f d = let r = f d.device in (record d { device = r.0 }, r.1)

  abbrev pub logged : Inject
  logged = record {
    Device = Logged J;
    move_to = λ x y. on_device (J.move_to x y);
    button = λ b down d.
        let r = J.button b down d.device in
        (log_button b down r.1 (record d { device = r.0 }), r.1);
    wheel = λ s. on_device (J.wheel s);
    key = λ k down d.
        let r = J.key k down d.device in (log_key k down r.1 (record d { device = r.0 }), r.1);
    flush = on_device J.flush;
    hide_cursor = on_device J.hide_cursor;
    show_cursor = on_device J.show_cursor;
  }

  -- Whether the platform refused to press the item, or to let go of it.
  abbrev pub refused : Item → Bool → Logged J → Bool
  refused (a_key k) true d = contains d.lost_keys k
  refused (a_key k) false d = contains d.stuck_keys k
  refused (a_button b) true d = contains d.lost_buttons b
  refused (a_button b) false d = contains d.stuck_buttons b

  -- Whether the record has the item.
  abbrev pub has : Item → Tracked J → Bool
  has (a_key k) t = contains t.keys k
  has (a_button b) t = contains t.buttons b

  -- Whether the device holds it.
  abbrev pub holds : IsObedient J → Item → J.Device → Bool
  holds o (a_key k) d = o.holds_key d k
  holds o (a_button b) d = o.holds_button d b

abbrev pub is_key : Item → Key → Bool
is_key (a_key k) j = j == k
is_key (a_button b) j = false

abbrev pub is_button : Item → MouseButton → Bool
is_button (a_key k) c = false
is_button (a_button b) c = c == b

abbrev pub in_keys : Item → List Key → Bool
in_keys (a_key k) ks = contains ks k
in_keys (a_button b) ks = false

abbrev pub in_buttons : Item → List MouseButton → Bool
in_buttons (a_key k) bs = false
in_buttons (a_button b) bs = contains bs b
