-- ===== src/Layout/Model.antt =====
-- crates/smkvm-layout/src/model.rs and geom.rs: the data that the messages carry.
use smkvm.Base.{ℕ, Bool, Option, String, List}
use smkvm.Base.Int.{ℤ}

-- `DeviceId([u8; 32])` as the number that its bytes write in base 256, first byte highest: the
-- derived order on the arrays is the order of these numbers.
abbrev pub DeviceId : Type 0
DeviceId = ℕ

pub record Point : Type 0 where
  pub x : ℤ
  pub y : ℤ

pub record Rect : Type 0 where
  pub x : ℤ
  pub y : ℤ
  pub w : ℤ
  pub h : ℤ

-- `scale` is an `f32` that nothing here computes with: its 32 bits.
pub record Monitor : Type 0 where
  pub id : String
  pub local : Rect
  pub scale : ℕ
  pub primary : Bool
  pub label : Option String

pub record Device : Type 0 where
  pub id : DeviceId
  pub name : String
  pub monitors : List Monitor
  pub online : Bool

pub data EdgeOverflow : Type 0 where
  clamp block : EdgeOverflow

-- A monitor that is both placed and online.
pub record Cell : Type 0 where
  pub device : DeviceId
  pub monitor : String
  pub global : Rect
  pub local : Rect

pub record Located : Type 0 where
  pub device : DeviceId
  pub monitor : String
  pub local : Point

pub record Reconcile : Type 0 where
  pub added : List String
  pub removed : List String
  pub changed : List String

-- The code writes a placement's key `<hex of the device>/<monitor>`. The hex has 64 digits always, so
-- that the text determines the pair and is ordered like it.
abbrev pub Key : Type 0
Key = DeviceId × String

pub record Layout : Type 0 where
  pub edge_overflow : EdgeOverflow
  pub devices : List Device
  pub placements : List (Key × Rect)
  pub reserved : List Rect
