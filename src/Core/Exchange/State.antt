-- ===== src/Core/Exchange/State.antt =====
-- The exchange's inputs, outputs and state (exchange.rs). An `Instant` is a number of nanoseconds,
-- and `duration_since` is 0 for a moment that is not yet over, as `-` is.
use smkvm.Base.{ℕ, ◌*◌, Bool, Option, none, some, List, [], true}
use smkvm.Base.Equality.{pair_eq, pair_ord}
use smkvm.Layout.Model.{DeviceId}
use smkvm.Proto.Msg.{ClipSeq, seq_eq, ClipFormat, format_eq, ClipError, Bulk}

-- Rust's `Result<Vec<u8>, ClipError>`.
pub data Contents : Type 0 where
  ok : List ℕ → Contents
  err : ClipError → Contents

pub data Input : Type 0 where
  peer_up peer_gone : DeviceId → Input
  local_changed : List ClipFormat → Input
  from_peer : DeviceId → Bulk → Input
  wanted : ℕ → ClipSeq → ClipFormat → Input
  read_done : ClipSeq → ClipFormat → Contents → Input

pub data Output : Type 0 where
  send : DeviceId → Bulk → Output
  offer_locally : ClipSeq → List ClipFormat → Output
  release_locally : Output
  read_local : ClipSeq → ClipFormat → Output
  deliver : ℕ → Contents → Output

-- An offer from elsewhere that this machine holds on its own clipboard.
pub record Held : Type 0 where
  pub seq : ClipSeq
  pub from : DeviceId
  pub formats : List ClipFormat
  pub placed : ℕ

pub record Fetching : Type 0 where
  pub from : DeviceId
  pub buf : List ℕ

pub data Waiter : Type 0 where
  ticket : ℕ → Waiter
  relay : DeviceId → ℕ → Waiter

pub record Waiting : Type 0 where
  pub seq : ClipSeq
  pub format : ClipFormat
  pub who : Waiter

abbrev pub Key : Type 0
Key = ClipSeq × ClipFormat

-- Nanoseconds.
abbrev pub echo_window : ℕ
echo_window = 750 * 1000000

pub record Exchange : Type 0 where
  pub me : DeviceId
  pub peers : List DeviceId
  pub counter : ℕ
  pub allowed : List ClipFormat
  pub max_bytes : ℕ
  pub enabled : Bool
  pub local : Option (ClipSeq × List ClipFormat)
  pub remote : Option Held
  pub cache : List (Key × List ℕ)
  pub reading : List Key
  pub fetching : List (Key × Fetching)
  pub waiting : List Waiting

unfoldable pub new : DeviceId → List ClipFormat → ℕ → Exchange
new me allowed max_bytes = record {
  me = me;
  peers = [];
  counter = 0;
  allowed = allowed;
  max_bytes = max_bytes;
  enabled = true;
  local = none;
  remote = none;
  cache = [];
  reading = [];
  fetching = [];
  waiting = [];
}

unfoldable pub set_enabled : Bool → Exchange → Exchange
set_enabled enabled x = record x { enabled = enabled }

unfoldable pub set_allowed : List ClipFormat → Exchange → Exchange
set_allowed allowed x = record x { allowed = allowed }

unfoldable pub set_max_bytes : ℕ → Exchange → Exchange
set_max_bytes max_bytes x = record x { max_bytes = max_bytes }

abbrev pub local_seq : Option (ClipSeq × List ClipFormat) → Option ClipSeq
local_seq none = none
local_seq (some p) = some (p.0)

abbrev pub held_seq : Option Held → Option ClipSeq
held_seq none = none
held_seq (some h) = some (h.seq)

abbrev pub local_offer : Exchange → Option ClipSeq
local_offer x = local_seq x.local

abbrev pub held_offer : Exchange → Option ClipSeq
held_offer x = held_seq x.remote

-- `&mut self` and `&mut out`, threaded through the handlers.
pub record Run : Type 0 where
  pub self : Exchange
  pub out : List Output
