-- ===== src/Proto/Msg.antt =====
-- crates/smkvm-proto/src/msg.rs: the messages of a session.
use smkvm.Base.{ℕ, ◌≡◌, ◌↔◌, Bool, true, false, ◌&&◌, ◌||◌, Option, List, String, eqb, ltb, arith}
use smkvm.Base.Int.{ℤ}
use smkvm.Base.Equality.{PartialEq, Ord, string_eq, string_ord}
use smkvm.Layout.Model.{DeviceId, Point, Monitor}
use smkvm.Proto.Keys.{Key, MouseButton, Scroll}

pub data Role : Type 0 where
  server client : Role

pub record Hello : Type 0 where
  pub proto : ℕ
  pub device : DeviceId
  pub name : String
  pub role : Role

pub data Reject : Type 0 where
  protocol_version : ℕ → ℕ → Reject
  not_paired already_connected role_conflict shutting_down : Reject

pub data SuspendReason : Type 0 where
  secure_desktop locked display_asleep other elevated : SuspendReason

abbrev reason_rank : SuspendReason → ℕ
reason_rank secure_desktop = 0
reason_rank locked = 1
reason_rank display_asleep = 2
reason_rank other = 3
reason_rank elevated = 4

abbrev reason_beq : SuspendReason → SuspendReason → Bool
reason_beq a b = eqb (reason_rank a) (reason_rank b)

pub reason_beq_iff : (a b : SuspendReason) → (reason_beq a b ≡ true) ↔ (a ≡ b)
reason_beq_iff a b = ground arith

instance abbrev pub reason_eq : PartialEq SuspendReason
reason_eq = record { same = reason_beq; same_iff = reason_beq_iff }

-- A clipboard generation, scoped to the device that produced it.
pub record ClipSeq : Type 0 where
  pub device : DeviceId
  pub counter : ℕ

abbrev seq_beq : ClipSeq → ClipSeq → Bool
seq_beq a b = eqb a.device b.device && eqb a.counter b.counter

pub seq_beq_iff : (a b : ClipSeq) → (seq_beq a b ≡ true) ↔ (a ≡ b)
seq_beq_iff a b = ground arith

instance abbrev pub seq_eq : PartialEq ClipSeq
seq_eq = record { same = seq_beq; same_iff = seq_beq_iff }

instance abbrev pub seq_ord : Ord ClipSeq
seq_ord = record {
  lt = λ a b. ltb a.device b.device || (eqb a.device b.device && ltb a.counter b.counter);
}

-- A clipboard flavour; `other` is named by its MIME type.
pub data ClipFormat : Type 0 where
  text html png uris : ClipFormat
  mime : String → ClipFormat

abbrev format_beq : ClipFormat → ClipFormat → Bool
format_beq text text = true
format_beq html html = true
format_beq png png = true
format_beq uris uris = true
format_beq (mime s) (mime t) = string_eq.same s t
format_beq _ _ = false

mime_beq_iff : (s t : String) → (string_eq.same s t ≡ true) ↔ (mime s ≡ mime t)
mime_beq_iff s t = ground (arith, string_eq.same_iff s t)

pub format_beq_iff : (a b : ClipFormat) → (format_beq a b ≡ true) ↔ (a ≡ b)
format_beq_iff (mime s) (mime t) = mime_beq_iff s t
format_beq_iff a b = ground arith

instance abbrev pub format_eq : PartialEq ClipFormat
format_eq = record { same = format_beq; same_iff = format_beq_iff }

-- The variant's place in the declaration, by which the derived order goes first.
abbrev format_rank : ClipFormat → ℕ
format_rank text = 0
format_rank html = 1
format_rank png = 2
format_rank uris = 3
format_rank (mime s) = 4

abbrev format_lt : ClipFormat → ClipFormat → Bool
format_lt (mime s) (mime t) = string_ord.lt s t
format_lt a b = ltb (format_rank a) (format_rank b)

instance abbrev pub format_ord : Ord ClipFormat
format_ord = record { lt = format_lt }

pub record ClipEntry : Type 0 where
  pub format : ClipFormat
  pub bytes : Option ℕ
  pub hash : Option (List ℕ)

pub record ClipOffer : Type 0 where
  pub seq : ClipSeq
  pub entries : List ClipEntry

pub data ClipError : Type 0 where
  stale owner_refused : ClipError
  too_large : ℕ → ℕ → ClipError
  cancelled : ClipError

pub record FileEntry : Type 0 where
  pub path : String
  pub bytes : ℕ
  pub is_dir : Bool

pub record TransferId : Type 0 where
  pub device : DeviceId
  pub counter : ℕ

abbrev id_beq : TransferId → TransferId → Bool
id_beq a b = eqb a.device b.device && eqb a.counter b.counter

pub id_beq_iff : (a b : TransferId) → (id_beq a b ≡ true) ↔ (a ≡ b)
id_beq_iff a b = ground arith

instance abbrev pub id_eq : PartialEq TransferId
id_eq = record { same = id_beq; same_iff = id_beq_iff }

instance abbrev pub id_ord : Ord TransferId
id_ord = record {
  lt = λ a b. ltb a.device b.device || (eqb a.device b.device && ltb a.counter b.counter);
}

pub record FileOffer : Type 0 where
  pub id : TransferId
  pub files : List FileEntry
  pub total_bytes : ℕ

-- Clipboard and file traffic.
pub data Bulk : Type 0 where
  clip_offer : ClipOffer → Bulk
  clip_request : ClipSeq → ClipFormat → ℕ → Bulk
  clip_chunk : ClipSeq → ClipFormat → ℕ → List ℕ → Bool → Bulk
  clip_unavailable : ClipSeq → ClipFormat → ClipError → Bulk
  clip_cancel : ClipSeq → ClipFormat → Bulk
  file_offer : FileOffer → Bulk
  file_request : TransferId → ℕ → ℕ → Bulk
  file_chunk : TransferId → ℕ → ℕ → List ℕ → Bool → Bulk
  file_done : TransferId → Bulk
  file_abort : TransferId → String → Bulk
  dragging : ClipSeq → Bulk

pub data ClientControl : Type 0 where
  hello : Hello → ClientControl
  monitors : List Monitor → ClientControl
  suspended : SuspendReason → ClientControl
  resumed : ClientControl
  key_state_report : List Key → List MouseButton → ClientControl
  ping pong : ℕ → ClientControl
  goodbye : ClientControl
  bulk : Bulk → ClientControl

pub data ServerControl : Type 0 where
  hello : Hello → ServerControl
  rejected : Reject → ServerControl
  enter : Point → List Key → List MouseButton → ServerControl
  leave : ServerControl
  move_to : ℤ → ℤ → ServerControl
  button : MouseButton → Bool → ServerControl
  wheel : Scroll → ServerControl
  key_event : Key → Bool → Bool → ServerControl
  sync_keys : List Key → List MouseButton → ServerControl
  release_all : ServerControl
  ping pong : ℕ → ServerControl
  goodbye : ServerControl
  bulk : Bulk → ServerControl

-- May this be thrown away when a machine has stopped keeping up?
unfoldable pub may_be_dropped : ServerControl → Bool
may_be_dropped (move_to x y) = true
may_be_dropped (wheel s) = true
may_be_dropped _ = false
