-- ===== src/Scheduler/Watch.antt =====
-- crates/scheduler/src/watch.rs: a path polled for change. What the file system answers is an argument:
-- what is at the path, and the metadata of a directory's readable entries.
pub mod Settling
use local_etl_tool.Prelude.{
  ℕ, ◌+◌, ◌*◌, ◌%◌, ◌^◌, Bool, true, false, not, ◌&&◌, ◌||◌, Option, none, some, List, [], ◌∷◌,
  ◌==◌, ltb, if◌then◌else◌,
}
use local_etl_tool.Prelude.Text.{Text}

abbrev pub default_poll_seconds : ℕ
default_poll_seconds = 10

-- Seconds, nanoseconds and size; `none` where there is nothing.
pub record Newest : Type 0 where
  pub seconds : ℕ
  pub nanos : ℕ
  pub size : ℕ

abbrev pub Stamp : Type 0
Stamp = Option Newest

pub record Watch : Type 0 where
  pub path : Text
  pub poll_seconds : ℕ

-- A poll of zero seconds is replaced.
unfoldable pub new : Text → Option ℕ → Watch
new path seconds = record {
  path = path;
  poll_seconds = elim seconds [
    | none ↦ default_poll_seconds
    | some s ↦ if ltb 0 s then s else default_poll_seconds
  ];
}

pub record WatchState : Type 0 where
  pub seen : Stamp
  pub started : Bool
  pub unsettled : Bool

-- `WatchState::default()`.
abbrev pub unwatched : WatchState
unwatched = record { seen = none; started = false; unsettled = false }

pub data Poll : Type 0 where
  quiet changing settled baseline : Poll

-- The derived equality of two stamps.
unfoldable pub same_stamp : Stamp → Stamp → Bool
same_stamp none none = true
same_stamp none (some b) = false
same_stamp (some a) none = false
same_stamp (some a) (some b) = a.seconds == b.seconds && (a.nanos == b.nanos && a.size == b.size)

unfoldable pub poll : WatchState → Stamp → Poll × WatchState
unfolding same_stamp
poll s stamp =
    if not s.started
    then (baseline, record s { started = true; seen = stamp })
    else if not (same_stamp stamp s.seen)
    then (changing, record s { seen = stamp; unsettled = true })
    else if s.unsettled
    then (settled, record s { unsettled = false })
    else (quiet, s)

unfoldable pub is_changing : WatchState → Bool
is_changing s = s.unsettled

-- The metadata of a file: when it was modified, if the file system says, and its length.
pub record FileInfo : Type 0 where
  pub modified : Option (ℕ × ℕ)
  pub len : ℕ

-- What is at a path: nothing, a file, or a directory with the metadata of its entries, which is `none`
-- when the directory cannot be read.
pub data Place : Type 0 where
  missing : Place
  file : FileInfo → Place
  directory : FileInfo → Option (List FileInfo) → Place

unfoldable pub newest : FileInfo → Newest
newest info = elim info.modified [
  | none ↦ record { seconds = 0; nanos = 0; size = info.len }
  | some (seconds, nanos) ↦ record { seconds = seconds; nanos = nanos; size = info.len }
]

-- The order of two pairs of seconds and nanoseconds.
abbrev pub is_later : Newest → Newest → Bool
is_later a b = ltb b.seconds a.seconds || (a.seconds == b.seconds && ltb b.nanos a.nanos)

-- The loop over the entries; the sum of the lengths wraps around at 2 ^ 64.
unfoldable pub over_entries : List FileInfo → Newest → ℕ → Newest × ℕ
unfolding newest
over_entries [] best total_len = (best, total_len)
over_entries (meta ∷ entries) best total_len =
    let stamp = newest meta in
    over_entries entries (if is_later stamp best then stamp else best)
      ((total_len + stamp.size) % 2 ^ 64)

unfoldable pub stamp_of : Place → Stamp
unfolding newest over_entries
stamp_of missing = none
stamp_of (file info) = some (newest info)
stamp_of (directory info none) = some (newest info)
stamp_of (directory info (some entries)) =
    let own = newest info in
    let (best, total_len) = over_entries entries own own.size in
    some (record { seconds = best.seconds; nanos = best.nanos; size = total_len })
