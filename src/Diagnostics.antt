-- ===== src/Diagnostics.antt =====
-- src/diagnostics.rs: the log of a repeated failure, which reports its first occurrence at once and then
-- once in five seconds at most, with the occurrences since.
pub mod Counting
use Prim.Native.Nat.{◌+◌, ◌-◌, ◌*◌, ◌^◌, min}
use unitree_webrtc_rs.Base.{
  ℕ, zero, suc, Bool, true, false, not, Option, none, some, List, [], ◌∷◌, ◌++◌, ltb, ◌==◌,
  if◌then◌else◌,
}

-- Nanoseconds.
abbrev pub window : ℕ
window = 5 * 10 ^ 9

abbrev pub u64_max : ℕ
u64_max = 2 ^ 64 - 1

pub record RepeatState : Type 0 where
  pub last_report : Option ℕ
  pub pending : ℕ

abbrev pub default : RepeatState
default = record { last_report = none; pending = 0 }

-- A report: the count, and how many of it were suppressed.
abbrev pub Report : Type 0
Report = ℕ × ℕ

-- `saturating_duration_since`
abbrev pub since : ℕ → ℕ → ℕ
since last now = now - last

unfoldable pub record_at : ℕ → RepeatState → RepeatState × Option Report
record_at now s = elim s.last_report [
  | none ↦ (record s { last_report = some now }, some (1, 0))
  | some last ↦
      let pending = min (s.pending + 1) u64_max in
      if ltb (since last now) window
      then (record s { pending = pending }, none)
      else (record { last_report = some now; pending = 0 }, some (pending, pending))
]

abbrev pub unless_zero : ℕ → Option Report
unless_zero count = if not (count == 0) then some (count, count) else none

-- `take_pending`, which `flush` and the drop of the log report.
unfoldable pub take_pending : RepeatState → RepeatState × Option Report
take_pending s = (record s { pending = 0 }, unless_zero s.pending)

unfoldable pub reset : RepeatState → RepeatState × Option Report
reset s = (default, unless_zero s.pending)
