-- ===== src/Domain.antt =====
-- crates/orchestrator/src/domain: the values that the stores hold. An id (`ExeId`, `MapId`) is a
-- key of the slotmap crate, a pair of an index and a version that is ordered lexicographically; it
-- is written here as the number `index * 2 ^ 32 + version`, which has that order.
use preload_ng.Prelude.{ℕ, Bool, true, false, Option, none, some, List, map, ℕ_discrete}
use preload_ng.Prelude.Int.{ℤ}

-- A `Path` in the normal form that the kernel reports (no empty or `.` component), where Rust's
-- comparison by components is the comparison of the text. `to_str` fails on bytes that are no UTF-8.
pub data FilePath : Type 0 where
  utf8 : List ℕ → FilePath
  raw : List ℕ → FilePath

unfoldable pub to_str : FilePath → Option (List ℕ)
to_str (utf8 s) = some s
to_str (raw b) = none

pub FilePath-discrete : Discrete FilePath
FilePath-discrete = hlevel ℕ_discrete

pub record ExeKey : Type 0 where
  pub path : FilePath

pub record MapKey : Type 0 where
  pub path : FilePath
  pub offset : ℕ
  pub length : ℕ

pub ExeKey-discrete : Discrete ExeKey
ExeKey-discrete = hlevel ℕ_discrete

pub MapKey-discrete : Discrete MapKey
MapKey-discrete = hlevel ℕ_discrete

pub record Exe : Type 0 where
  pub key : ExeKey
  pub total_running_time : ℕ
  pub last_seen_time : Option ℕ
  pub running : Bool
  pub change_time : ℕ

-- `Exe::new`.
abbrev pub new_exe : ExeKey → Exe
new_exe key = record {
  key = key;
  total_running_time = 0;
  last_seen_time = none;
  running = false;
  change_time = 0;
}

pub record MapSegment : Type 0 where
  pub path : FilePath
  pub offset : ℕ
  pub length : ℕ
  pub update_time : ℕ
  pub device : ℕ
  pub inode : ℕ

-- `MapSegment::new` and `MapSegment::from_arc`.
abbrev pub new_segment : FilePath → ℕ → ℕ → ℕ → MapSegment
new_segment path offset length update_time = record {
  path = path;
  offset = offset;
  length = length;
  update_time = update_time;
  device = 0;
  inode = 0;
}

-- `MapSegment::key`.
abbrev pub segment_key : MapSegment → MapKey
segment_key map = record { path = map.path; offset = map.offset; length = map.length }

pub data MarkovState : Type 0 where
  neither a_only b_only both : MarkovState

pub MarkovState-discrete : Discrete MarkovState
MarkovState-discrete = hlevel

unfoldable pub from_running : Bool → Bool → MarkovState
from_running false false = neither
from_running true false = a_only
from_running false true = b_only
from_running true true = both

unfoldable pub state_index : MarkovState → ℕ
state_index neither = 0
state_index a_only = 1
state_index b_only = 2
state_index both = 3

pub record MemStat : Type 0 where
  pub total : ℕ
  pub available : ℕ
  pub free : ℕ
  pub cached : ℕ
  pub pagein : ℤ
  pub pageout : ℤ
