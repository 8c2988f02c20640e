-- ===== src/Audit.antt =====
-- internal/audit/log.go: the ring buffer of admin actions. A limit or a size that the code takes as
-- an int is a ℤ; the details of an entry are left out, which the log never reads.
pub mod Window
use helix_gateway.Base.{
  ℕ, suc, ◌-◌, ◌==◌, ltb, leb, Text, Bool, List, [], ◌∷◌, ◌++◌, length, drop, tail, ℤ, pos, negsuc,
  if◌then◌else◌,
}

abbrev pub default_max_size : ℕ
default_max_size = 2000

-- A time of 0 is the zero time.
pub record Entry : Type 0 where
  pub time : ℕ
  pub action : Text
  pub resource : Text
  pub resource_id : Text
  pub user : Text
  pub remote_addr : Text

pub record Log : Type 0 where
  pub entries : List Entry
  pub max_size : ℕ

-- The size in use: one that is not positive is replaced.
abbrev pub size_of : ℤ → ℕ
size_of (negsuc n) = default_max_size
size_of (pos n) = if n == 0 then default_max_size else n

-- New
unfoldable pub new : ℤ → Log
new max_size = record { entries = []; max_size = size_of max_size }

-- The time that is written into an entry without one.
abbrev pub timed : ℕ → Entry → Entry
timed now e = if e.time == 0 then record e { time = now } else e

-- The oldest entry gives way in a full log.
unfoldable pub make_room : ℕ → List Entry → List Entry
make_room max_size entries = if leb max_size (length entries) then tail entries else entries

-- Record
unfoldable pub record_entry : ℕ → Entry → Log → Log
record_entry now e l = record l { entries = make_room l.max_size l.entries ++ timed now e ∷ [] }

-- The number of entries that List copies.
abbrev pub clip : ℤ → ℕ → ℕ
clip (negsuc k) n = n
clip (pos k) n = if k == 0 then n else if ltb n k then n else k

-- List
unfoldable pub list : ℤ → Log → List Entry
list limit l = drop (length l.entries - clip limit (length l.entries)) l.entries

-- A run of Record.
unfoldable pub record_all : List (ℕ × Entry) → Log → Log
record_all [] l = l
record_all ((now, e) ∷ es) l = record_all es (record_entry now e l)
