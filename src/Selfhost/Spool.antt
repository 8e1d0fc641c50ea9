-- ===== src/Selfhost/Spool.antt =====
-- selfhost/spool.py: the evidence spool. A file is its inode, its name and its bytes; the encoding and
-- the decoding of JSON are parameters. The lock serialises the calls of a process.
pub mod Lines
pub mod Resume
use ai_security_gateway.Base.{
  ℕ, zero, suc, ◌+◌, ◌-◌, String, Bool, true, false, ◌&&◌, ◌||◌, not, Option, none, some, List, [],
  ◌∷◌, ◌++◌, ltb, leb, ◌==◌, length, drop, str_eq, if◌then◌else◌,
}
use ai_security_gateway.Base.Dict
use ai_security_gateway.Base.Dict.{Dict}
use ai_security_gateway.Base.Result.{Result, ok, err}

abbrev pub Bytes : Type 0
Bytes = List ℕ

-- `events.jsonl`, or `events-<digits>.jsonl` with its number; a name without digits counts as zero.
pub data FileName : Type 0 where
  active : FileName
  sealed : ℕ → FileName

pub record SpoolFile : Type 0 where
  pub inode : ℕ
  pub name : FileName
  pub content : Bytes

-- `EventSpool`, with the writer's directory: the active file, where there is one, and the sealed ones.
pub record EventSpool : Type 0 where
  pub max_bytes : ℕ
  pub current : Option SpoolFile
  pub sealed_files : List SpoolFile
  pub next_inode : ℕ
  pub healthy : Bool
  pub failures : ℕ

-- How the system calls of an append end: all succeed; the rotation or the opening fails; the write
-- stops after so many bytes; or the bytes are written and `fsync` fails.
pub data Outcome : Type 0 where
  written rotate_failed open_failed sync_failed : Outcome
  short : ℕ → Outcome

pub data SpoolError : Type 0 where
  os_error : SpoolError

unfoldable pub take : ℕ → Bytes → Bytes
take zero bs = []
take (suc n) [] = []
take (suc n) (b ∷ bs) = b ∷ take n bs

-- The number by which a file is sorted.
abbrev pub number : FileName → ℕ
number active = 0
number (sealed n) = n

-- The sealed files other than the one of a number, which a renaming to it replaces.
unfoldable pub others : ℕ → List SpoolFile → List SpoolFile
others n [] = []
others n (f ∷ fs) = if number f.name == n then others n fs else f ∷ others n fs

-- The rotation, where the file would grow past its limit: the active file is renamed by the time.
unfoldable pub rotated : ℕ → Bytes → EventSpool → EventSpool
rotated time line s = elim s.current [
  | none ↦ s
  | some f ↦
      if ltb s.max_bytes (length f.content + length line)
      then record s {
        current = none;
        sealed_files = record f { name = sealed time } ∷ others time s.sealed_files;
      }
      else s
]

-- `os.open` of the active file, which it makes where there is none, and the write of some bytes.
unfoldable pub extended : Bytes → EventSpool → EventSpool
extended bs s = elim s.current [
  | none ↦ record s {
    current = some (record { inode = s.next_inode; name = active; content = bs });
    next_inode = suc s.next_inode;
  }
  | some f ↦ record s { current = some (record f { content = f.content ++ bs }) }
]

abbrev pub failed : EventSpool → Result SpoolError (Unit {0}) × EventSpool
failed s = (err os_error, record s { healthy = false; failures = suc s.failures })

-- `append` of an encoded event, with its line's end.
unfoldable pub append_line :
    Outcome → ℕ → Bytes → EventSpool → Result SpoolError (Unit {0}) × EventSpool
append_line written time line s =
    (ok tt, record (extended line (rotated time line s)) { healthy = true })
append_line rotate_failed time line s = failed s
append_line open_failed time line s = failed (rotated time line s)
append_line sync_failed time line s = failed (extended line (rotated time line s))
append_line (short n) time line s = failed (extended (take n line) (rotated time line s))

unfoldable pub append : Outcome → ℕ → Bytes → EventSpool → Result SpoolError (Unit {0}) × EventSpool
append o time encoded s = append_line o time (encoded ++ 10 ∷ []) s

-- `probe`: whether the directory can be written.
unfoldable pub probe : Bool → EventSpool → Bool × EventSpool
probe works s = (works, record s { healthy = works })

-- `sorted(..., key=...)` of the sealed files, which is stable.
unfoldable pub insert : SpoolFile → List SpoolFile → List SpoolFile
insert f [] = f ∷ []
insert f (g ∷ gs) = if leb (number f.name) (number g.name) then f ∷ g ∷ gs else g ∷ insert f gs

unfoldable pub sorted : List SpoolFile → List SpoolFile
sorted [] = []
sorted (f ∷ fs) = insert f (sorted fs)

-- `_files`
unfoldable pub files : EventSpool → List SpoolFile
files s = sorted s.sealed_files ++ elim s.current [ none ↦ [] | some f ↦ f ∷ [] ]

-- `data.rfind(b"\n") + 1`: where the last whole line ends.
unfoldable pub end_of_lines : Bytes → ℕ
end_of_lines [] = 0
end_of_lines (b ∷ bs) =
    let rest = end_of_lines bs in if ltb 0 rest then suc rest else if b == 10 then 1 else 0

-- `bytes.splitlines`: a line ends at "\n", "\r" or "\r\n". The first argument is the line so far,
-- where one has begun.
abbrev flushed : Option Bytes → List Bytes → List Bytes
flushed none ls = ls
flushed (some l) ls = l ∷ ls

abbrev grown : Option Bytes → ℕ → Option Bytes
grown none b = some (b ∷ [])
grown (some l) b = some (l ++ b ∷ [])

abbrev pub begun : Option Bytes → Bytes
begun none = []
begun (some l) = l

unfoldable pub split_from : Bool → Option Bytes → Bytes → List Bytes
split_from after_cr l [] = flushed l []
split_from after_cr l (b ∷ bs) =
    let as_lf = split_from false none bs in
    let as_cr = split_from true none bs in
    let inside = split_from false (grown l b) bs in
    if b == 10
    then (if after_cr then as_lf else begun l ∷ as_lf)
    else if b == 13
    then begun l ∷ as_cr
    else inside

unfoldable pub splitlines : Bytes → List Bytes
splitlines bs = split_from false none bs

-- The cursor of a writer.
pub record Position : Type 0 where
  pub inode : ℕ
  pub offset : ℕ

-- What a read gives: the decoded events, the new positions and the files that are drained.
pub record Pending (Event : Type 0) : Type 0 where
  pub events : List Event
  pub cursor : Dict Position
  pub drained : List SpoolFile
  pub budget : ℕ

abbrev is_active : FileName → Bool
is_active active = true
is_active (sealed n) = false

abbrev has_more : List SpoolFile → Bool
has_more [] = false
has_more (f ∷ fs) = true

module _ {Event : Type 0} (decode : Bytes → Option Event) where
  -- The lines that decode to a dict.
  unfoldable pub decoded : List Bytes → List Event
  decoded [] = []
  decoded (l ∷ ls) = elim (decode l) [ none ↦ decoded ls | some e ↦ e ∷ decoded ls ]

  -- The events in the whole lines of some bytes.
  unfoldable pub events_in : Bytes → List Event
  events_in bs = decoded (splitlines (take (end_of_lines bs) bs))

  -- The loop over a writer's files, from an offset in the first one.
  unfoldable pub read_files : String → List SpoolFile → ℕ → Pending Event → Pending Event
  read_files writer [] offset p = p
  read_files writer (f ∷ fs) offset p =
      let chunk = take p.budget (drop offset f.content) in
      let size = end_of_lines chunk in
      let read : Pending Event = record {
        events = p.events ++ decoded (splitlines (take size chunk));
        cursor = Dict.put writer (record { inode = f.inode; offset = offset + size }) p.cursor;
        drained = p.drained;
        budget = p.budget - size;
      } in
      let next = read_files writer fs 0 (record read { drained = read.drained ++ f ∷ [] }) in
      if not (is_active f.name) && leb (length f.content) (offset + size) && has_more fs
      then next
      else read

  -- The files from the cursor's on, and those before it; `none` where it has gone.
  unfoldable pub files_from : ℕ → List SpoolFile → Option (List SpoolFile × List SpoolFile)
  files_from inode [] = none
  files_from inode (f ∷ fs) =
      if f.inode == inode then some ([], f ∷ fs) else elim (files_from inode fs) [
        | none ↦ none
        | some (before, rest) ↦ some (f ∷ before, rest)
      ]

  unfoldable pub read_from :
      String → List SpoolFile → Option Position → Pending Event → Pending Event
  read_from writer fs none p = read_files writer fs 0 p
  read_from writer fs (some at) p = elim (files_from at.inode fs) [
    | none ↦ read_files writer fs 0 p
    | some (before, rest) ↦
        read_files writer rest at.offset (record p { drained = p.drained ++ before })
  ]

  -- The loop over the writers, which stops where the budget is used.
  unfoldable pub read_writers : Dict EventSpool → Dict Position → Pending Event → Pending Event
  read_writers [] cursor p = p
  read_writers ((writer, s) ∷ more) cursor p =
      let read = read_from writer (files s) (Dict.get writer cursor) p in
      let next = read_writers more cursor read in if read.budget == 0 then read else next

  -- `read_pending`, of the writers in the order of their names.
  unfoldable pub read_pending : Dict EventSpool → Dict Position → ℕ → Pending Event
  read_pending writers cursor limit =
      read_writers writers cursor
        (record { events = []; cursor = cursor; drained = []; budget = limit })
