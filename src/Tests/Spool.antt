-- ===== src/Tests/Spool.antt =====
-- The spool's theorems at concrete inputs: a file of two lines, and a third that is appended.
use ai_security_gateway.Base.{◌≤◌, ◌≡◌, refl, some, none, [], ◌∷◌, ◌++◌, arith}
use ai_security_gateway.Base.Dict
use ai_security_gateway.Selfhost.Spool.{
  Bytes, Position, take, end_of_lines, splitlines, decoded, read_from, read_files, files_from,
}
use ai_security_gateway.Selfhost.Spool.Lines.{is_whole}
use ai_security_gateway.Selfhost.Spool.Resume.{read_active, read_active-resume, read_active-all}

abbrev two_lines : Bytes
two_lines = 97 ∷ 10 ∷ 98 ∷ 99 ∷ 10 ∷ []

abbrev third : Bytes
third = 100 ∷ 10 ∷ []

abbrev first_cursor : Position
first_cursor = record { inode = 7; offset = 2 }

abbrev last_cursor : Position
last_cursor = record { inode = 7; offset = 7 }

at_first :
    Dict.get "worker" (read_active some "worker" 7 two_lines none 4).cursor ≡ some first_cursor
unfolding read_active read_from read_files files_from take end_of_lines Dict.put Dict.get
at_first = refl

at_last :
    Dict.get "worker"
      (read_active some "worker" 7 (two_lines ++ third) (some first_cursor) 90).cursor
    ≡ some last_cursor
unfolding read_active read_from read_files files_from take end_of_lines Dict.put Dict.get
at_last = refl

read_active-resume_example :
    ((read_active some "worker" 7 two_lines none 4).events
        ++ (read_active some "worker" 7 (two_lines ++ third) (some first_cursor) 90).events
      ≡ decoded some (splitlines (take 7 (two_lines ++ third))))
    × (2 ≤ 7)
read_active-resume_example =
    read_active-resume some "worker" 7 two_lines third 4 90 first_cursor last_cursor at_first
      at_last

read_active-all_example :
    (read_active some "worker" 7 two_lines none 90).events ≡ decoded some (splitlines two_lines)
unfolding is_whole
read_active-all_example = read_active-all some "worker" 7 two_lines 90 refl (omega arith)
