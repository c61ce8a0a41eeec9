-- ===== src/Files/Requests/Kept.antt =====
-- src/files: whatever is asked, the table stays in order and a completed file stays in it.
use nodejs_advanced_homework.Prelude.{◌≡◌, true, List, All, Has}
use nodejs_advanced_homework.Files.Service.{FileRow, is_completed}
use nodejs_advanced_homework.Files.Service.Committed.{Committed}
use nodejs_advanced_homework.Files.Service.Placed.{Placed}
use nodejs_advanced_homework.Files.Requests.Unique.{AreUnique}
use nodejs_advanced_homework.Files.Requests.Stored.{IsStored}

pub record IsTable (rows : List FileRow) : Type 0 where
  pub unique : AreUnique rows
  pub stored : All IsStored rows

-- Every completed row is still there, as it was.
abbrev pub Keeps : List FileRow → List FileRow → Type 0
Keeps old new = (r : FileRow) → Has r old → is_completed r.status ≡ true → Has r new

-- One change of the table.
abbrev IsGood : List FileRow → List FileRow → Type 0
IsGood old new = IsTable new × Keeps old new
