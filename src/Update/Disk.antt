-- ===== src/Update/Disk.antt =====
-- pkg/softwareupdate/manager.go: the files of the update root, and the helpers that read and write
-- them. A system call that can fail has a flag in the record of faults that its caller passes.
use tos_ai.Prelude.{
  ℕ, Bool, true, false, not, ◌&&◌, ◌||◌, Option, none, some, ltb, ◌==◌, if◌then◌else◌, length,
  Result, ok, err,
}
use tos_ai.Prelude.Text.{Bytes}
use tos_ai.Update.Slots.{
  Slot, slot_a, slot_b, UpdateError, create_file, write_file, commit_file, protect_file,
}

-- What `Lstat` tells of a file, and its content.
pub record File : Type 0 where
  pub regular : Bool
  pub perm : ℕ
  pub owned : Bool
  pub content : Bytes

-- A file that is replaced through `path + ".tmp"`.
pub record Place : Type 0 where
  pub current : Option File
  pub has_temporary : Bool

pub record SlotFiles : Type 0 where
  pub artifact : Place
  pub manifest : Place

pub record Disk : Type 0 where
  pub state_file : Place
  pub files_a : SlotFiles
  pub files_b : SlotFiles

abbrev pub no_files : SlotFiles
no_files = record {
  artifact = record { current = none; has_temporary = false };
  manifest = record { current = none; has_temporary = false };
}

-- The directory of a slot. Paths are built for valid slots only.
abbrev pub slot_files : Slot → Disk → SlotFiles
slot_files slot_a d = d.files_a
slot_files slot_b d = d.files_b
slot_files _ d = no_files

abbrev pub set_slot_files : Slot → SlotFiles → Disk → Disk
set_slot_files slot_a fs d = record d { files_a = fs }
set_slot_files slot_b fs d = record d { files_b = fs }
set_slot_files _ fs d = d

-- 0o600 and 0o500
abbrev pub private_mode : ℕ
private_mode = 0o600

abbrev pub executable_mode : ℕ
executable_mode = 0o500

pub record WriteFaults : Type 0 where
  pub create : Bool
  pub write : Bool
  pub rename : Bool
  pub chmod : Bool
  pub remove : Bool

-- `writeAtomic`: on an error before the rename the file keeps its content.
unfoldable pub write_atomic :
    WriteFaults → Bytes → ℕ → Place → Result UpdateError (Unit {0}) × Place
write_atomic io value mode p =
    if io.create || p.has_temporary
    then (err create_file, p)
    else if io.write
    then (err write_file, record p { has_temporary = io.remove })
    else if io.rename
    then (err commit_file, record p { has_temporary = io.remove })
    else (
      if io.chmod then err protect_file else ok tt,
      record {
        current = some (record { regular = true; perm = mode; owned = true; content = value });
        has_temporary = false;
      },
    )

pub data ReadResult : Type 0 where
  absent unreadable : ReadResult
  contents : Bytes → ReadResult

-- `readPrivateFile`
unfoldable pub read_private_file : Bool → ℕ → ℕ → Place → ReadResult
read_private_file fault maximum mode p = elim p.current [
  | none ↦ if fault then unreadable else absent
  | some f ↦
      if fault
        || not f.regular
        || not (f.perm == mode)
        || not f.owned
        || ltb maximum (length f.content)
      then unreadable
      else contents f.content
]

-- `cleanInterruptedFiles`, where a removal may fail silently
unfoldable pub clean_interrupted_files : Bool → SlotFiles → SlotFiles
clean_interrupted_files remove_fails fs = record {
  artifact = record (fs.artifact) { has_temporary = fs.artifact.has_temporary && remove_fails };
  manifest = record (fs.manifest) { has_temporary = fs.manifest.has_temporary && remove_fails };
}
