-- ===== src/LogAgent/Positions.antt =====
-- internal/logagent/positions.go: the offsets that have been shipped, in memory and on disk. Each
-- method runs under the mutex, so that they happen one after another.
pub mod Laws
use crm_beginner.Base.{
  ℕ, ◌≡◌, Bool, true, false, Option, none, some, List, [], ◌∷◌, if◌then◌else◌, Result, ok, err,
}
use crm_beginner.Domain.{Error, wrap, other}
use crm_beginner.Text.Dict.{lookup, insert, keep_only}
use crm_beginner.Text.{Bytes, bytes}

pub record Position : Type 0 where
  pub inode : ℕ
  pub offset : ℕ

abbrev pub Saved : Type 0
Saved = List (Bytes × Position)

-- `Get`.
unfoldable pub get : Bytes → Saved → Option Position
get file m = lookup file m

-- `Set`.
unfoldable pub set : Bytes → Position → Saved → Saved
set file pos m = insert file pos m

-- `Retain`: `keep` is the set of the files to keep.
unfoldable pub retain : (Bytes → Bool) → Saved → Saved
retain keep m = keep_only keep m

-- The positions file on disk and the temporary file beside it.
pub record Disk : Type 0 where
  pub file : Option Bytes
  pub tmp : Option Bytes

-- `encoding/json` on the map: what is written is read back.
pub record Codec : Type 0 where
  pub marshal : Saved → Bytes
  pub unmarshal : Bytes → Option Saved
  pub round_trip : (m : Saved) → unmarshal (marshal m) ≡ some m

-- Where a save may break off: before it writes, behind a part of the temporary file, before the
-- rename, or not at all. A break is an error or a crash.
pub data Saving : Type 0 where
  no_directory : Error → Saving
  partly_written : Bytes → Error → Saving
  not_renamed : Error → Saving
  saves : Saving

module _ (codec : Codec) where
  -- `Save`.
  unfoldable pub save : Saving → Saved → Disk → Result Error (Unit {0}) × Disk
  save (no_directory e) m disk = (err e, disk)
  save (partly_written part e) m disk = (err e, record disk { tmp = some part })
  save (not_renamed e) m disk = (err e, record disk { tmp = some (codec.marshal m) })
  save saves m disk = (ok tt, record { file = some (codec.marshal m); tmp = none })

  -- `LoadPositions`; `failure` is a read that fails though the file is there.
  unfoldable pub load : Option Error → Disk → Result Error Saved
  load (some e) disk = err (wrap (bytes "read positions") e)
  load none disk = elim disk.file [
    | none ↦ ok []
    | some data' ↦ elim (codec.unmarshal data') [
      | none ↦ err (wrap (bytes "parse positions") (other []))
      | some m ↦ ok m
    ]
  ]
