-- ===== src/LogAgent/Positions/Laws.antt =====
-- About `Save` and `LoadPositions` of internal/logagent/positions.go, and saves that break off.
use crm_beginner.Base.{◌≡◌, refl, Bool, true, false, none, if◌then◌else◌, ok}
use crm_beginner.LogAgent.Positions.{
  Saved, Disk, Codec, Saving, no_directory, partly_written, not_renamed, saves, save, load,
}

abbrev pub is_complete : Saving → Bool
is_complete saves = true
is_complete _ = false

-- Reading the positions file after a save gives the saved map if the save ran to its end, and what
-- it gave before the save if the save broke off at any point before the rename.
pub load-save :
    (codec : Codec) (saving : Saving) (m : Saved) (disk : Disk)
    → load codec none (save codec saving m disk).1
      ≡ (if is_complete saving then ok m else load codec none disk)
unfolding load save
load-save codec (no_directory e) m disk = refl
load-save codec (partly_written part e) m disk = refl
load-save codec (not_renamed e) m disk = refl
load-save codec saves m disk = rw (codec.round_trip m) refl
