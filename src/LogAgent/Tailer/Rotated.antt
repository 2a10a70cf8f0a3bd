-- ===== src/LogAgent/Tailer/Rotated.antt =====
-- About `readFile` of internal/logagent/tailer.go, on a file that was replaced or cut off.
use crm_beginner.Base.{
  ℕ, ◌<◌, ◌≡◌, ◌≢◌, ◌⊎◌, inl, inr, refl, Option, none, some, [], arith, ==_iff, ==_self, lt→ltb,
}
use crm_beginner.LogAgent.Cri.{Source}
use crm_beginner.LogAgent.Positions.{Position}
use crm_beginner.LogAgent.Tailer.{FileState, OpenFile, Settings, read_file, restart, first_state}
use crm_beginner.Text.{Bytes}

module _ (cfg : Settings) (path : Bytes) (src : Source) where
  abbrev top : OpenFile → FileState
  top f = record { inode = f.inode; offset = 0; pending = [] }

  restart-top :
      (f : OpenFile) (st : FileState)
      → ((st.inode ≢ f.inode) ⊎ (f.size < st.offset))
      → restart f st ≡ top f
  unfolding restart
  restart-top f st (inl other) = ground (arith, ==_iff st.inode f.inode)
  restart-top f st (inr short) = ground (arith, lt→ltb f.size st.offset)

  restart-first : (f : OpenFile) → restart f (first_state f.inode none) ≡ top f
  unfolding restart first_state
  restart-first f = ground (arith, ==_self f.inode)

  -- If another file stands at the path, or the file is shorter than what was read, the pass is that
  -- of a tailer that sees the path for the first time with no saved position: it begins at the top,
  -- and what was pending is forgotten.
  read_file-restart :
      (f : OpenFile) (st : FileState) (saved : Option Position) (budget : Option ℕ)
      → ((st.inode ≢ f.inode) ⊎ (f.size < st.offset))
      → read_file cfg path src f (some st) saved budget ≡ read_file cfg path src f none none budget
  unfolding read_file
  read_file-restart f st saved budget h = rw (restart-top f st h, restart-first f) refl
