-- ===== src/LogAgent/Tailer/Restart.antt =====
-- About `readFile` of internal/logagent/tailer.go, on a file of which a position was saved.
use crm_beginner.Base.{
  ℕ, ◌+◌, ◌≤◌, ◌≡◌, refl, ap, ◌∙◌, inl, inr, Option, none, some, [], ◌∷◌, ◌++◌, ◌==◌, length, drop,
  All, arith, Bool-cases, Option-cases, length-drop, ==_self,
}
use crm_beginner.Domain.{Error}
use crm_beginner.LogAgent.Cri.{Source}
use crm_beginner.LogAgent.Positions.{Position}
use crm_beginner.LogAgent.Tailer.{
  Entry, Settings, OpenFile, FileState, on_line, scan, read_file, first_state, restart,
}
use crm_beginner.Text.{Bytes}

-- A file whose bytes can all be read.
abbrev pub whole_file : ℕ → Bytes → OpenFile
whole_file inode content = record {
  inode = inode;
  size = length content;
  content = content;
  read_error = none;
}

abbrev pub offset_of : Option Position → ℕ
offset_of none = 0
offset_of (some pos) = pos.offset

pub nil_of_length : (s : Bytes) → length s ≡ 0 → s ≡ []
nil_of_length [] h = refl
nil_of_length (c ∷ s) h = absurd (omega arith)

module _ (cfg : Settings) (path : Bytes) (src : Source) (inode : ℕ) where
  abbrev pub IsFrom : Entry → Type 0
  IsFrom e = (e.file ≡ path) × (e.inode ≡ inode)

  on_line-IsFrom :
      (raw pending : Bytes) (offset : ℕ) (e : Entry)
      → (on_line cfg path src inode raw pending offset).0 ≡ some e
      → IsFrom e
  unfolding on_line
  on_line-IsFrom raw pending offset e h = ground arith

  -- Every entry of a pass names the file and its inode.
  pub scan-IsFrom :
      (read_error : Option Error) (raw : Bytes) (offset : ℕ) (pending s : Bytes)
      → All IsFrom (scan cfg path src inode none read_error raw offset pending s).sent
  unfolding scan
  scan-IsFrom read_error raw offset pending [] = tt
  scan-IsFrom read_error raw offset pending (c ∷ s) = elim (Bool-cases (c == b'\n')) [
    | inr more ↦ rw (more, scan) (scan-IsFrom read_error (raw ++ (c ∷ [])) offset pending s)
    | inl newline ↦
        let next = offset + length raw + 1 in
        let line = on_line cfg path src inode raw pending next in
        elim (Option-cases line.0) [
          | inl is ↦ rw (newline, scan) (rw (is, scan) (scan-IsFrom read_error [] next line.1 s))
          | inr (e, is) ↦
              rw (newline, scan)
                (rw (is, scan)
                  (on_line-IsFrom raw pending next e is, scan-IsFrom read_error [] next line.1 s))
        ]
  ]

  abbrev fresh : ℕ → FileState
  fresh offset = record { inode = inode; offset = offset; pending = [] }

  -- The position is this file's.
  abbrev pub IsOwn : Option Position → Type 0
  IsOwn none = Unit
  IsOwn (some pos) = pos.inode ≡ inode

  restart-fresh :
      (content : Bytes) (offset : ℕ)
      → offset ≤ length content
      → restart (whole_file inode content) (fresh offset) ≡ fresh offset
  unfolding restart
  restart-fresh content offset h = ground (arith, ==_self inode)

  first_state-fresh :
      (saved : Option Position) → IsOwn saved → first_state inode saved ≡ fresh (offset_of saved)
  unfolding first_state
  first_state-fresh none h = refl
  first_state-fresh (some place) h = ground arith

  -- A saved position of this file, no further than its end, is where reading goes on.
  pub read_file-saved :
      (content : Bytes) (saved : Option Position)
      → IsOwn saved
      → offset_of saved ≤ length content
      → (read_file cfg path src (whole_file inode content) none saved none).sent
        ≡ (scan cfg path src inode none none []
            (offset_of saved)
            []
            (drop (offset_of saved) content)).sent
  unfolding read_file
  read_file-saved content saved own h =
      let state : restart (whole_file inode content) (first_state inode saved)
          ≡ fresh (offset_of saved) =
        ap (restart (whole_file inode content)) (first_state-fresh saved own)
        ∙ restart-fresh content (offset_of saved) h in
      elim (Bool-cases (length content == offset_of saved)) [
        | inr more ↦ rw (state, more) refl
        | inl all_read ↦
            let none_left : drop (offset_of saved) content ≡ [] =
              nil_of_length (drop (offset_of saved) content)
                (ground (arith, length-drop (offset_of saved) content)) in
            rw (state, all_read, none_left) (unfold scan in refl)
      ]
