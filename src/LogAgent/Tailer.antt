-- ===== src/LogAgent/Tailer.antt =====
-- internal/logagent/tailer.go: the reader of container log files.
pub mod Polling
pub mod Resume
pub mod Rotated
pub mod Growing
pub mod Running
pub mod Restart
use crm_beginner.Base.{
  ℕ, zero, suc, ◌+◌, Bool, true, false, not, ◌&&◌, ◌||◌, any, Option, none, some, List, [], ◌∷◌,
  ◌++◌, ◌==◌, ltb, if◌then◌else◌, length, drop, Result, ok, err,
}
use crm_beginner.Domain.{Error, sentinel, canceled}
use crm_beginner.LogAgent.Cri.{Line, LineError, parse_line, Source, parse_file_name, guess_level}
use crm_beginner.LogAgent.Positions.{Position, Saved, retain, get}
use crm_beginner.Text.Dict.{lookup, insert, keep_only}
use crm_beginner.Text.{Bytes, bytes, equal, is_empty}

-- A log entry on the wire, of proto/logpb/log.proto.
pub record WireEntry : Type 0 where
  pub level : Bytes
  pub message : Bytes
  pub service : Bytes
  pub timestamp : Bytes

pub record Entry : Type 0 where
  pub log : WireEntry
  pub file : Bytes
  pub inode : ℕ
  pub offset : ℕ

pub record FileState : Type 0 where
  pub inode : ℕ
  pub offset : ℕ
  pub pending : Bytes

-- A file that could be opened: what `Stat` says, the bytes that reading delivers, and the error at
-- their end, `none` for the end of the file.
pub record OpenFile : Type 0 where
  pub inode : ℕ
  pub size : ℕ
  pub content : Bytes
  pub read_error : Option Error

pub data Ending : Type 0 where
  complete cancelled : Ending
  failed : Error → Ending

-- What one pass over a file sends and leaves behind. `sends_left` is how many more entries are
-- taken before the context ends in the midst of a send, `none` if it does not.
pub record Pass : Type 0 where
  pub sent : List Entry
  pub state : FileState
  pub ending : Ending
  pub sends_left : Option ℕ

abbrev pub sends : Entry → Pass → Pass
sends e p = record p { sent = e ∷ p.sent }

-- `is_time` is `time.Parse(time.RFC3339Nano, ·)`, `excluded` the match of `LOG_EXCLUDE`.
pub record Settings : Type 0 where
  pub is_time : Bytes → Bool
  pub map_lower : Bytes → Bytes
  pub excluded : Bytes → Bool
  pub namespace : Bytes
  pub self_container : Bytes

module _ (cfg : Settings) (path : Bytes) (src : Source) (inode : ℕ) where
  abbrev entry_of : Line → Bytes → ℕ → Entry
  entry_of line message offset = record {
    log = record {
      level = guess_level cfg.map_lower message;
      message = message;
      service = src.container;
      timestamp = line.time;
    };
    file = path;
    inode = inode;
    offset = offset;
  }

  full_line : Line → Bytes → ℕ → Option Entry × Bytes
  full_line line message offset =
      if cfg.excluded message then (none, []) else (some (entry_of line message offset), [])

  parsed_line : Result LineError Line → Bytes → ℕ → Option Entry × Bytes
  unfolding full_line
  parsed_line (err e) pending offset = (none, pending)
  parsed_line (ok line) pending offset =
      if line.partial
      then (none, pending ++ line.message)
      else full_line line (pending ++ line.message) offset

  -- The body of the loop for a line that ends at `offset`: the entry to send, and what is pending.
  unfoldable pub on_line : Bytes → Bytes → ℕ → Option Entry × Bytes
  unfolding parsed_line
  on_line raw pending offset = parsed_line (parse_line cfg.is_time raw) pending offset

  ending_of : Option Error → Ending
  ending_of none = complete
  ending_of (some e) = failed e

  -- The loop over `ReadString('\n')`; `raw` is the line read so far.
  unfoldable pub scan : Option ℕ → Option Error → Bytes → ℕ → Bytes → Bytes → Pass
  unfolding ending_of
  scan budget read_error raw offset pending [] = record {
    sent = [];
    state = record { inode = inode; offset = offset; pending = pending };
    ending = ending_of read_error;
    sends_left = budget;
  }
  scan budget read_error raw offset pending (c ∷ s) = elim (c == b'\n') [
    | false ↦ scan budget read_error (raw ++ (c ∷ [])) offset pending s
    | true ↦
        let next = offset + length raw + 1 in
        let (entry, pending') = on_line raw pending next in
        elim entry [
          | none ↦ scan budget read_error [] next pending' s
          | some e ↦ elim budget [
            | none ↦ sends e (scan none read_error [] next pending' s)
            | some zero ↦ record {
              sent = [];
              state = record { inode = inode; offset = next; pending = pending' };
              ending = cancelled;
              sends_left = some zero;
            }
            | some (suc n) ↦ sends e (scan (some n) read_error [] next pending' s)
          ]
        ]
  ]

-- Where a file that is new to the tailer is taken up: at its saved position, if that is this file's.
first_state : ℕ → Option Position → FileState
first_state inode none = record { inode = inode; offset = 0; pending = [] }
first_state inode (some pos) = record {
  inode = inode;
  offset = if pos.inode == inode then pos.offset else 0;
  pending = [];
}

-- Rotated or truncated: from the top.
restart : OpenFile → FileState → FileState
restart f st =
    if not (st.inode == f.inode) || ltb f.size st.offset
    then record { inode = f.inode; offset = 0; pending = [] }
    else st

-- `readFile` on a file that could be opened, with what the tailer remembers of it.
unfoldable pub read_file :
    Settings → Bytes → Source → OpenFile → Option FileState → Option Position → Option ℕ → Pass
unfolding first_state restart scan
read_file cfg path src f known saved budget =
    let st0 : FileState = elim known [ some st ↦ st | none ↦ first_state f.inode saved ] in
    let st = restart f st0 in
    if f.size == st.offset
    then record { sent = []; state = st; ending = complete; sends_left = budget }
    else scan cfg path src f.inode budget f.read_error [] st.offset st.pending
        (drop st.offset f.content)
