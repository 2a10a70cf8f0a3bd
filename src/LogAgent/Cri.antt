-- ===== src/LogAgent/Cri.antt =====
-- internal/logagent/cri.go: lines and names of container log files.
pub mod Format
pub mod FileName
use crm_beginner.Base.{
  ◌-◌, Bool, true, false, not, ◌&&◌, ◌||◌, Option, none, some, List, [], ◌∷◌, ◌++◌, ◌==◌,
  if◌then◌else◌, length, take, Result, ok, err,
}
use crm_beginner.Text.{
  Bytes, bytes, equal, contains, split_n, split, last_index, cut_suffix, is_empty, to_lower,
}

pub record Line : Type 0 where
  pub time : Bytes
  pub stream : Bytes
  pub partial : Bool
  pub message : Bytes

pub data LineError : Type 0 where
  not_cri bad_timestamp unknown_stream unknown_tag : LineError

abbrev pub with_message : List Bytes → Bytes
with_message [] = []
with_message (message ∷ more) = message

parse_tag : Bytes → Bytes → Bytes → List Bytes → Result LineError Line
parse_tag time stream tag rest =
    if equal tag (bytes "F")
    then ok (record { time = time; stream = stream; partial = false; message = with_message rest })
    else if equal tag (bytes "P")
    then ok (record { time = time; stream = stream; partial = true; message = with_message rest })
    else err unknown_tag

parse_parts : (Bytes → Bool) → List Bytes → Result LineError Line
unfolding parse_tag
parse_parts is_time (time ∷ stream ∷ tag ∷ rest) =
    if not (is_time time)
    then err bad_timestamp
    else if not (equal stream (bytes "stdout")) && not (equal stream (bytes "stderr"))
    then err unknown_stream
    else parse_tag time stream tag rest
parse_parts is_time _ = err not_cri

-- `ParseLine`; `is_time` says whether `time.Parse(time.RFC3339Nano, ·)` succeeds.
unfoldable pub parse_line : (Bytes → Bool) → Bytes → Result LineError Line
unfolding parse_parts split_n
parse_line is_time raw = parse_parts is_time (split_n b' ' 4 raw)

pub record Source : Type 0 where
  pub pod : Bytes
  pub space : Bytes
  pub container : Bytes

-- What stands behind the last slash.
after_slash : Bytes → Bytes → Bytes
after_slash seen [] = seen
after_slash seen (c ∷ s) = after_slash (if c == b'/' then [] else seen ++ (c ∷ [])) s

all_slashes : Bytes → Bool
all_slashes [] = true
all_slashes (c ∷ s) = c == b'/' && all_slashes s

drop_slashes : Bytes → Bytes
unfolding all_slashes
drop_slashes [] = []
drop_slashes (c ∷ s) = let rest = drop_slashes s in if all_slashes (c ∷ s) then [] else c ∷ rest

-- `filepath.Base`.
unfoldable pub base : Bytes → Bytes
unfolding after_slash all_slashes drop_slashes
base path =
    if is_empty path
    then bytes "."
    else if all_slashes path
    then bytes "/"
    else after_slash [] (drop_slashes path)

source_of : List Bytes → Option Source
source_of (pod ∷ space ∷ last ∷ []) = elim (last_index last b'-') [
  | none ↦ none
  | some dash ↦
      if dash == 0 || not (length last - dash - 1 == 64)
      then none
      else some (record { pod = pod; space = space; container = take dash last })
]
source_of _ = none

-- `ParseFileName`.
unfoldable pub parse_file_name : Bytes → Option Source
unfolding source_of base cut_suffix split last_index
parse_file_name path = elim (cut_suffix (base path) (bytes ".log")) [
  | none ↦ none
  | some name ↦ source_of (split b'_' name)
]

-- `GuessLevel`; `map_lower` is `strings.Map(unicode.ToLower, ·)`.
unfoldable pub guess_level : (Bytes → Bytes) → Bytes → Bytes
unfolding to_lower contains
guess_level map_lower message =
    let m = to_lower map_lower message in
    if contains m (bytes "panic") || contains m (bytes "fatal") || contains m (bytes "error")
    then bytes "error"
    else if contains m (bytes "warn")
    then bytes "warn"
    else bytes "info"
