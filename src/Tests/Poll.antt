-- ===== src/Tests/Poll.antt =====
-- The names of log files, and a poll over them.
use crm_beginner.Base.{◌≡◌, refl, Bool, false, any, if◌then◌else◌, none, some, [], ◌∷◌, ok, err}
use crm_beginner.Domain.{other}
use crm_beginner.LogAgent.Cri.{Source, parse_file_name}
use crm_beginner.LogAgent.Cri.FileName.{Names, print_path, parse_file_name-print_path}
use crm_beginner.LogAgent.Positions.{get}
use crm_beginner.LogAgent.Tailer.Polling.Exact.{
  all_sent, all_seen, state_behind, Distinct, poll-exact,
}
use crm_beginner.LogAgent.Tailer.Polling.{Tailer, Listing, poll}
use crm_beginner.Tests.Agent.{settings, content}
use crm_beginner.Text.Dict.{lookup}
use crm_beginner.Text.{Bytes, bytes, equal}

abbrev id : Bytes
id = bytes "0123456789abcdef0123456789abcdef0123456789abcdef0123456789abcdef"

abbrev web : Source
web = record { pod = bytes "web-7d9"; space = bytes "crm"; container = bytes "web-server" }

abbrev dir : Bytes
dir = bytes "/var/log/containers"

web-Names : Names web id
web-Names = record {
  pod = refl;
  space = refl;
  container = refl;
  has_container = refl;
  no_slashes = refl;
  no_underscores = refl;
  no_dashes = refl;
  whole_id = refl;
}

parse_file_name-print_path_example : parse_file_name (print_path dir web id) ≡ some web
parse_file_name-print_path_example = parse_file_name-print_path dir web id web-Names

abbrev gone : Bytes
gone = print_path dir (record web { pod = bytes "gone" }) id

-- A file that is known up to its first line, one that cannot be opened, and one of no container.
abbrev listing : Listing
listing =
    (
      print_path dir web id,
      ok (record { inode = 3; size = 60; content = content; read_error = none }),
    )
    ∷ (gone, err (other (bytes "permission denied")))
    ∷ (bytes "/var/log/containers/notes.txt", err (other []))
    ∷ []

abbrev tailer : Tailer
tailer = record {
  files =
      (print_path dir web id, record { inode = 3; offset = 15; pending = [] })
      ∷ (bytes "old", record { inode = 4; offset = 7; pending = [] })
      ∷ [];
  positions = (gone, record { inode = 9; offset = 2 }) ∷ [];
}

listing-Distinct : Distinct listing
unfolding equal
listing-Distinct = ((refl, (refl, tt)), ((refl, tt), (tt, tt)))

poll-exact_example :
    let p = poll settings (λ path. false) listing tailer none in
    let seen : Bytes → Bool = λ j. any (equal j) (all_seen settings tailer listing) in
    (p.cancelled ≡ false)
    × (p.sent ≡ all_sent settings tailer listing)
    × ((j : Bytes)
        → lookup j p.tailer.files ≡ (
            if seen j
            then state_behind settings tailer listing j (lookup j tailer.files)
            else none))
    × ((j : Bytes) → get j p.tailer.positions ≡ (if seen j then get j tailer.positions else none))
poll-exact_example = poll-exact settings tailer listing listing-Distinct
