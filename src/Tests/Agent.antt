-- ===== src/Tests/Agent.antt =====
-- The agent that reads the log files.
use crm_beginner.Base.{
  ℕ, zero, suc, ◌≡◌, refl, true, false, none, some, List, [], ◌∷◌, ◌++◌, drop, ok, if◌then◌else◌,
}
use crm_beginner.Domain.{other}
use crm_beginner.Grpc.Logs.{summary}
use crm_beginner.LogAgent.Cri.{Source, parse_line}
use crm_beginner.LogAgent.Positions.Laws.{load-save, is_complete}
use crm_beginner.LogAgent.Positions.{Saved, Disk, saves, not_renamed, load, save}
use crm_beginner.LogAgent.Shipper.Delivery.{flush-Recorded, Recorded, gets_receipt}
use crm_beginner.LogAgent.Shipper.{unanswered, summary, Shipper, Attempt, flush}
use crm_beginner.LogAgent.Tailer.Resume.{scan-resume}
use crm_beginner.LogAgent.Tailer.{Entry, Settings, on_line, scan, Pass}
use crm_beginner.Tests.Data.{positions_codec}
use crm_beginner.Text.{Bytes, bytes, equal, split_n}
use crm_beginner.LogAgent.Cri.{Line}
use crm_beginner.LogAgent.Cri.Format.{print_line, parse_line-print_line}
use crm_beginner.Base.{inr}

abbrev pub settings : Settings
settings = record {
  is_time = λ s. true;
  map_lower = λ s. s;
  excluded = λ s. false;
  namespace = [];
  self_container = bytes "log-agent";
}

abbrev pub source : Source
source = record { pod = bytes "p"; space = bytes "n"; container = bytes "c" }

-- Two full lines around a line in two parts.
abbrev pub content : Bytes
content = bytes "t stdout F one\nt stdout P tw\nt stdout F o\nt stderr F three\n"

abbrev pub whole : Pass
whole = scan settings (bytes "f") source 3 none none [] 0 [] content

abbrev nth : ℕ → List Entry → Entry
nth n [] = record {
  log = record { level = []; message = []; service = []; timestamp = [] };
  file = [];
  inode = 0;
  offset = 0;
}
nth zero (e ∷ es) = e
nth (suc n) (e ∷ es) = nth n es

abbrev pub first : Entry
first = nth 0 whole.sent

abbrev pub second : Entry
second = nth 1 whole.sent

abbrev pub third : Entry
third = nth 2 whole.sent

three_sent : whole.sent ≡ (first ∷ []) ++ second ∷ third ∷ []
unfolding scan parse_line split_n on_line equal
three_sent = refl

scan-resume_example :
    scan settings (bytes "f") source 3 none none [] second.offset [] (drop second.offset content)
    ≡ record whole { sent = third ∷ [] }
scan-resume_example =
    scan-resume settings (bytes "f") source 3 none content (first ∷ []) second (third ∷ [])
      three_sent

abbrev pub shipper : Shipper
shipper = record { positions = []; disk = record { file = none; tmp = none }; shipped = 0 }

-- The second attempt gets the receipt.
abbrev pub attempts : List Attempt
attempts =
    (record { call = unanswered (other []); saving = saves; ctx_done = false })
    ∷ (record { call = summary 2; saving = saves; ctx_done = false })
    ∷ []

flush-Recorded_example :
    Recorded
      (gets_receipt attempts)
      (bytes "f")
      (first ∷ second ∷ [])
      shipper
      (flush positions_codec attempts (first ∷ second ∷ []) shipper).1
flush-Recorded_example =
    flush-Recorded positions_codec attempts (bytes "f") (first ∷ second ∷ []) shipper

abbrev saved : Saved
saved = (bytes "f", record { inode = 3; offset = 15 }) ∷ []

abbrev disk : Disk
disk = record { file = none; tmp = some (bytes "{") }

load-save_example :
    load positions_codec none (save positions_codec (not_renamed (other [])) saved disk).1
    ≡ (if is_complete (not_renamed (other [])) then ok saved else load positions_codec none disk)
load-save_example = load-save positions_codec (not_renamed (other [])) saved disk

abbrev partial_line : Line
partial_line = record {
  time = bytes "2024-01-02T03:04:05.6Z";
  stream = bytes "stderr";
  partial = true;
  message = bytes "two words";
}

parse_line-print_line_example :
    parse_line (λ s. equal s (bytes "2024-01-02T03:04:05.6Z")) (print_line partial_line)
    ≡ ok partial_line
unfolding equal
parse_line-print_line_example =
    parse_line-print_line (λ s. equal s (bytes "2024-01-02T03:04:05.6Z")) partial_line refl refl
      (inr refl)
