-- ===== src/LogAgent/Tailer/Polling.antt =====
-- `Poll` of internal/logagent/tailer.go: one pass over the files of the directory.
pub mod Visits
pub mod Exact
use crm_beginner.Base.{
  ℕ, Bool, true, false, ◌||◌, any, Option, none, some, List, [], ◌∷◌, ◌++◌, if◌then◌else◌, Result,
  ok, err,
}
use crm_beginner.Domain.{Error}
use crm_beginner.LogAgent.Cri.{Source, parse_file_name}
use crm_beginner.LogAgent.Positions.{Saved, retain, get}
use crm_beginner.Text.Dict.{lookup, insert, keep_only}
use crm_beginner.Text.{Bytes, equal, is_empty}
use crm_beginner.LogAgent.Tailer.{
  Entry, FileState, OpenFile, complete, cancelled, failed, Pass, Settings, read_file,
}

-- `wanted`.
unfoldable pub wanted : Settings → Source → Bool
wanted cfg src =
    if equal src.container cfg.self_container
    then false
    else is_empty cfg.namespace || equal src.space cfg.namespace

pub record Tailer : Type 0 where
  pub files : List (Bytes × FileState)
  pub positions : Saved

-- What opening a path gives; its errors leave the tailer as it was.
abbrev pub Listing : Type 0
Listing = List (Bytes × Result Error OpenFile)

pub record Polled : Type 0 where
  pub sent : List Entry
  pub tailer : Tailer
  pub seen : List Bytes
  pub cancelled : Bool
  pub sends_left : Option ℕ

after_file : Bytes → Pass → Polled → Polled
after_file path p rest = record rest { sent = p.sent ++ rest.sent; seen = path ∷ rest.seen }

stop_at : Bytes → Pass → Tailer → Polled
stop_at path p t = record {
  sent = p.sent;
  tailer = t;
  seen = path ∷ [];
  cancelled = true;
  sends_left = p.sends_left;
}

-- The first loop of `Poll`, over the paths of the directory. An error of a file is passed over,
-- unless the context has ended by then, which `has_ended` says.
pub visit : Settings → (Bytes → Bool) → Listing → Tailer → Option ℕ → Polled
unfolding after_file stop_at
visit cfg has_ended [] t budget = record {
  sent = [];
  tailer = t;
  seen = [];
  cancelled = false;
  sends_left = budget;
}
visit cfg has_ended ((path, opened) ∷ more) t budget = elim (parse_file_name path) [
  | none ↦ visit cfg has_ended more t budget
  | some src ↦ elim (wanted cfg src) [
    | false ↦ visit cfg has_ended more t budget
    | true ↦ elim opened [
      | err e ↦ elim (has_ended path) [
        | true ↦ record {
          sent = [];
          tailer = t;
          seen = path ∷ [];
          cancelled = true;
          sends_left = budget;
        }
        | false ↦
            let rest = visit cfg has_ended more t budget in record rest { seen = path ∷ rest.seen }
      ]
      | ok f ↦
          let p = read_file cfg path src f (lookup path t.files) (get path t.positions) budget in
          let t' = record t { files = insert path p.state t.files } in
          elim p.ending [
            | complete ↦ after_file path p (visit cfg has_ended more t' p.sends_left)
            | cancelled ↦ stop_at path p t'
            | failed e ↦ elim (has_ended path) [
              | true ↦ stop_at path p t'
              | false ↦ after_file path p (visit cfg has_ended more t' p.sends_left)
            ]
          ]
    ]
  ]
]

is_seen : List Bytes → Bytes → Bool
is_seen seen path = any (equal path) seen

-- `Poll`: the entries sent, the tailer behind it, and whether it returned `ctx.Err()`.
unfoldable pub poll : Settings → (Bytes → Bool) → Listing → Tailer → Option ℕ → Polled
unfolding visit is_seen
poll cfg has_ended listing t budget =
    let v = visit cfg has_ended listing t budget in
    if v.cancelled then v else record v {
      tailer = record {
        files = keep_only (is_seen v.seen) v.tailer.files;
        positions = retain (is_seen v.seen) v.tailer.positions;
      };
    }
