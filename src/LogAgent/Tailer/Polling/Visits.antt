-- ===== src/LogAgent/Tailer/Polling/Visits.antt =====
-- About the first loop of `Poll` of internal/logagent/tailer.go: what it does with one path.
use crm_beginner.Base.{
  ℕ, ◌+◌, ◌≡◌, ◌⊎◌, refl, inl, inr, Bool, true, false, Option, none, some, List, [], ◌∷◌, ◌++◌,
  ◌==◌, if◌then◌else◌, length, drop, Result, ok, err, Bool-cases, Option-cases, Result-cases,
}
use crm_beginner.Domain.{Error}
use crm_beginner.LogAgent.Cri.{Source, parse_file_name}
use crm_beginner.LogAgent.Positions.{Position, get}
use crm_beginner.LogAgent.Tailer.Polling.{Tailer, Listing, Polled, wanted, visit, after_file}
use crm_beginner.LogAgent.Tailer.{
  Entry, FileState, OpenFile, Ending, complete, cancelled, failed, Pass, Settings, read_file, scan,
  on_line, ending_of, first_state, restart,
}
use crm_beginner.Text.Dict.{lookup, insert}
use crm_beginner.Text.{Bytes}

-- No send was cut short.
abbrev Goes : Ending → Type 0
Goes complete = Unit
Goes (failed e) = Unit
Goes cancelled = ⊥

Goes-cases : (e : Ending) → Goes e → (e ≡ complete) ⊎ ((f : Error) × (e ≡ failed f))
Goes-cases complete g = inl refl
Goes-cases (failed f) g = inr (f, refl)
Goes-cases cancelled g = absurd g

record Uncut (p : Pass) : Type 0 where
  unbounded : p.sends_left ≡ none
  goes : Goes p.ending

ending_of-Goes :
    (cfg : Settings) (path : Bytes) (src : Source) (inode : ℕ) (e : Option Error)
    → Goes (ending_of cfg path src inode e)
unfolding ending_of
ending_of-Goes cfg path src inode none = tt
ending_of-Goes cfg path src inode (some e) = tt

scan-Uncut :
    (cfg : Settings) (path : Bytes) (src : Source) (inode : ℕ) (read_error : Option Error)
    (raw : Bytes) (offset : ℕ) (pending s : Bytes)
    → Uncut (scan cfg path src inode none read_error raw offset pending s)
unfolding scan
scan-Uncut cfg path src inode read_error raw offset pending [] = record {
  unbounded = refl;
  goes = ending_of-Goes cfg path src inode read_error;
}
scan-Uncut cfg path src inode read_error raw offset pending (c ∷ s) =
    elim (Bool-cases (c == b'\n')) [
      | inr h ↦
          rw (scan, h) (scan-Uncut cfg path src inode read_error (raw ++ (c ∷ [])) offset pending s)
      | inl h ↦
          let next = offset + length raw + 1 in
          let r = on_line cfg path src inode raw pending next in
          let rest = scan-Uncut cfg path src inode read_error [] next r.1 s in
          elim (Option-cases r.0) [
            | inl n ↦ rw (scan, h, n) rest
            | inr (e, n) ↦ rw (scan, h, n) (record { unbounded = rest.unbounded; goes = rest.goes })
          ]
    ]

if-Uncut : (b : Bool) (p q : Pass) → Uncut p → Uncut q → Uncut (if b then p else q)
if-Uncut true p q h k = h
if-Uncut false p q h k = k

read_file-Uncut :
    (cfg : Settings) (path : Bytes) (src : Source) (f : OpenFile) (known : Option FileState)
    (saved : Option Position)
    → Uncut (read_file cfg path src f known saved none)
unfolding read_file
read_file-Uncut cfg path src f known saved =
    let st0 : FileState = elim known [ some st ↦ st | none ↦ first_state f.inode saved ] in
    let st = restart f st0 in
    if-Uncut (f.size == st.offset) _ _ (record { unbounded = refl; goes = tt })
      (scan-Uncut cfg path src f.inode f.read_error [] st.offset st.pending
        (drop st.offset f.content))

-- What a poll does with a path: nothing, one file that cannot be opened, or a pass over the file.
pub data Visit : Type 0 where
  skipped unopened : Visit
  passed : Pass → Visit

abbrev visit_as : Settings → Tailer → Bytes → Option Source → Result Error OpenFile → Visit
visit_as cfg t path none opened = skipped
visit_as cfg t path (some src) opened =
    if wanted cfg src
    then (elim opened [
      | err e ↦ unopened
      | ok f ↦ passed (read_file cfg path src f (lookup path t.files) (get path t.positions) none)
    ])
    else skipped

-- What the poll does with the path alone.
abbrev pub visit_of : Settings → Tailer → Bytes → Result Error OpenFile → Visit
visit_of cfg t path opened = visit_as cfg t path (parse_file_name path) opened

abbrev pub sent_of : Visit → List Entry
sent_of (passed p) = p.sent
sent_of _ = []

abbrev pub state_of : Visit → Option FileState → Option FileState
state_of (passed p) old = some p.state
state_of _ old = old

abbrev pub seen_of : Visit → Bytes → List Bytes
seen_of skipped path = []
seen_of _ path = path ∷ []

-- What the visit of a path adds to what the poll gives, and to the tailer.
abbrev pub joined : Visit → Bytes → Polled → Polled
joined v path rest = record rest {
  sent = sent_of v ++ rest.sent;
  seen = seen_of v path ++ rest.seen;
}

abbrev pub moved : Visit → Bytes → Tailer → Tailer
moved (passed p) path t = record t { files = insert path p.state t.files }
moved _ path t = t

abbrev pub visit_on : Settings → Listing → Tailer → Polled
visit_on cfg listing t = visit cfg (λ p. false) listing t none

pub visit-visit_of :
    (cfg : Settings) (path : Bytes) (opened : Result Error OpenFile) (more : Listing) (t : Tailer)
    → visit_on cfg ((path, opened) ∷ more) t
      ≡ joined
          (visit_of cfg t path opened)
          path
          (visit_on cfg more (moved (visit_of cfg t path opened) path t))
unfolding visit after_file
visit-visit_of cfg path opened more t = elim (Option-cases (parse_file_name path)) [
  | inl n ↦ rw (visit, n) refl
  | inr (src, n) ↦ elim (Bool-cases (wanted cfg src)) [
    | inr w ↦ rw (visit, n, w) refl
    | inl w ↦ elim (Result-cases opened) [
      | inr (e, o) ↦ rw (visit, n, w, o) refl
      | inl (f, o) ↦
          let u = read_file-Uncut cfg path src f (lookup path t.files) (get path t.positions) in
          elim (Goes-cases _ u.goes) [
            | inl c ↦ rw (visit, n, w, o, c, u.unbounded) refl
            | inr (e, c) ↦ rw (visit, n, w, o, c, u.unbounded) refl
          ]
    ]
  ]
]
