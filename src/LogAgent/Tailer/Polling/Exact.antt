-- ===== src/LogAgent/Tailer/Polling/Exact.antt =====
-- About `Poll` of internal/logagent/tailer.go while its context goes on.
use crm_beginner.Base.{
  ◌≡◌, ◌∙◌, refl, sym, ap, subst, inl, inr, Bool, true, false, any, Option, none, List, [], ◌∷◌,
  ◌++◌, if◌then◌else◌, Result, All, arith, Bool-cases, Option-cases, Result-cases,
}
use crm_beginner.Domain.{Error}
use crm_beginner.LogAgent.Cri.{parse_file_name}
use crm_beginner.LogAgent.Positions.{retain, get}
use crm_beginner.LogAgent.Tailer.Polling.{Tailer, Listing, Polled, wanted, visit, is_seen, poll}
use crm_beginner.LogAgent.Tailer.{Entry, FileState, OpenFile, Settings}
use crm_beginner.Text.Dict.{lookup, lookup-insert, lookup-keep_only}
use crm_beginner.Text.Search.{equal_iff}
use crm_beginner.Text.{Bytes, equal}
use crm_beginner.LogAgent.Tailer.Polling.Visits.{
  Visit, skipped, unopened, passed, visit_of, sent_of, state_of, seen_of, joined, moved, visit_on,
  visit-visit_of,
}

module _ (cfg : Settings) (t : Tailer) where
  -- The passes over all paths, each of them as the tailer was before the poll.
  abbrev pub all_sent : Listing → List Entry
  all_sent [] = []
  all_sent ((path, opened) ∷ more) = sent_of (visit_of cfg t path opened) ++ all_sent more

  abbrev pub all_seen : Listing → List Bytes
  all_seen [] = []
  all_seen ((path, opened) ∷ more) = seen_of (visit_of cfg t path opened) path ++ all_seen more

  -- The state of a file behind the pass over it, and the old one if there is none.
  abbrev pub state_behind : Listing → Bytes → Option FileState → Option FileState
  state_behind [] j old = old
  state_behind ((path, opened) ∷ more) j old =
      if equal path j then state_of (visit_of cfg t path opened) old else state_behind more j old

-- No path is listed twice.
abbrev pub Distinct : Listing → Type 0
Distinct [] = Unit
Distinct ((path, opened) ∷ more) = All (λ x. equal path x.0 ≡ false) more × Distinct more

module _ (cfg : Settings) (t : Tailer) where
  -- What the first loop of the poll leaves of a listing, from any tailer that agrees with `t` on it.
  record Visits (listing : Listing) (start : Tailer) (v : Polled) : Type 0 where
    goes_on : v.cancelled ≡ false
    sent : v.sent ≡ all_sent cfg t listing
    seen : v.seen ≡ all_seen cfg t listing
    positions : v.tailer.positions ≡ t.positions
    files :
        (j : Bytes) → lookup j v.tailer.files ≡ state_behind cfg t listing j (lookup j start.files)

  record Agrees (listing : Listing) (start : Tailer) : Type 0 where
    files : All (λ x. lookup x.0 start.files ≡ lookup x.0 t.files) listing
    positions : start.positions ≡ t.positions

  visit_of-Agrees :
      (path : Bytes) (opened : Result Error OpenFile) (more : Listing) (start : Tailer)
      → Agrees ((path, opened) ∷ more) start
      → visit_of cfg start path opened ≡ visit_of cfg t path opened
  visit_of-Agrees path opened more start a = elim (Option-cases (parse_file_name path)) [
    | inl n ↦ rw n refl
    | inr (src, n) ↦ elim (Bool-cases (wanted cfg src)) [
      | inr w ↦ rw (n, w) refl
      | inl w ↦ elim (Result-cases opened) [
        | inr (e, o) ↦ rw (n, w, o) refl
        | inl (f, o) ↦ rw (n, w, o, a.files.0, a.positions) refl
      ]
    ]
  ]

  state_behind-absent :
      (path j : Bytes) (more : Listing) (old : Option FileState)
      → equal path j ≡ true
      → All (λ x. equal path x.0 ≡ false) more
      → state_behind cfg t more j old ≡ old
  state_behind-absent path j [] old e a = refl
  state_behind-absent path j ((k, opened) ∷ more) old e (h, a) =
      let other : equal k j ≡ false =
        ground (arith, equal_iff path j, equal_iff k j, equal_iff path k) in
      rw other (state_behind-absent path j more old e a)

  lookup-moved :
      (v : Visit) (path j : Bytes) (start : Tailer)
      → lookup j (moved v path start).files
        ≡ (if equal path j then state_of v (lookup j start.files) else lookup j start.files)
  lookup-moved skipped path j start = ground arith
  lookup-moved unopened path j start = ground arith
  lookup-moved (passed p) path j start = lookup-insert path j p.state start.files

  moved_other :
      (v : Visit) (path j : Bytes) (start : Tailer)
      → equal path j ≡ false
      → lookup j (moved v path start).files ≡ lookup j start.files
  moved_other v path j start e = lookup-moved v path j start ∙ rw e refl

  moved-Agrees :
      (v : Visit) (path : Bytes) (more : Listing) (start : Tailer)
      → All (λ x. equal path x.0 ≡ false) more
      → All (λ x. lookup x.0 start.files ≡ lookup x.0 t.files) more
      → All (λ x. lookup x.0 (moved v path start).files ≡ lookup x.0 t.files) more
  moved-Agrees v path [] start others a = tt
  moved-Agrees v path ((k, opened) ∷ more) start (h, others) (b, a) =
      (moved_other v path k start h ∙ b, moved-Agrees v path more start others a)

  moved-positions :
      (v : Visit) (path : Bytes) (start : Tailer) → (moved v path start).positions ≡ start.positions
  moved-positions skipped path start = refl
  moved-positions unopened path start = refl
  moved-positions (passed p) path start = refl

  joined-Visits :
      (path : Bytes) (opened : Result Error OpenFile) (more : Listing) (start : Tailer)
      (rest : Polled)
      → All (λ x. equal path x.0 ≡ false) more
      → Visits more (moved (visit_of cfg t path opened) path start) rest
      → Visits ((path, opened) ∷ more) start (joined (visit_of cfg t path opened) path rest)
  joined-Visits path opened more start rest others v =
      let here = visit_of cfg t path opened in
      record {
        goes_on = v.goes_on;
        sent = ap (λ z. sent_of here ++ z) v.sent;
        seen = ap (λ z. seen_of here path ++ z) v.seen;
        positions = v.positions;
        files = λ j. elim (Bool-cases (equal path j)) [
          | inl e ↦
              v.files j
              ∙ state_behind-absent path j more (lookup j (moved here path start).files) e others
              ∙ lookup-moved here path j start
              ∙ rw e refl
          | inr e ↦
              v.files j
              ∙ ap (state_behind cfg t more j) (moved_other here path j start e)
              ∙ rw e refl
        ];
      }

  visit-Visits :
      (listing : Listing) (start : Tailer)
      → Distinct listing
      → Agrees listing start
      → Visits listing start (visit_on cfg listing start)
  unfolding visit
  visit-Visits [] start d a = record {
    goes_on = refl;
    sent = refl;
    seen = refl;
    positions = a.positions;
    files = λ j. refl;
  }
  visit-Visits ((path, opened) ∷ more) start (others, d) a =
      let here = visit_of cfg t path opened in
      let start' = moved here path start in
      let later : Visits more start' (visit_on cfg more start') =
        visit-Visits more start' d (record {
          files = moved-Agrees here path more start others a.files.1;
          positions = moved-positions here path start ∙ a.positions;
        }) in
      subst (Visits ((path, opened) ∷ more) start)
        (ap (λ v. joined v path (visit_on cfg more (moved v path start)))
            (sym (visit_of-Agrees path opened more start a))
          ∙ sym (visit-visit_of cfg path opened more start))
        (joined-Visits path opened more start (visit_on cfg more start') others later)

  all_agree : (listing : Listing) → All (λ x. lookup x.0 t.files ≡ lookup x.0 t.files) listing
  all_agree [] = tt
  all_agree (x ∷ more) = (refl, all_agree more)

  -- A poll whose context goes on, over a listing in which no path stands twice. It sends, path after
  -- path, what a pass over each file of a wanted container sends, each pass beginning from what the
  -- tailer remembered of the file before the poll. Behind it the tailer remembers of each such path the
  -- state of its pass, or the old state if the file could not be opened; every other path, and its
  -- position, is forgotten, and the positions of these are as before.
  pub poll-exact :
      (listing : Listing)
      → Distinct listing
      → let p = poll cfg (λ path. false) listing t none in
        let seen : Bytes → Bool = λ j. any (equal j) (all_seen cfg t listing) in
        (p.cancelled ≡ false)
        × (p.sent ≡ all_sent cfg t listing)
        × ((j : Bytes)
            → lookup j p.tailer.files
              ≡ (if seen j then state_behind cfg t listing j (lookup j t.files) else none))
        × ((j : Bytes) → get j p.tailer.positions ≡ (if seen j then get j t.positions else none))
  unfolding poll is_seen get retain
  poll-exact listing d =
      let r = visit_on cfg listing t in
      let v = visit-Visits listing t d (record { files = all_agree listing; positions = refl }) in
      let seen : Bytes → Bool = λ j. any (equal j) (all_seen cfg t listing) in
      rw (v.goes_on, v.sent, v.seen, v.positions)
        (
          refl,
          refl,
          λ j.
              lookup-keep_only seen j r.tailer.files
              ∙ ap (λ o. if seen j then o else none) (v.files j),
          λ j. lookup-keep_only seen j t.positions,
        )
