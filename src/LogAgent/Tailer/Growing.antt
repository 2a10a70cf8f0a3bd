-- ===== src/LogAgent/Tailer/Growing.antt =====
-- About `readFile` of internal/logagent/tailer.go, on a file that grows between two passes.
use crm_beginner.Base.{
  ℕ, ◌+◌, ◌≤◌, ◌≡◌, ◌≢◌, ◌⊎◌, refl, sym, ap, ◌∙◌, inl, inr, true, false, not, Option, none, some,
  List, [], ◌∷◌, ◌++◌, ◌==◌, length, drop, all, all-append, arith, Bool-cases, Option-cases,
  length-append, length-drop, drop-behind, drop-within, append-nil, append_assoc, ==_iff,
}
use crm_beginner.Domain.{Error}
use crm_beginner.LogAgent.Cri.{Source}
use crm_beginner.LogAgent.Positions.{Position}
use crm_beginner.LogAgent.Tailer.Restart.{whole_file, nil_of_length}
use crm_beginner.LogAgent.Tailer.{
  Entry, Pass, sends, FileState, Settings, on_line, scan, read_file, restart, complete,
}
use crm_beginner.Text.{Bytes}

-- No line ends in it.
abbrev pub IsUnfinished : Bytes → Type 0
IsUnfinished s = all (λ c. not (c == b'\n')) s ≡ true

module _ (cfg : Settings) (path : Bytes) (src : Source) (inode : ℕ) where
  -- One pass behind another.
  abbrev pub then_sent : List Entry → Pass → Pass
  then_sent es p = record p { sent = es ++ p.sent }

  -- A part of a line is read with what stands before it.
  scan-raw :
      (read_error : Option Error) (raw : Bytes) (offset : ℕ) (pending part s : Bytes)
      → IsUnfinished part
      → scan cfg path src inode none read_error raw offset pending (part ++ s)
        ≡ scan cfg path src inode none read_error (raw ++ part) offset pending s
  unfolding scan
  scan-raw read_error raw offset pending [] s h =
      ap (λ r. scan cfg path src inode none read_error r offset pending s) (sym (append-nil raw))
  scan-raw read_error raw offset pending (c ∷ part) s h =
      let other : (c == b'\n') ≡ false = ground arith in
      rw (other, scan)
        (scan-raw read_error (raw ++ (c ∷ [])) offset pending part s (ground arith)
          ∙ ap (λ r. scan cfg path src inode none read_error r offset pending s)
              (append_assoc raw (c ∷ []) part))

  -- A pass over `raw` and then `s` leaves `rest` of it unread, and what is appended is read behind it.
  record Splits (read_error : Option Error) (raw s more : Bytes) (offset : ℕ) (p whole : Pass)
      : Type 0 where
    front : Bytes
    rest : Bytes
    split : raw ++ s ≡ front ++ rest
    at : p.state.offset ≡ offset + length front
    same :
        whole
        ≡ then_sent p.sent (
            scan cfg path src inode none read_error [] p.state.offset p.state.pending
              (rest ++ more))

  Splits-line :
      (read_error : Option Error) (raw : Bytes) (c : ℕ) (s more : Bytes) (offset next : ℕ)
      (p whole : Pass)
      → next ≡ offset + length raw + 1
      → Splits read_error [] s more next p whole
      → Splits read_error raw (c ∷ s) more offset p whole
  Splits-line read_error raw c s more offset next p whole n r = record {
    front = raw ++ (c ∷ r.front);
    rest = r.rest;
    split = ap (λ x. raw ++ (c ∷ x)) r.split ∙ sym (append_assoc raw (c ∷ r.front) r.rest);
    at = omega (arith, r.at, length-append raw (c ∷ r.front));
    same = r.same;
  }

  Splits-sends :
      (read_error : Option Error) (raw s more : Bytes) (offset : ℕ) (e : Entry) (p whole : Pass)
      → Splits read_error raw s more offset p whole
      → Splits read_error raw s more offset (sends e p) (sends e whole)
  Splits-sends read_error raw s more offset e p whole r = record {
    front = r.front;
    rest = r.rest;
    split = r.split;
    at = r.at;
    same = ap (sends e) r.same;
  }

  scan-Splits :
      (read_error : Option Error) (raw : Bytes) (offset : ℕ) (pending s more : Bytes)
      → IsUnfinished raw
      → Splits read_error raw s more offset
          (scan cfg path src inode none none raw offset pending s)
          (scan cfg path src inode none read_error raw offset pending (s ++ more))
  unfolding scan
  scan-Splits read_error raw offset pending [] more h = record {
    front = [];
    rest = raw;
    split = append-nil raw;
    at = omega arith;
    same = sym (scan-raw read_error [] offset pending raw more h);
  }
  scan-Splits read_error raw offset pending (c ∷ s) more h = elim (Bool-cases (c == b'\n')) [
    | inr other ↦
        let r =
          scan-Splits read_error (raw ++ (c ∷ [])) offset pending s more
            (ground (arith, all-append (λ d. not (d == b'\n')) raw (c ∷ []))) in
        rw (other, scan)
          (record {
            front = r.front;
            rest = r.rest;
            split = sym (append_assoc raw (c ∷ []) s) ∙ r.split;
            at = r.at;
            same = r.same;
          })
    | inl newline ↦
        let next = offset + length raw + 1 in
        let line = on_line cfg path src inode raw pending next in
        let r = scan-Splits read_error [] next line.1 s more refl in
        elim (Option-cases line.0) [
          | inl is ↦
              rw (newline, scan)
                (rw (is, scan) (Splits-line read_error raw c s more offset next _ _ refl r))
          | inr (e, is) ↦
              rw (newline, scan)
                (rw (is, scan)
                  (Splits-sends read_error raw (c ∷ s) more offset e _ _
                    (Splits-line read_error raw c s more offset next _ _ refl r)))
        ]
  ]

  scan-inode :
      (raw : Bytes) (offset : ℕ) (pending s : Bytes)
      → (scan cfg path src inode none none raw offset pending s).state.inode ≡ inode
  unfolding scan
  scan-inode raw offset pending [] = refl
  scan-inode raw offset pending (c ∷ s) = elim (Bool-cases (c == b'\n')) [
    | inr other ↦ rw (other, scan) (scan-inode (raw ++ (c ∷ [])) offset pending s)
    | inl newline ↦
        let next = offset + length raw + 1 in
        let line = on_line cfg path src inode raw pending next in
        elim (Option-cases line.0) [
          | inl is ↦ rw (newline, scan) (rw (is, scan) (scan-inode [] next line.1 s))
          | inr (e, is) ↦ rw (newline, scan) (rw (is, scan) (scan-inode [] next line.1 s))
        ]
  ]

module _ (cfg : Settings) (path : Bytes) (src : Source) (inode : ℕ) where
  restart-known :
      (content : Bytes) (st : FileState)
      → st.inode ≡ inode
      → st.offset ≤ length content
      → restart (whole_file inode content) st ≡ st
  unfolding restart
  restart-known content st own h = ground (arith, ==_iff st.inode inode)

  -- A pass of a tailer that knows the file reads on from its state.
  read_file-known :
      (content : Bytes) (st : FileState) (saved : Option Position)
      → st.inode ≡ inode
      → st.offset ≤ length content
      → read_file cfg path src (whole_file inode content) (some st) saved none
        ≡ scan cfg path src inode none none [] st.offset st.pending (drop st.offset content)
  unfolding read_file
  read_file-known content st saved own h =
      let state = restart-known content st own h in
      elim (Bool-cases (length content == st.offset)) [
        | inr more ↦ rw (state, more) refl
        | inl all_read ↦
            let none_left : drop st.offset content ≡ [] =
              nil_of_length (drop st.offset content)
                (ground (arith, length-drop st.offset content)) in
            rw (state, all_read, none_left)
              (unfold scan in
                λ i. record {
                  sent = [];
                  state = record st { inode = own i };
                  ending = complete;
                  sends_left = none;
                })
      ]

  append_known :
      (content more : Bytes) (st : FileState) (saved : Option Position)
      → st.inode ≡ inode
      → st.offset ≤ length content
      → let first = read_file cfg path src (whole_file inode content) (some st) saved none in
        let second =
          read_file cfg path src
            (whole_file inode (content ++ more))
            (some first.state)
            saved
            none in
        let once =
          read_file cfg path src (whole_file inode (content ++ more)) (some st) saved none in
        (first.sent ++ second.sent ≡ once.sent) × (second.state ≡ once.state)
  append_known content more st saved own h =
      let p = scan cfg path src inode none none [] st.offset st.pending (drop st.offset content) in
      let r =
        scan-Splits cfg path src inode none [] st.offset st.pending (drop st.offset content) more
          refl in
      let q =
        scan cfg path src inode none none [] p.state.offset p.state.pending (r.rest ++ more) in
      let first = read_file-known content st saved own h in
      let longer = length-append content more in
      let once : read_file cfg path src (whole_file inode (content ++ more)) (some st) saved none
          ≡ then_sent cfg path src inode p.sent q =
        read_file-known (content ++ more) st saved own (omega arith)
        ∙ ap (scan cfg path src inode none none [] st.offset st.pending)
            (drop-within st.offset content more h)
        ∙ r.same in
      let read_to : p.state.offset ≤ length (content ++ more) = omega (
        arith,
        r.at,
        ap length r.split,
        length-append r.front r.rest,
        length-drop st.offset content,
      ) in
      let left : drop p.state.offset (content ++ more) ≡ r.rest ++ more =
        ap (λ k. drop k (content ++ more)) r.at
        ∙ drop-behind st.offset (content ++ more) r.front (r.rest ++ more) (
            drop-within st.offset content more h
            ∙ ap (λ x. x ++ more) r.split
            ∙ append_assoc r.front r.rest more) in
      let second : read_file cfg path src (whole_file inode (content ++ more)) (some p.state) saved
            none
          ≡ q =
        read_file-known (content ++ more) p.state saved
          (scan-inode cfg path src inode [] st.offset st.pending (drop st.offset content)) read_to
        ∙ ap (scan cfg path src inode none none [] p.state.offset p.state.pending) left in
      rw (first, second, once) (refl, refl)

  -- A tailer that remembers another file begins at the top.
  abbrev at_top : FileState
  at_top = record { inode = inode; offset = 0; pending = [] }

  restart-other :
      (content : Bytes) (st : FileState)
      → st.inode ≢ inode
      → restart (whole_file inode content) st ≡ at_top
  unfolding restart
  restart-other content st other = ground (arith, ==_iff st.inode inode)

  restart-at_top : (content : Bytes) → restart (whole_file inode content) at_top ≡ at_top
  unfolding restart
  restart-at_top content = ground (arith, ==_iff inode inode)

  read_file-other :
      (content : Bytes) (st : FileState) (saved : Option Position)
      → st.inode ≢ inode
      → read_file cfg path src (whole_file inode content) (some st) saved none
        ≡ read_file cfg path src (whole_file inode content) (some at_top) saved none
  unfolding read_file
  read_file-other content st saved other =
      rw (restart-other content st other, restart-at_top content) refl

  -- A file that is read, grows and is read again gives the entries, and leaves the state, of the file
  -- that is read once when it has grown, wherever the first pass broke off, within a line or between
  -- the parts of one. Before the passes the tailer remembers either another inode, or an offset which
  -- is within the file as the first pass finds it.
  pub read_file-append :
      (content more : Bytes) (st : FileState) (saved : Option Position)
      → ((st.inode ≢ inode) ⊎ (st.offset ≤ length content))
      → let first = read_file cfg path src (whole_file inode content) (some st) saved none in
        let second =
          read_file cfg path src
            (whole_file inode (content ++ more))
            (some first.state)
            saved
            none in
        let once =
          read_file cfg path src (whole_file inode (content ++ more)) (some st) saved none in
        (first.sent ++ second.sent ≡ once.sent) × (second.state ≡ once.state)
  read_file-append content more st saved h = elim (Bool-cases (st.inode == inode)) [
    | inl same ↦
        let own = (==_iff st.inode inode).0 same in
        append_known content more st saved own
          (elim h [ inl other ↦ absurd (other own) | inr within ↦ within ])
    | inr differs ↦
        let other : st.inode ≢ inode = λ own. cc ((==_iff st.inode inode).1 own, differs) in
        rw
          (read_file-other content st saved other, read_file-other (content ++ more) st saved other)
          (append_known content more at_top saved refl (omega arith))
  ]
