-- ===== src/LogAgent/Tailer/Resume.antt =====
-- About the loop of `readFile` of internal/logagent/tailer.go, taken up again at an offset.
use crm_beginner.Base.{
  ℕ, ◌+◌, ◌≤◌, ◌≡◌, refl, sym, ap, ◌∙◌, Option, none, some, List, [], ◌∷◌, ◌++◌, ◌==◌, length, drop,
  drop-append, arith, Bool-cases, Option-cases, inl, inr, length-append, ◌⊎◌,
}
use crm_beginner.Domain.{Error}
use crm_beginner.LogAgent.Cri.{Source}
use crm_beginner.LogAgent.Tailer.{Entry, Pass, sends, Settings, on_line, scan}
use crm_beginner.Text.{Bytes}

module _ (cfg : Settings) (path : Bytes) (src : Source) (inode : ℕ) where
  -- A line that ends an entry leaves nothing pending, and the entry records where it ends.
  on_line-entry :
      (raw pending : Bytes) (offset : ℕ) (e : Entry)
      → (on_line cfg path src inode raw pending offset).0 ≡ some e
      → ((on_line cfg path src inode raw pending offset).1 ≡ []) × (e.offset ≡ offset)
  unfolding on_line
  on_line-entry raw pending offset e h = ground arith

  -- The first of the entries sent, or one behind it.
  sent-first :
      (e0 : Entry) (p : Pass) (xs : List Entry) (e : Entry) (ys : List Entry)
      → (sends e0 p).sent ≡ xs ++ e ∷ ys
      → ((e0 ≡ e) × (p.sent ≡ ys)) ⊎ ((xs' : List Entry) × (p.sent ≡ xs' ++ e ∷ ys))
  sent-first e0 p [] e ys h = inl (cc, cc)
  sent-first e0 p (x ∷ xs) e ys h = inr (xs, cc)

  -- The rest of `s` behind the entry `e`, read afresh from where `e` ends, gives the entries `ys`.
  record Resumes (read_error : Option Error) (s : Bytes) (start : ℕ) (whole : Pass) (e : Entry)
      (ys : List Entry) : Type 0 where
    front : Bytes
    rest : Bytes
    split : s ≡ front ++ rest
    at : e.offset ≡ start + length front
    same : scan cfg path src inode none read_error [] e.offset [] rest ≡ record whole { sent = ys }

  Resumes-cons :
      (read_error : Option Error) (c : ℕ) (s : Bytes) (start next : ℕ) (whole : Pass) (e : Entry)
      (ys : List Entry)
      → next ≡ start + 1
      → Resumes read_error s next whole e ys
      → Resumes read_error (c ∷ s) start whole e ys
  Resumes-cons read_error c s start next whole e ys n r = record {
    front = c ∷ r.front;
    rest = r.rest;
    split = ap (◌∷◌ c) r.split;
    at = omega (arith, r.at);
    same = r.same;
  }

  Resumes-sends :
      (read_error : Option Error) (s : Bytes) (start : ℕ) (e0 : Entry) (whole : Pass) (e : Entry)
      (ys : List Entry)
      → Resumes read_error s start whole e ys
      → Resumes read_error s start (sends e0 whole) e ys
  Resumes-sends read_error s start e0 whole e ys r = record {
    front = r.front;
    rest = r.rest;
    split = r.split;
    at = r.at;
    same = r.same;
  }

  -- Behind the line that ends the entry itself.
  starts_behind :
      (read_error : Option Error) (c : ℕ) (s : Bytes) (start next : ℕ) (pending : Bytes) (e : Entry)
      (ys : List Entry)
      → next ≡ start + 1
      → e.offset ≡ next
      → pending ≡ []
      → (scan cfg path src inode none read_error [] next pending s).sent ≡ ys
      → (e0 : Entry)
      → Resumes read_error
          (c ∷ s)
          start
          (sends e0 (scan cfg path src inode none read_error [] next pending s))
          e
          ys
  starts_behind read_error c s start next pending e ys n o none_pending rest e0 =
      let p = scan cfg path src inode none read_error [] next pending s in
      record {
        front = c ∷ [];
        rest = s;
        split = refl;
        at = omega arith;
        same =
            (λ i. scan cfg path src inode none read_error [] (o i) (sym none_pending i) s)
            ∙ (λ i. record p { sent = rest i });
      }

  scan-Resumes :
      (read_error : Option Error) (raw : Bytes) (offset : ℕ) (pending s : Bytes) (xs : List Entry)
      (e : Entry) (ys : List Entry)
      → (scan cfg path src inode none read_error raw offset pending s).sent ≡ xs ++ e ∷ ys
      → Resumes read_error s
          (offset + length raw)
          (scan cfg path src inode none read_error raw offset pending s)
          e
          ys
  unfolding scan
  scan-Resumes read_error raw offset pending [] [] e ys h = absurd cc
  scan-Resumes read_error raw offset pending [] (x ∷ xs) e ys h = absurd cc
  scan-Resumes read_error raw offset pending (c ∷ s) xs e ys h = elim (Bool-cases (c == b'\n')) [
    | inr other ↦
        rw (other, scan)
          (Resumes-cons read_error c s (offset + length raw) (offset + length (raw ++ c ∷ [])) _ e
            ys (omega (arith, length-append raw (c ∷ [])))
            (scan-Resumes read_error (raw ++ c ∷ []) offset pending s xs e ys
              (rw (other, scan) at h)))
    | inl newline ↦
        let next = offset + length raw + 1 in
        let line = on_line cfg path src inode raw pending next in
        elim (Option-cases line.0) [
          | inl n ↦
              rw (newline, scan)
                (rw (n, scan)
                  (Resumes-cons read_error c s (offset + length raw) (next + length {A = ℕ} []) _ e
                    ys (omega arith)
                    (scan-Resumes read_error [] next line.1 s xs e ys
                      (rw (n, scan) at (rw (newline, scan) at h)))))
          | inr (e0, is) ↦
              rw (newline, scan)
                (rw (is, scan)
                  (elim (sent-first e0 (scan cfg path src inode none read_error [] next line.1 s) xs
                    e ys (rw (is, scan) at (rw (newline, scan) at h))) [
                      | inl (first, rest) ↦
                          starts_behind read_error c s (offset + length raw) next line.1 e ys
                            (omega arith)
                            (ap (λ (x : Entry). x.offset) (sym first)
                              ∙ (on_line-entry raw pending next e0 is).1)
                            (on_line-entry raw pending next e0 is).0 rest e0
                      | inr (xs', rest) ↦
                          Resumes-cons read_error c s (offset + length raw)
                            (next + length {A = ℕ} []) _ e ys (omega arith)
                            (Resumes-sends read_error s (next + length {A = ℕ} []) e0
                              (scan cfg path src inode none read_error [] next line.1 s) e ys
                              (scan-Resumes read_error [] next line.1 s xs' e ys rest))
                    ]))
        ]
  ]

  -- An entry ends within the file.
  pub scan-offset :
      (read_error : Option Error) (content : Bytes) (xs : List Entry) (e : Entry) (ys : List Entry)
      → (scan cfg path src inode none read_error [] 0 [] content).sent ≡ xs ++ e ∷ ys
      → e.offset ≤ length content
  scan-offset read_error content xs e ys h =
      let r = scan-Resumes read_error [] 0 [] content xs e ys h in
      omega (arith, r.at, ap length r.split, length-append r.front r.rest)

  -- Where a pass over a whole file sends some entries, then `e`, then others, a pass that starts at
  -- the offset that `e` records sends exactly those others, and ends in the same state and the same
  -- way. Both passes start with nothing pending and no send is cut short.
  pub scan-resume :
      (read_error : Option Error) (content : Bytes) (xs : List Entry) (e : Entry) (ys : List Entry)
      → (scan cfg path src inode none read_error [] 0 [] content).sent ≡ xs ++ e ∷ ys
      → scan cfg path src inode none read_error [] e.offset [] (drop e.offset content)
        ≡ record (scan cfg path src inode none read_error [] 0 [] content) { sent = ys }
  scan-resume read_error content xs e ys h =
      let r = scan-Resumes read_error [] 0 [] content xs e ys h in
      let cut_off : drop e.offset content ≡ r.rest =
        (λ i. drop (ends r.at i) (r.split i)) ∙ drop-append r.front r.rest in
      ap (scan cfg path src inode none read_error [] e.offset []) cut_off ∙ r.same
    where
      ends : {n m : ℕ} → n ≡ 0 + 0 + m → n ≡ m
      ends q = omega (arith, q)
