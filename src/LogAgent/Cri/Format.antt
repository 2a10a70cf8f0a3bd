-- ===== src/LogAgent/Cri/Format.antt =====
-- The CRI format of a line, for `ParseLine` of internal/logagent/cri.go.
use crm_beginner.Base.{
  ◌≡◌, ◌⊎◌, inl, inr, refl, Bool, true, false, not, some, [], ◌∷◌, ◌++◌, ◌==◌, all, ok, arith, ℕ,
  suc,
}
use crm_beginner.LogAgent.Cri.{Line, parse_line, parse_parts}
use crm_beginner.Text.{Bytes, bytes, cut, split_n, equal}

-- A line as the container runtime writes it.
abbrev tag : Bool → Bytes
tag true = bytes "P"
tag false = bytes "F"

abbrev pub print_line : Line → Bytes
print_line l = l.time ++ (b' ' ∷ (l.stream ++ (b' ' ∷ (tag l.partial ++ (b' ' ∷ l.message)))))

abbrev pub IsWord : Bytes → Type 0
IsWord s = all (λ c. not (c == b' ')) s ≡ true

abbrev pub IsStream : Bytes → Type 0
IsStream s = (s ≡ bytes "stdout") ⊎ (s ≡ bytes "stderr")

cut-append : (s t : Bytes) → IsWord s → cut b' ' (s ++ b' ' ∷ t) ≡ some (s, t)
unfolding cut
cut-append [] t h = refl
cut-append (c ∷ s) t h = ground (arith, cut-append s t)

split_n-append :
    (n : ℕ) (s t : Bytes)
    → IsWord s
    → split_n b' ' (suc (suc n)) (s ++ b' ' ∷ t) ≡ s ∷ split_n b' ' (suc n) t
unfolding split_n
split_n-append n s t h = rw (split_n, cut-append s t h) refl

IsStream-IsWord : (s : Bytes) → IsStream s → IsWord s
IsStream-IsWord s (inl e) = rw e refl
IsStream-IsWord s (inr e) = rw e refl

tag-IsWord : (partial : Bool) → IsWord (tag partial)
tag-IsWord true = refl
tag-IsWord false = refl

split_n-print_line :
    (l : Line)
    → IsWord l.time
    → IsStream l.stream
    → split_n b' ' 4 (print_line l) ≡ l.time ∷ l.stream ∷ tag l.partial ∷ l.message ∷ []
split_n-print_line l h s =
    rw
      (
        split_n-append 2 l.time (l.stream ++ (b' ' ∷ (tag l.partial ++ (b' ' ∷ l.message)))) h,
        split_n-append 1 l.stream (tag l.partial ++ (b' ' ∷ l.message))
            (IsStream-IsWord l.stream s),
        split_n-append 0 (tag l.partial) l.message (tag-IsWord l.partial),
      )
      (unfold split_n in refl)

module _ (is_time : Bytes → Bool) where
  parse_parts-line :
      (time stream message : Bytes) (partial : Bool)
      → is_time time ≡ true
      → IsStream stream
      → parse_parts is_time (time ∷ stream ∷ tag partial ∷ message ∷ [])
        ≡ ok (record { time = time; stream = stream; partial = partial; message = message })
  unfolding parse_parts equal
  parse_parts-line time stream message true h (inl e) = rw (h, e) refl
  parse_parts-line time stream message true h (inr e) = rw (h, e) refl
  parse_parts-line time stream message false h (inl e) = rw (h, e) refl
  parse_parts-line time stream message false h (inr e) = rw (h, e) refl

  -- `ParseLine` reads back every line in the CRI format, whether full or partial and whatever its
  -- message, if its time has no space and is accepted as a time and its stream is stdout or stderr.
  pub parse_line-print_line :
      (l : Line)
      → is_time l.time ≡ true
      → IsWord l.time
      → IsStream l.stream
      → parse_line is_time (print_line l) ≡ ok l
  unfolding parse_line
  parse_line-print_line l h w s =
      rw (split_n-print_line l w s) (parse_parts-line l.time l.stream l.message l.partial h s)
