-- ===== src/LogAgent/Cri/FileName.antt =====
-- The names of the kubelet's log files, for `ParseFileName` of internal/logagent/cri.go.
use crm_beginner.Base.{
  ◌-◌, ◌≡◌, ◌∙◌, refl, sym, ap, true, false, some, [], ◌∷◌, ◌++◌, append-nil, append_assoc, ◌==◌,
  if◌then◌else◌, length, length-append, arith,
}
use crm_beginner.LogAgent.Cri.{
  Source, after_slash, all_slashes, drop_slashes, base, source_of, parse_file_name,
}
use crm_beginner.Text.Pieces.{
  Lacks, Lacks-append, split-Lacks, split-append, last_index-append, take-append, cut_suffix-append,
}
use crm_beginner.Text.{Bytes, bytes, is_empty, split}

-- A text with a first byte and without a slash.
abbrev IsName : Bytes → Type 0
IsName [] = ⊥
IsName (c ∷ s) = Lacks b'/' (c ∷ s)

all_slashes-append : (dir s : Bytes) → IsName s → all_slashes (dir ++ s) ≡ false
unfolding all_slashes
all_slashes-append [] [] h = absurd h
all_slashes-append [] (c ∷ s) h = ground arith
all_slashes-append (c ∷ dir) s h = ground (arith, all_slashes-append dir s h)

drop_slashes-name : (s : Bytes) → Lacks b'/' s → drop_slashes s ≡ s
unfolding drop_slashes
drop_slashes-name [] h = refl
drop_slashes-name (c ∷ s) h =
    let rest : drop_slashes s ≡ s = drop_slashes-name s (ground arith) in
    rw (drop_slashes, all_slashes-append [] (c ∷ s) h, rest) refl

drop_slashes-append : (dir s : Bytes) → IsName s → drop_slashes (dir ++ s) ≡ dir ++ s
unfolding drop_slashes
drop_slashes-append [] [] h = absurd h
drop_slashes-append [] (c ∷ s) h = drop_slashes-name (c ∷ s) h
drop_slashes-append (c ∷ dir) s h =
    rw (drop_slashes, all_slashes-append (c ∷ dir) s h, drop_slashes-append dir s h) refl

after_slash-name : (seen s : Bytes) → Lacks b'/' s → after_slash seen s ≡ seen ++ s
unfolding after_slash
after_slash-name seen [] h = sym (append-nil seen)
after_slash-name seen (c ∷ s) h =
    let other : (c == b'/') ≡ false = ground arith in
    rw (after_slash, other)
      (after_slash-name (seen ++ (c ∷ [])) s (ground arith) ∙ append_assoc seen (c ∷ []) s)

after_slash-append : (seen dir s : Bytes) → Lacks b'/' s → after_slash seen (dir ++ b'/' ∷ s) ≡ s
unfolding after_slash
after_slash-append seen [] s h = after_slash-name [] s h
after_slash-append seen (c ∷ dir) s h =
    after_slash-append (if c == b'/' then [] else seen ++ (c ∷ [])) dir s h

is_empty-append : (dir s : Bytes) → is_empty (dir ++ b'/' ∷ s) ≡ false
is_empty-append [] s = refl
is_empty-append (c ∷ dir) s = refl

base-append : (dir s : Bytes) → IsName s → base (dir ++ b'/' ∷ s) ≡ s
unfolding base
base-append dir [] h = absurd h
base-append dir (c ∷ s) h =
    let slashed : dir ++ b'/' ∷ c ∷ s ≡ (dir ++ b'/' ∷ []) ++ c ∷ s =
      sym (append_assoc dir (b'/' ∷ []) (c ∷ s)) in
    let not_all : all_slashes (dir ++ b'/' ∷ c ∷ s) ≡ false =
      ap all_slashes slashed ∙ all_slashes-append (dir ++ b'/' ∷ []) (c ∷ s) h in
    let none_dropped : drop_slashes (dir ++ b'/' ∷ c ∷ s) ≡ dir ++ b'/' ∷ c ∷ s =
      ap drop_slashes slashed ∙ drop_slashes-append (dir ++ b'/' ∷ []) (c ∷ s) h ∙ sym slashed in
    rw (base, is_empty-append dir (c ∷ s), not_all, none_dropped)
      (after_slash-append [] dir (c ∷ s) h)

-- The name of a file, of the container with an id.
abbrev pub print_name : Source → Bytes → Bytes
print_name src id = src.pod ++ b'_' ∷ (src.space ++ b'_' ∷ (src.container ++ b'-' ∷ id))

abbrev pub print_path : Bytes → Source → Bytes → Bytes
print_path dir src id = dir ++ b'/' ∷ (print_name src id ++ bytes ".log")

-- The parts of a name: the pod, the namespace and the container's id, as the names of Kubernetes are,
-- have no underscore and no slash; the id is 64 bytes without a dash.
pub record Names (src : Source) (id : Bytes) : Type 0 where
  pub pod : Lacks b'_' src.pod
  pub space : Lacks b'_' src.space
  pub container : Lacks b'_' src.container
  pub has_container : is_empty src.container ≡ false
  pub no_slashes : Lacks b'/' (print_name src id)
  pub no_underscores : Lacks b'_' id
  pub no_dashes : Lacks b'-' id
  pub whole_id : length id ≡ 64

IsName-append : (s t : Bytes) → Lacks b'/' s → IsName t → IsName (s ++ t)
IsName-append [] t h k = k
IsName-append (c ∷ s) [] h k = absurd k
IsName-append (c ∷ s) (d ∷ t) h k = Lacks-append b'/' (c ∷ s) (d ∷ t) h k

split-print_name :
    (src : Source) (id : Bytes)
    → Names src id
    → split b'_' (print_name src id) ≡ src.pod ∷ src.space ∷ (src.container ++ b'-' ∷ id) ∷ []
split-print_name src id v =
    let last : Lacks b'_' (src.container ++ b'-' ∷ id) =
      Lacks-append b'_' src.container (b'-' ∷ id) v.container v.no_underscores in
    rw
      (
        split-append b'_' src.pod (src.space ++ b'_' ∷ (src.container ++ b'-' ∷ id)) v.pod,
        split-append b'_' src.space (src.container ++ b'-' ∷ id) v.space,
        split-Lacks b'_' (src.container ++ b'-' ∷ id) last,
      )
      refl

has_length : (s : Bytes) → is_empty s ≡ false → (length s == 0) ≡ false
has_length [] h = absurd cc
has_length (c ∷ s) h = ground arith

source_of-print_name :
    (src : Source) (id : Bytes)
    → Names src id
    → source_of (src.pod ∷ src.space ∷ (src.container ++ b'-' ∷ id) ∷ []) ≡ some src
unfolding source_of
source_of-print_name src id v =
    let n = length src.container in
    let measured : (length (src.container ++ b'-' ∷ id) - n - 1 == 64) ≡ true =
      ground (arith, length-append src.container (b'-' ∷ id), v.whole_id) in
    rw
      (
        source_of,
        last_index-append b'-' src.container id v.no_dashes,
        has_length src.container v.has_container,
        measured,
        take-append src.container (b'-' ∷ id),
      )
      refl

-- `ParseFileName` reads back the name of a container's log file, in whatever directory: the pod, the
-- namespace and the container. None of them has an underscore or a slash, the container is not empty
-- and may have dashes, and the id behind it has 64 bytes and no dash.
pub parse_file_name-print_path :
    (dir : Bytes) (src : Source) (id : Bytes)
    → Names src id
    → parse_file_name (print_path dir src id) ≡ some src
unfolding parse_file_name
parse_file_name-print_path dir src id v =
    let name = IsName-append (print_name src id) (bytes ".log") v.no_slashes refl in
    rw
      (
        parse_file_name,
        base-append dir (print_name src id ++ bytes ".log") name,
        cut_suffix-append (print_name src id) (bytes ".log"),
        split-print_name src id v,
      )
      (source_of-print_name src id v)
