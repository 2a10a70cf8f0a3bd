-- ===== src/Domain/Email.antt =====
-- internal/domain/email.go: the value object for addresses.
pub mod Shape
pub mod Normal
use crm_beginner.Base.{
  ℕ, ◌-◌, Bool, true, false, ◌||◌, Option, none, some, ◌==◌, if◌then◌else◌, length, Result, ok, err,
}
use crm_beginner.Domain.{Error, sentinel, invalid_email}
use crm_beginner.Text.{Bytes, bytes, is_empty, index_byte, contains_any, trim_space, to_lower}

pub record Email : Type 0 where
  pub value : Bytes

-- `at <= 0 || at == len(v)-1`, where `none` is -1.
bad_at : Option ℕ → ℕ → Bool
bad_at none n = true
bad_at (some at) n = at == 0 || at == n - 1

-- The checks of `NewEmail` on the trimmed address in lower case.
check_address : Bytes → Result Error Email
unfolding bad_at
check_address v =
    if is_empty v
    then err (sentinel invalid_email)
    else if bad_at (index_byte v b'@') (length v) || contains_any v (bytes " \t")
    then err (sentinel invalid_email)
    else ok (record { value = v })

-- `NewEmail`; `map_lower` is `strings.Map(unicode.ToLower, ·)`, used on text that is not ASCII.
unfoldable pub new_email : (Bytes → Bytes) → Bytes → Result Error Email
unfolding check_address
new_email map_lower raw = check_address (to_lower map_lower (trim_space raw))
