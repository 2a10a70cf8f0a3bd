-- ===== src/Domain/Email/Normal.antt =====
-- About internal/domain/email.go: the normal form of an address.
use crm_beginner.Base.{◌≡◌, ◌++◌, map, ok, arith, ap, ◌∙◌}
use crm_beginner.Domain.Email.{Email, check_address, new_email}
use crm_beginner.Text.Ascii.{normal_idem, normal-pad_case, normal}
use crm_beginner.Text.Trim.{IsAscii, IsBlank}
use crm_beginner.Text.{Bytes, lower_byte}

check_address-value : (v : Bytes) {e : Email} → check_address v ≡ ok e → e.value ≡ v
unfolding check_address
check_address-value v h = ground arith

module _ (map_lower : Bytes → Bytes) where
  -- Two ASCII texts that differ only in the case of letters, one of them with ASCII white space put
  -- around it, are accepted by `NewEmail` with the same value or refused with the same error.
  new_email-pad_case :
      (p s t q : Bytes)
      → IsBlank p
      → IsBlank q
      → IsAscii s
      → IsAscii t
      → map lower_byte s ≡ map lower_byte t
      → new_email map_lower (p ++ s ++ q) ≡ new_email map_lower t
  unfolding new_email
  new_email-pad_case p s t q hp hq hs ht e = rw (normal-pad_case map_lower p s t q hp hq hs ht e)

  -- If `NewEmail` accepts an ASCII text, it accepts the value it gave, and gives the same again.
  new_email_idem :
      (s : Bytes) {e : Email}
      → IsAscii s
      → new_email map_lower s ≡ ok e
      → new_email map_lower e.value ≡ ok e
  unfolding new_email
  new_email_idem s hs h =
      let same = check_address-value (normal map_lower s) h in
      ap check_address (ap (normal map_lower) same ∙ normal_idem map_lower s hs) ∙ h
