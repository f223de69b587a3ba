-- ===== src/Accounts/Recovery.antt =====
-- Recovery codes: how they are made, written and stored.
use Prim.Native.Char.{code}
use b2b_app.Prelude.{
  ℕ, zero, suc, ◌≡◌, ◌≤◌, refl, String, Bool, false, ◌||◌, List, [], ◌∷◌, if◌then◌else◌, str_eq,
  ◌==◌, mem, count, arith, count_of_mem,
}
use b2b_app.Prelude.Texts.{◌+++◌}
use b2b_app.Secrets.{text_length, text_behind}
use b2b_app.Totp.{char_at}

abbrev pub recovery_chars : String
recovery_chars = "ABCDEFGHJKLMNPQRSTUVWXYZ23456789"

-- The text without spaces and dashes.
abbrev pub compact_text : (ℕ → Bool) → String → String
compact_text is_space String.[] = ""
compact_text is_space (String.◌∷◌ c s) =
    let rest = compact_text is_space s in
    if is_space (code c) || (code c == b'-') then rest else String.◌∷◌ c rest

abbrev pub first_chars : ℕ → String → String
first_chars zero s = ""
first_chars (suc n) String.[] = ""
first_chars (suc n) (String.◌∷◌ c s) = String.◌∷◌ c (first_chars n s)

-- A dash behind every four characters, and then no dash at the end.
abbrev pub dashed : String → String
dashed (String.◌∷◌ a (String.◌∷◌ b (String.◌∷◌ c (String.◌∷◌ d s)))) =
    String.◌∷◌ a (String.◌∷◌ b (String.◌∷◌ c (String.◌∷◌ d (String.◌∷◌ "-" (dashed s)))))
dashed s = s

abbrev pub no_last_dash : String → String
no_last_dash String.[] = ""
no_last_dash (String.◌∷◌ c String.[]) = if code c == b'-' then "" else String.◌∷◌ c ""
no_last_dash (String.◌∷◌ c (String.◌∷◌ d s)) = String.◌∷◌ c (no_last_dash (String.◌∷◌ d s))

-- normalizeRecoveryCode, behind `trim().toUpperCase()`
unfoldable pub normalize_compact : String → String
normalize_compact compact =
    if text_length compact == 8
    then first_chars 4 compact +++ ("-" +++ text_behind 4 compact)
    else no_last_dash (dashed compact)

unfoldable pub normalize_recovery_code :
    (String → String) → (String → String) → (ℕ → Bool) → String → String
normalize_recovery_code trim upper is_space value =
    normalize_compact (compact_text is_space (upper (trim value)))

-- hashRecoveryCode
unfoldable pub hash_recovery_code : (String → String) → String → String
hash_recovery_code sha256 normalized = sha256 normalized

-- The four characters that four draws below 32 choose.
abbrev pub chunk : ℕ × ℕ × ℕ × ℕ → String
chunk (a, b, c, d) = String.◌∷◌ (char_at recovery_chars a) (
    String.◌∷◌ (char_at recovery_chars b)
      (String.◌∷◌ (char_at recovery_chars c) (String.◌∷◌ (char_at recovery_chars d) "")))

-- generateRecoveryCodes, from the draws for each code.
unfoldable pub generate_recovery_codes : List ((ℕ × ℕ × ℕ × ℕ) × (ℕ × ℕ × ℕ × ℕ)) → List String
generate_recovery_codes [] = []
generate_recovery_codes (d ∷ draws) =
    (chunk d.0 +++ ("-" +++ chunk d.1)) ∷ generate_recovery_codes draws

-- hashes.filter((_, i) => i !== hashes.indexOf(hash))
abbrev pub remove_first : String → List String → List String
remove_first hash [] = []
remove_first hash (h ∷ hashes) =
    let rest = remove_first hash hashes in if str_eq hash h then hashes else h ∷ rest

pub mem-remove_first :
    (hash : String) (hashes : List String)
    → count hash hashes ≤ 1
    → mem hash (remove_first hash hashes) ≡ false
mem-remove_first hash [] once = refl
mem-remove_first hash (h ∷ hashes) once =
    ground (arith, count_of_mem hash hashes, mem-remove_first hash hashes)
