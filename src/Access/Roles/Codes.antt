-- ===== src/Access/Roles/Codes.antt =====
-- `_derive_role_code` of backend/app/modules/auth/service.py: a code for a role made of its name,
-- with a number behind it until no other role has it.
pub mod Free
use lcs_system.Shared.{
  ℕ, zero, suc, ◌+◌, ◌-◌, leb, if◌then◌else◌, Bool, true, false, ◌&&◌, ◌||◌, not, List, [], ◌∷◌,
  ◌++◌, take, length, is_empty, Text, codes, upper,
}
use lcs_system.Finance.Sequences.{str}
use lcs_system.Access.{mem}

abbrev is_alnum : ℕ → Bool
is_alnum c = (leb 48 c && leb c 57) || (leb 65 c && leb c 90) || (leb 97 c && leb c 122)

-- `re.sub(r"[^A-Za-z0-9]+", "_", name).strip("_")`: the runs of letters and digits, joined.
abbrev joined : Bool → Text → Text
joined gap [] = []
joined gap (c ∷ s) =
    let after_gap = joined true s in
    let after_code = joined false s in
    if is_alnum c then (if gap then 95 ∷ c ∷ after_code else c ∷ after_code) else after_gap

abbrev skip_gap : Text → Text
skip_gap (c ∷ s) = if is_alnum c then c ∷ s else skip_gap s
skip_gap [] = []

abbrev pub role_base : Text → Text
role_base name =
    let base = take 48 (upper (joined false (skip_gap name))) in
    if is_empty base then codes "ROLE" else base

abbrev pub suffix_token : ℕ → Text
suffix_token n = 95 ∷ str n

-- The code with a number behind it, in 64 characters.
abbrev pub numbered_code : Text → ℕ → Text
numbered_code base n = take (64 - length (suffix_token n)) base ++ suffix_token n

-- `while code in existing`
unfoldable pub next_code : ℕ → Text → List Text → ℕ → Text → Text
next_code zero base existing suffix code = code
next_code (suc fuel) base existing suffix code = elim (mem code existing) [
  | true ↦ next_code fuel base existing (suffix + 1) (numbered_code base suffix)
  | false ↦ code
]

-- A round for the code without a number, one for each code that is taken, and one more.
unfoldable pub derive_role_code : Text → List Text → Text
unfolding next_code
derive_role_code name existing =
    let base = role_base name in next_code (suc (suc (length existing))) base existing 2 base
