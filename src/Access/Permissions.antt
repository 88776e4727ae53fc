-- ===== src/Access/Permissions.antt =====
-- What an administrator's choice of permission codes stores: `compile_role_permissions` and
-- `resolve_role_codes` of backend/app/core/permissions.py, over the table of the codes that a page
-- grants and the set of page codes.
use lcs_system.Shared.{
  if◌then◌else◌, Bool, true, ◌&&◌, not, List, [], ◌∷◌, ◌++◌, where_rows, Text, text_eqb, is_empty,
  strip,
}
use lcs_system.Access.{mem, wildcard, given_codes}

-- `PAGE_PERMISSION_GRANTS`, `PAGE_PERMISSION_CODES` and `ALL_PERMISSION_CODES`.
pub record Catalogue : Type 0 where
  pub page_grants : List (Text × List Text)
  pub pages : List Text
  pub all_codes : List Text

-- `PAGE_PERMISSION_GRANTS.get(code, ())`
abbrev pub grants_of : List (Text × List Text) → Text → List Text
grants_of [] code = []
grants_of ((page, given) ∷ rest) code =
    let later = grants_of rest code in if text_eqb page code then given else later

abbrev pub all_in : List Text → List Text → Bool
all_in [] cs = true
all_in (x ∷ xs) cs = mem x cs && all_in xs cs

abbrev pub flat_map : (Text → List Text) → List Text → List Text
flat_map f [] = []
flat_map f (c ∷ cs) = f c ++ flat_map f cs

-- `PAGE_CODES_BY_GRANTED.get(code, ())`
abbrev pub pages_granting : List (Text × List Text) → Text → List Text
pages_granting [] code = []
pages_granting ((page, given) ∷ rest) code =
    let later = pages_granting rest code in if mem code given then page ∷ later else later

module _ (c : Catalogue) where
  abbrev pub is_page : Text → Bool
  is_page code = mem code c.pages

  -- The first page that grants a code and nothing that is not covered.
  abbrev pub implied_page : List Text → List Text → List Text
  implied_page covered [] = []
  implied_page covered (page ∷ rest) =
      let later = implied_page covered rest in
      if all_in (grants_of c.page_grants page) covered then page ∷ [] else later

  abbrev pub covered_codes : List Text → List Text
  covered_codes granted =
      let declared = flat_map (grants_of c.page_grants) granted in
      granted ++ (declared ++ flat_map (grants_of c.page_grants) (where_rows is_page declared))

  unfoldable pub compile_role_permissions : List Text → List Text
  compile_role_permissions cs =
      let covered = covered_codes (where_rows (λ t. not (is_empty (strip t))) cs) in
      covered
      ++ flat_map (λ code. implied_page covered (pages_granting c.page_grants code))
          (where_rows (λ t. not (is_page t)) covered)

  -- The pages that are chosen, and the codes that no chosen page grants.
  abbrev pub chosen_codes : List Text → List Text
  chosen_codes submitted =
      let chosen = where_rows is_page submitted in
      let derived = flat_map (grants_of c.page_grants) chosen in
      chosen ++ where_rows (λ t. not (is_page t) && not (mem t derived)) submitted

  unfoldable pub resolve_role_codes : List Text → List Text
  unfolding compile_role_permissions
  resolve_role_codes cs =
      let submitted = given_codes cs in
      if mem wildcard submitted
      then wildcard ∷ []
      else compile_role_permissions (chosen_codes submitted)
