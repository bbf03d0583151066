-- ===== src/Home/Payload.antt =====
-- What the payloads of michi_home.c are put together from: the bounded APPEND, the sorted roles, the
-- decimal serial and the domain prefixes.
use michi_music_stream.Prelude.{
  ℕ, zero, suc, ◌+◌, ◌/◌, ◌%◌, Bool, true, false, Option, none, some, List, [], ◌∷◌, ◌++◌, ltb,
  ◌==◌, if◌then◌else◌, length, codes,
}

abbrev pub domain_membership : List ℕ
domain_membership = codes "michi-link-membership-v1"

abbrev pub domain_device_auth : List ℕ
domain_device_auth = codes "michi-link-device-auth-v1"

abbrev pub domain_server_auth : List ℕ
domain_server_auth = codes "michi-link-server-auth-v1"

abbrev pub domain_revocation : List ℕ
domain_revocation = codes "michi-link-revocation-v1"

-- The APPENDs of one payload: `none` where one of them returns 0.
unfoldable pub append_all : ℕ → List ℕ → List (List ℕ) → Option (List ℕ)
append_all out_len out [] = some out
append_all out_len out (p ∷ ps) =
    if ltb out_len (length out + length p) then none else append_all out_len (out ++ p) ps

-- `strcmp(a, b) <= 0`.
unfoldable pub strcmp_le : List ℕ → List ℕ → Bool
strcmp_le [] bs = true
strcmp_le (a ∷ as') [] = false
strcmp_le (a ∷ as') (b ∷ bs) = if a == b then strcmp_le as' bs else ltb a b

-- `qsort` by `strcmp`: equal strings are the same bytes, so that the result is one.
unfoldable pub insert_role : List ℕ → List (List ℕ) → List (List ℕ)
insert_role r [] = r ∷ []
insert_role r (x ∷ xs) = if strcmp_le r x then r ∷ x ∷ xs else x ∷ insert_role r xs

unfoldable pub sort_roles : List (List ℕ) → List (List ℕ)
sort_roles [] = []
sort_roles (r ∷ rs) = insert_role r (sort_roles rs)

-- A colon before each role.
unfoldable pub with_colon : List (List ℕ) → List (List ℕ)
with_colon [] = []
with_colon (r ∷ rs) = (b':' ∷ []) ∷ r ∷ with_colon rs

-- `%llu` of a number of at most `digits` digits.
unfoldable pub print_nat : ℕ → ℕ → List ℕ
print_nat zero n = []
print_nat (suc digits) n =
    let shorter = print_nat digits (n / 10) in
    if ltb n 10 then (b'0' + n) ∷ [] else shorter ++ (b'0' + n % 10) ∷ []
