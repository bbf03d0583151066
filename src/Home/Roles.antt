-- ===== src/Home/Roles.antt =====
-- Where a device type has a colon, the canonical bytes read it as a role.
use michi_music_stream.Prelude.{
  ℕ, ◌+◌, ◌≤◌, ◌<◌, ◌≡◌, refl, ap, sym, ◌∙◌, Option, none, some, List, [], ◌∷◌, ◌++◌, ltb,
  if◌then◌else◌, length, take, arith, ◌==◌, ◌&&◌, not, str_eq,
}
use michi_music_stream.Identity.{Crypto, base64url_decode}
use michi_music_stream.Home.Payload.{sort_roles, with_colon, print_nat, domain_membership}
use michi_music_stream.Home.Segments.{concat, append_all-concat, append_assoc}
use michi_music_stream.Home.{
  Home, Membership, signed_roles, membership_parts, canonical_membership_bytes, verify_membership,
  max_membership_roles, id_derives, decodes_to, checks, sig_bytes,
}

-- A certificate with the device type and the roles replaced, its signature kept.
abbrev pub with_type : List ℕ → List (List ℕ) → Membership → Membership
with_type kind roles m = record m { device_type = kind; roles = roles; role_count = length roles }

take-length : (xs : List (List ℕ)) → take (length xs) xs ≡ xs
take-length [] = refl
take-length (x ∷ xs) = ap (λ (t : List (List ℕ)). x ∷ t) (take-length xs)

signed_roles-with_type :
    (kind : List ℕ) (roles : List (List ℕ)) (m : Membership)
    → length roles ≤ max_membership_roles
    → signed_roles (with_type kind roles m) ≡ roles
signed_roles-with_type kind roles m h =
    ap (λ (n : ℕ). take n roles) (omega arith) ∙ take-length roles

-- The parts that follow the device type.
abbrev tail_parts : List (List ℕ) → Membership → List (List ℕ)
tail_parts roles m =
    with_colon roles ++ (b':' ∷ []) ∷ m.issued_at ∷ (b':' ∷ []) ∷ print_nat 20 m.serial ∷ []

concat-with_type :
    (kind : List ℕ) (roles : List (List ℕ)) (m : Membership)
    → length roles ≤ max_membership_roles
    → concat (membership_parts (with_type kind roles m))
      ≡ domain_membership
        ++ (m.home_id
            ++ (m.device_michi_id
                ++ (m.device_public_key ++ (kind ++ concat (tail_parts (sort_roles roles) m)))))
unfolding membership_parts concat
concat-with_type kind roles m h =
    ap
      (λ (rs : List (List ℕ)).
        domain_membership
        ++ (m.home_id
            ++ (m.device_michi_id
                ++ (m.device_public_key ++ (kind ++ concat (tail_parts (sort_roles rs) m))))))
      (signed_roles-with_type kind roles m h)

module _ (m : Membership) (kind r : List ℕ) (rs : List (List ℕ))
    (few : length rs < max_membership_roles) (first : sort_roles (r ∷ rs) ≡ r ∷ sort_roles rs) where
  concat-shifted :
      concat (membership_parts (with_type (kind ++ b':' ∷ r) rs m))
      ≡ concat (membership_parts (with_type kind (r ∷ rs) m))
  unfolding concat with_colon
  concat-shifted =
      concat-with_type (kind ++ b':' ∷ r) rs m (omega arith)
      ∙ (ap
            (λ (t : List ℕ).
              domain_membership ++ (m.home_id ++ (m.device_michi_id ++ (m.device_public_key ++ t))))
            (append_assoc kind (b':' ∷ r) (concat (tail_parts (sort_roles rs) m))
              ∙ ap (λ (l : List (List ℕ)). kind ++ concat (tail_parts l m)) (sym first))
          ∙ sym (concat-with_type kind (r ∷ rs) m (omega arith)))

  canonical-shifted :
      (n : ℕ)
      → canonical_membership_bytes (with_type (kind ++ b':' ∷ r) rs m) n
        ≡ canonical_membership_bytes (with_type kind (r ∷ rs) m) n
  unfolding canonical_membership_bytes
  canonical-shifted n =
      append_all-concat n [] _ (omega arith)
      ∙ (ap (λ (t : List ℕ). if ltb n (0 + length t) then none else some t) concat-shifted
          ∙ sym (append_all-concat n [] _ (omega arith)))

  -- The signature does not tell a role from the end of the device type: a certificate whose type ends
  -- in a colon and a role that sorts before its roles is valid exactly when the certificate is that
  -- has the type cut there and the role among its roles, under the same signature.
  pub verify_membership-shifted :
      (crypto : Crypto) (home : Home) (root_pk : List ℕ)
      → verify_membership crypto home (with_type (kind ++ b':' ∷ r) rs m) root_pk
        ≡ verify_membership crypto home (with_type kind (r ∷ rs) m) root_pk
  unfolding verify_membership
  verify_membership-shifted crypto home root_pk =
      ap
        (λ (o : Option (List ℕ)).
          m.version == 1
          && id_derives crypto m.device_public_key m.device_michi_id
          && not (home.provisioned && not (str_eq home.home_id m.home_id))
          && decodes_to sig_bytes m.signature
          && checks crypto o (base64url_decode m.signature sig_bytes).1 root_pk)
        (canonical-shifted 512)
