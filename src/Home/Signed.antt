-- ===== src/Home/Signed.antt =====
-- What a membership's signature covers: the canonical bytes determine the certificate.
use michi_music_stream.Prelude.{
  ℕ, ◌^◌, ◌<◌, ◌≡◌, refl, ap, sym, ◌∙◌, some, List, [], ◌∷◌, ◌++◌, length, arith, All,
}
use michi_music_stream.Home.Payload.{sort_roles, with_colon, print_nat, domain_membership}
use michi_music_stream.Home.{Membership, signed_roles, membership_parts, canonical_membership_bytes}
use michi_music_stream.Home.Segments.{
  concat, append_all-concat, prefix_cancel, NoColon, joined, split_at_colon, joined_cancel,
  last_four, read_nat, read_nat-print_nat, All-append, print_nat-NoColon, concat-with_colon,
  timestamp, IsTimestamp, sort_roles-All,
}

-- What the issuer keeps to: ids and keys are base64url of 32 bytes, no text but the time has a colon,
-- and the serial is a number of 64 bits.
pub record IsIssued (m : Membership) : Type 0 where
  pub home_len : length m.home_id ≡ 43
  pub device_len : length m.device_michi_id ≡ 43
  pub key_len : length m.device_public_key ≡ 43
  pub type_plain : NoColon m.device_type
  pub roles_plain : All NoColon (signed_roles m)
  pub time_form : IsTimestamp m.issued_at
  pub serial_width : m.serial < 2 ^ 64

-- The two certificates say the same, up to the order of the roles.
pub record SameSigned (m m' : Membership) : Type 0 where
  pub home : m.home_id ≡ m'.home_id
  pub device : m.device_michi_id ≡ m'.device_michi_id
  pub key : m.device_public_key ≡ m'.device_public_key
  pub kind : m.device_type ≡ m'.device_type
  pub roles : sort_roles (signed_roles m) ≡ sort_roles (signed_roles m')
  pub issued : m.issued_at ≡ m'.issued_at
  pub serial : m.serial ≡ m'.serial

abbrev fields : Membership → List ℕ → List ℕ → List ℕ → List (List ℕ)
fields m a b c = sort_roles (signed_roles m) ++ a ∷ b ∷ c ∷ print_nat 20 m.serial ∷ []

abbrev front : Membership → List ℕ → List ℕ
front m t =
    domain_membership
    ++ (m.home_id ++ (m.device_michi_id ++ (m.device_public_key ++ (m.device_type ++ t))))

payload-concat :
    (m : Membership) (a b c : List ℕ)
    → m.issued_at ≡ timestamp a b c
    → concat (membership_parts m) ≡ front m (joined (fields m a b c))
unfolding membership_parts concat
payload-concat m a b c e =
    let roles = sort_roles (signed_roles m) in
    let serial = print_nat 20 m.serial in
    ap
      (λ (i : List ℕ).
        front m (concat (with_colon roles ++ (b':' ∷ []) ∷ i ∷ (b':' ∷ []) ∷ serial ∷ [])))
      e
    ∙ ap (front m) (concat-with_colon roles a b c serial)

canonical-concat :
    (m : Membership) (n : ℕ) (b : List ℕ)
    → canonical_membership_bytes m n ≡ some b
    → b ≡ concat (membership_parts m)
unfolding canonical_membership_bytes
canonical-concat m n b h = ground (arith, append_all-concat n [] (membership_parts m))

fields-NoColon :
    (m : Membership) (a b c : List ℕ)
    → IsIssued m
    → NoColon a
    → NoColon b
    → NoColon c
    → All NoColon (fields m a b c)
fields-NoColon m a b c v na nb nc =
    All-append NoColon (sort_roles (signed_roles m)) _
      (sort_roles-All NoColon (signed_roles m) v.roles_plain)
      (na, (nb, (nc, (print_nat-NoColon 20 m.serial, tt))))

-- Certificates of the issuer that have the same signed bytes say the same: a signature over one is a
-- signature over no other.
pub canonical_membership_bytes-injective :
    (m m' : Membership) (n n' : ℕ) (bytes : List ℕ)
    → IsIssued m
    → IsIssued m'
    → canonical_membership_bytes m n ≡ some bytes
    → canonical_membership_bytes m' n' ≡ some bytes
    → SameSigned m m'
canonical_membership_bytes-injective m m' n n' bytes v v' h h' =
    let (a, b, c, na, nb, nc, e) = v.time_form in
    let (a', b', c', na', nb', nc', e') = v'.time_form in
    let same : front m (joined (fields m a b c)) ≡ front m' (joined (fields m' a' b' c')) =
      sym (canonical-concat m n bytes h ∙ payload-concat m a b c e)
      ∙ (canonical-concat m' n' bytes h' ∙ payload-concat m' a' b' c' e') in
    let (_, same1) = prefix_cancel domain_membership domain_membership _ _ refl same in
    let (home, same2) =
      prefix_cancel m.home_id m'.home_id _ _ (v.home_len ∙ sym v'.home_len) same1 in
    let (device, same3) =
      prefix_cancel m.device_michi_id m'.device_michi_id _ _ (v.device_len ∙ sym v'.device_len)
        same2 in
    let (key, same4) =
      prefix_cancel m.device_public_key m'.device_public_key _ _ (v.key_len ∙ sym v'.key_len)
        same3 in
    let (kind, same5) =
      split_at_colon m.device_type m'.device_type (fields m a b c) (fields m' a' b' c') v.type_plain
        v'.type_plain same4 in
    let all =
      joined_cancel (fields m a b c) (fields m' a' b' c') (fields-NoColon m a b c v na nb nc)
        (fields-NoColon m' a' b' c' v' na' nb' nc') same5 in
    let (roles, times) =
      last_four (sort_roles (signed_roles m)) (sort_roles (signed_roles m')) a b c _ a' b' c' _
        all in
    record {
      home = home;
      device = device;
      key = key;
      kind = kind;
      roles = roles;
      issued = e ∙ (ground arith ∙ sym e');
      serial =
          sym (read_nat-print_nat 20 m.serial (omega arith))
          ∙ (ap (read_nat 0) times.3 ∙ read_nat-print_nat 20 m'.serial (omega arith));
    }
