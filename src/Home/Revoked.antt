-- ===== src/Home/Revoked.antt =====
-- The list of revocations: what `michi_home_add_revocation` does on every branch.
use michi_music_stream.Prelude.{
  ℕ, ◌≤◌, ◌≡◌, refl, true, false, not, ◌||◌, Option, none, some, List, [], ◌∷◌, ◌++◌, leb, str_eq,
  str_eq_refl, str_eq_sound, EspErr, is_ok, arith, length, length-append, if-both, if-split,
  Option-cases, inl, inr, ◌⊎◌,
}
use michi_music_stream.Identity.{Crypto}
use michi_music_stream.Home.{
  Home, Revocation, add_revocation, verify_revocation, is_device_revoked, replace_revocation,
  put_revocation, saved, max_revocations,
}

replace_revocation-revoked :
    (r : Revocation) (xs ys : List Revocation)
    → replace_revocation r xs ≡ some ys
    → (id : List ℕ) → is_device_revoked id ys ≡ is_device_revoked id xs
unfolding replace_revocation is_device_revoked
replace_revocation-revoked r [] ys h id = absurd (ground arith)
replace_revocation-revoked r (x ∷ xs) ys h id = elim (Option-cases (replace_revocation r xs)) [
  | inl e ↦ ground (arith, str_eq_sound x.revoked_device_michi_id r.revoked_device_michi_id)
  | inr (zs, e) ↦ ground (
    arith,
    str_eq_sound x.revoked_device_michi_id r.revoked_device_michi_id,
    replace_revocation-revoked r xs zs e id,
  )
]

replace_revocation-device :
    (r : Revocation) (xs ys : List Revocation)
    → replace_revocation r xs ≡ some ys
    → is_device_revoked r.revoked_device_michi_id ys ≡ true
unfolding replace_revocation is_device_revoked
replace_revocation-device r [] ys h = absurd (ground arith)
replace_revocation-device r (x ∷ xs) ys h = elim (Option-cases (replace_revocation r xs)) [
  | inl e ↦ ground (arith, str_eq_refl r.revoked_device_michi_id)
  | inr (zs, e) ↦
      ground (arith, str_eq_refl r.revoked_device_michi_id, replace_revocation-device r xs zs e)
]

length-replace_revocation :
    (r : Revocation) (xs ys : List Revocation)
    → replace_revocation r xs ≡ some ys
    → length ys ≡ length xs
unfolding replace_revocation
length-replace_revocation r [] ys h = absurd (ground arith)
length-replace_revocation r (x ∷ xs) ys h = elim (Option-cases (replace_revocation r xs)) [
  | inl e ↦ ground arith
  | inr (zs, e) ↦ ground (arith, length-replace_revocation r xs zs e)
]

revoked-append :
    (id : List ℕ) (xs : List Revocation) (r : Revocation)
    → is_device_revoked id (xs ++ r ∷ [])
      ≡ (is_device_revoked id xs || str_eq r.revoked_device_michi_id id)
unfolding is_device_revoked
revoked-append id [] r = ground arith
revoked-append id (x ∷ xs) r = ground (arith, revoked-append id xs r)

-- An accepted revocation revokes its device, and changes nothing for the others; the list fits its
-- array.
abbrev pub Extends : Revocation → List Revocation → List Revocation → Type 0
Extends r old new =
    ((id : List ℕ)
      → is_device_revoked id new
        ≡ (is_device_revoked id old || str_eq r.revoked_device_michi_id id))
    × (length new ≤ max_revocations)

replaced-Extends :
    (r : Revocation) (xs ys : List Revocation)
    → replace_revocation r xs ≡ some ys
    → length xs ≤ max_revocations
    → Extends r xs ys
replaced-Extends r xs ys e l = (
  λ id. ground (
    arith,
    replace_revocation-revoked r xs ys e id,
    replace_revocation-device r xs ys e,
    str_eq_sound r.revoked_device_michi_id id,
  ),
  omega (arith, length-replace_revocation r xs ys e),
)

appended-Extends :
    (r : Revocation) (xs : List Revocation)
    → leb max_revocations (length xs) ≡ false
    → Extends r xs (xs ++ r ∷ [])
appended-Extends r xs full =
    ((λ id. revoked-append id xs r), ground (arith, length-append {0} xs (r ∷ [])))

-- What the call answers, whom it tells of, and what it leaves.
abbrev pub Revokes : Crypto → EspErr → Revocation → Home → EspErr × Option (List ℕ) × Home → Type 0
Revokes crypto stored r h (err, told, h') =
    (err ≡ EspErr.ok)
      × (verify_revocation crypto h r h.root_pk ≡ true)
      × (is_ok stored ≡ true)
      × (told ≡ some r.revoked_device_michi_id)
      × (h' ≡ record h { revocations = h'.revocations })
      × Extends r h.revocations h'.revocations
    ⊎ (is_ok err ≡ false) × (told ≡ none) × (h' ≡ h)

module _ (crypto : Crypto) (stored : EspErr) (r : Revocation) (h : Home) where
  saved-Revokes :
      (rs : List Revocation)
      → verify_revocation crypto h r h.root_pk ≡ true
      → Extends r h.revocations rs
      → Revokes crypto stored r h (saved stored rs r h)
  unfolding saved
  saved-Revokes rs v e =
      if-split (Revokes crypto stored r h) (is_ok stored)
        (λ good. inl (refl, v, good, refl, refl, e)) (λ bad. inr (bad, refl, refl))

  put_revocation-Revokes :
      verify_revocation crypto h r h.root_pk ≡ true
      → length h.revocations ≤ max_revocations
      → Revokes crypto stored r h (put_revocation stored (replace_revocation r h.revocations) r h)
  unfolding put_revocation
  put_revocation-Revokes v l = elim (Option-cases (replace_revocation r h.revocations)) [
    | inl e ↦ rw e (
        if-split (Revokes crypto stored r h) (leb max_revocations (length h.revocations))
          (λ _. inr (refl, refl, refl))
          (λ room. saved-Revokes _ v (appended-Extends r h.revocations room)))
    | inr (rs, e) ↦ rw e (saved-Revokes rs v (replaced-Extends r h.revocations rs e l))
  ]

  -- `michi_home_add_revocation` answers ESP_OK only for a revocation that the home's root key has
  -- signed and that the store has taken; then exactly its device is revoked besides those that were,
  -- its device is what the callback is told, nothing else of the home changes, and the list still
  -- fits its array. With any other answer nothing changes and the callback is not called.
  pub add_revocation-Revokes :
      length h.revocations ≤ max_revocations
      → Revokes crypto stored r h (add_revocation crypto stored r h)
  unfolding add_revocation
  add_revocation-Revokes l =
      if-both (Revokes crypto stored r h) (not h.provisioned) (inr (refl, refl, refl)) (
        if-split (Revokes crypto stored r h) (not (verify_revocation crypto h r h.root_pk))
          (λ _. inr (refl, refl, refl)) (λ v. put_revocation-Revokes (ground arith) l))
