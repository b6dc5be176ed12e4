-- ===== src/Snmp/GetNext/Skips.antt =====
-- What a GETNEXT answers a binding with.
use nl.Prelude.{
  ℕ, zero, suc, ◌≤◌, ◌≡◌, refl, Bool-cases, ◌⊎◌, inl, inr, true, false, not, ◌&&◌, List, [], ◌∷◌,
  map, arith,
}
use nl.Prelude.Bytes.{Bytes}
use nl.Prelude.Int.{ℤ}
use nl.Snmp.Oid.Order.{oid_le}
use nl.Snmp.Value.{OidTypeEntry, value_end_of_mib_view}
use nl.Snmp.Response.{is_version1}
use nl.Snmp.Walk.{Entry, MibView, is_empty, find_next_oid_with_served}
use nl.Snmp.GetNext.{
  is_counter64, skip_counter64, or_end, get_next_binding, get_next_bindings_for_request,
}

module _ (table : List OidTypeEntry) (mib : MibView) where
  -- `e` is reached by steps of the walk from `c`, past objects that are all Counter64 and each
  -- behind the one in front of it, and is none itself.
  pub data SkipsTo : Bytes → Entry → Type 0 where
    here :
        (c : Bytes) (e : Entry)
        → find_next_oid_with_served mib c ≡ e
        → is_counter64 table mib e.0 ≡ false
        → SkipsTo c e
    past :
        (c : Bytes) (e : Entry)
        → is_counter64 table mib (find_next_oid_with_served mib c).0 ≡ true
        → oid_le
            (find_next_oid_with_served mib (find_next_oid_with_served mib c).0).0
            (find_next_oid_with_served mib c).0
          ≡ false
        → SkipsTo (find_next_oid_with_served mib c).0 e
        → SkipsTo c e

  -- Nothing is skipped where there is no object.
  skip_counter64_none :
      (remaining : ℕ) (e : Entry)
      → is_empty e.0 ≡ true
      → is_empty (skip_counter64 table mib remaining e).0.0 ≡ true
  unfolding skip_counter64 is_counter64
  skip_counter64_none zero e h = rw h h
  skip_counter64_none (suc remaining) e h = rw h h

  skip_counter64-SkipsTo :
      (remaining : ℕ) (c : Bytes)
      → is_empty (skip_counter64 table mib remaining (find_next_oid_with_served mib c)).0.0 ≡ false
      → SkipsTo c (skip_counter64 table mib remaining (find_next_oid_with_served mib c)).0
  unfolding skip_counter64
  skip_counter64-SkipsTo zero c h =
      elim (Bool-cases (is_counter64 table mib (find_next_oid_with_served mib c).0)) [
        | inl t ↦ cc (rw t at h)
        | inr f ↦ rw f (here c (find_next_oid_with_served mib c) refl f)
      ]
  skip_counter64-SkipsTo (suc remaining) c h =
      let e = find_next_oid_with_served mib c in
      let next_e = find_next_oid_with_served mib e.0 in
      elim (Bool-cases (is_counter64 table mib e.0)) [
        | inr f ↦ rw f (here c e refl f)
        | inl t ↦ elim (Bool-cases (not (is_empty next_e.0) && oid_le next_e.0 e.0)) [
          | inl stay ↦ cc (rw stay at (rw t at h))
          | inr go ↦
              let k = rw go at (rw t at h) in
              elim (Bool-cases (is_empty next_e.0)) [
                | inl over ↦ cc (skip_counter64_none remaining next_e over, k)
                | inr more ↦
                    let le : oid_le next_e.0 e.0 ≡ false = ground (arith, go, more) in
                    rw t (rw go (past c _ t le (skip_counter64-SkipsTo remaining e.0 k)))
              ]
        ]
      ]

  skip_counter64_spends :
      (remaining : ℕ) (e : Entry) → (skip_counter64 table mib remaining e).1 ≤ remaining
  unfolding skip_counter64
  skip_counter64_spends zero e = ground arith
  skip_counter64_spends (suc remaining) e =
      let ih = skip_counter64_spends remaining (find_next_oid_with_served mib e.0) in
      ground (arith, ih)

  -- The answer to a binding of a v1 GETNEXT is endOfMibView under its own name, or what the walk
  -- reaches from that name past Counter64 objects, and no Counter64 object itself.
  abbrev pub Answers : Bytes → Entry → Type 0
  Answers requested e = (e ≡ (requested, value_end_of_mib_view)) ⊎ SkipsTo requested e

  or_end-Answers :
      (requested : Bytes) (e : Entry)
      → (is_empty e.0 ≡ false → SkipsTo requested e)
      → Answers requested (or_end requested e)
  or_end-Answers requested e h = elim (Bool-cases (is_empty e.0)) [
    | inl t ↦ rw t (inl refl)
    | inr f ↦ rw f (inr (h f))
  ]

  get_next_binding-Answers :
      (version : ℤ) (remaining : ℕ) (requested : Bytes)
      → is_version1 version ≡ true
      → Answers requested (get_next_binding table mib version remaining requested).0
        × ((get_next_binding table mib version remaining requested).1 ≤ remaining)
  unfolding get_next_binding
  get_next_binding-Answers version remaining requested v1 =
      let e = find_next_oid_with_served mib requested in
      elim (Bool-cases (is_counter64 table mib e.0)) [
        | inl t ↦ rw v1 (
            rw t (
              or_end-Answers requested (skip_counter64 table mib remaining e).0
                  (skip_counter64-SkipsTo remaining requested),
              skip_counter64_spends remaining e,
            ))
        | inr f ↦
            rw v1 (rw f (or_end-Answers requested e (λ u. here requested e refl f), omega arith))
      ]

  -- Each name with its answer.
  abbrev pub AllAnswer : List Bytes → List Entry → Type 0
  AllAnswer [] [] = Unit {0}
  AllAnswer (requested ∷ oids) (e ∷ es) = Answers requested e × AllAnswer oids es
  AllAnswer _ _ = ⊥

  -- A v1 GETNEXT, with whatever budget of steps, answers each of its names: with endOfMibView under
  -- that name, or with the object that the walk reaches from it past Counter64 objects only, each
  -- behind the one in front of it, and that is no Counter64 object itself.
  pub get_next_bindings-AllAnswer :
      (version : ℤ) (remaining : ℕ) (oids : List Bytes)
      → is_version1 version ≡ true
      → AllAnswer oids (get_next_bindings_for_request table mib version remaining oids)
  unfolding get_next_bindings_for_request
  get_next_bindings-AllAnswer version remaining [] v1 = tt
  get_next_bindings-AllAnswer version remaining (requested ∷ oids) v1 = (
    (get_next_binding-Answers version remaining requested v1).0,
    get_next_bindings-AllAnswer version (get_next_binding table mib version remaining requested).1
        oids v1,
  )

  -- Under any other version each name is answered with its own successor, whatever the others are.
  pub get_next_bindings-map :
      (version : ℤ) (remaining : ℕ) (oids : List Bytes)
      → is_version1 version ≡ false
      → get_next_bindings_for_request table mib version remaining oids
        ≡ map (λ o. or_end o (find_next_oid_with_served mib o)) oids
  unfolding get_next_bindings_for_request get_next_binding
  get_next_bindings-map version remaining [] v2 = refl
  get_next_bindings-map version remaining (requested ∷ oids) v2 =
      rw v2 (rw (get_next_bindings-map version remaining oids v2) refl)
