-- ===== src/Snmp/Varbinds/Agreement.antt =====
-- `parseVarBindNames` reads the names that `parseVarBinds` reads.
use nl.Prelude.{
  ℕ, zero, suc, ◌+◌, ◌-◌, ◌≤◌, ◌≡◌, refl, ap, ◌∙◌, true, false, Bool-cases, inl, inr, ◌&&◌, ◌||◌,
  not, Option, none, some, List, [], ◌∷◌, map, ltb, leb, ◌==◌, if◌then◌else◌, length, take, drop,
  arith,
}
use nl.Prelude.Bytes.{Bytes}
use nl.Prelude.Go.{
  Go, ret, panic, stuck, ◌>>=◌, ◌>>?◌, index, slice, index-ret, bind-bind, try-bind, if-bind,
}
use nl.Snmp.Tlv.{asn1_sequence}
use nl.Snmp.Varbinds.{
  length_at, field, VarBind, VarBinds, malformed, absent, parsed, name_field, value_field,
  bindings_loop, with_contents, parse_list, parse_var_binds, skip_value, names_loop, names_of_list,
  parse_var_bind_names,
}

-- The names of a verdict; an absent list has none.
abbrev pub names_of : VarBinds → Option (List Bytes)
names_of malformed = none
names_of absent = some []
names_of (parsed binds contents) = some (map (λ b. b.name) binds)

names : Option (List VarBind) → Go (Option (List Bytes))
names none = ret none
names (some binds) = ret (some (map (λ b. b.name) binds))

slice-ret :
    (bs : Bytes) (lo hi : ℕ)
    → lo ≤ hi
    → hi ≤ length bs
    → slice bs lo hi ≡ ret (take (hi - lo) (drop lo bs))
slice-ret bs lo hi a b =
    let inside : (leb lo hi && leb hi (length bs)) ≡ true = ground arith in rw inside refl

-- The value's end in place of the value.
abbrev ends_at : ℕ → Option (ℕ × Bytes) → Go (Option ℕ)
ends_at next none = ret none
ends_at next (some v) = ret (some next)

value_tail :
    (bs : Bytes) (next tag : ℕ) (r : ℕ × ℕ)
    → next ≤ length bs
    → ((if ltb next (r.1 + r.0) || not (r.1 + r.0 == next)
          then ret none
          else (slice bs r.1 next >>= λ content. ret (some (tag, content))))
        >>= ends_at next)
      ≡ (if not (r.1 + r.0 == next) then ret none else ret (some next))
value_tail bs next tag r le = elim (Bool-cases (r.1 + r.0 == next)) [
  | inl q ↦
      let inside : ltb next (r.1 + r.0) ≡ false = ground arith in
      rw q (rw inside (rw (slice-ret bs r.1 next (ground arith) le) refl))
  | inr q ↦ rw q (ground arith)
]

value_field-skip :
    (bs : Bytes) (next pos : ℕ)
    → next ≤ length bs
    → (value_field bs next pos >>= ends_at next) ≡ skip_value bs next pos
unfolding value_field skip_value
value_field-skip bs next pos le =
    if-bind (leb next pos) _ _ _ _ (ends_at next) (λ past. refl)
      (λ before.
        let (b, e) = index-ret bs pos (ground arith) in
        rw e (
          try-bind (length_at bs (pos + 1)) _ _ (ends_at next) refl
            (λ r. value_tail bs next b r le)))

then_names :
    (next : ℕ) (m : Go (Option (ℕ × Bytes))) (f : ℕ × Bytes → Go (Option (List VarBind)))
    (g : ℕ → Go (Option (List Bytes)))
    → ((v : ℕ × Bytes) → (f v >>= names) ≡ g next)
    → ((m >>? f) >>= names) ≡ ((m >>= ends_at next) >>? g)
unfolding names
then_names next (ret none) f g k = refl
then_names next (ret (some v)) f g k = k v
then_names next panic f g k = refl
then_names next stuck f g k = refl

-- The binding kept, with the bindings behind it.
push :
    (m : Go (Option (List VarBind))) (b : VarBind)
    → ((m >>? λ more. ret (some (b ∷ more))) >>= names)
      ≡ ((m >>= names) >>? λ more. ret (some (b.name ∷ more)))
unfolding names
push (ret none) b = refl
push (ret (some more)) b = refl
push panic b = refl
push stuck b = refl

-- A binding behind its name.
binding_rest :
    (bs : Bytes) (next pos : ℕ) (name : Bytes) (m : Go (Option (List VarBind)))
    (g : ℕ → Go (Option (List Bytes)))
    → next ≤ length bs
    → (m >>= names) ≡ g next
    → ((value_field bs next pos >>? λ v.
          m >>? λ more. ret (some (record { name = name; tag = v.0; content = v.1 } ∷ more)))
        >>= names)
      ≡ (skip_value bs next pos >>? λ e. g e >>? λ more. ret (some (name ∷ more)))
unfolding names
binding_rest bs next pos name m g le h =
    then_names next (value_field bs next pos) _ (λ e. g e >>? λ more. ret (some (name ∷ more)))
      (λ v.
        push m (record { name = name; tag = v.0; content = v.1 })
        ∙ ap (λ o. o >>? λ more. ret (some (name ∷ more))) h)
    ∙ ap (λ o. o >>? λ e. g e >>? λ more. ret (some (name ∷ more)))
        (value_field-skip bs next pos le)

bindings_loop-names :
    (rounds : ℕ) (bs : Bytes) (end pos : ℕ)
    → end ≤ length bs
    → (bindings_loop rounds bs end pos >>= names) ≡ names_loop rounds bs end pos
unfolding bindings_loop names_loop names
bindings_loop-names zero bs end pos le = refl
bindings_loop-names (suc rounds) bs end pos le =
    if-bind (leb end pos) _ _ _ _ names (λ e. refl)
      (λ e. bind-bind (index bs pos) _ _ names (λ b.
        if-bind (not (b == asn1_sequence)) _ _ _ _ names (λ t. refl)
          (λ t. try-bind (length_at bs (pos + 1)) _ _ names refl (λ r.
            if-bind (ltb end (r.1 + r.0)) _ _ _ _ names (λ over. refl)
              (λ inside.
                let next_le : r.1 + r.0 ≤ length bs = ground arith in
                try-bind (name_field bs (r.1 + r.0) r.1) _ _ names refl (λ n.
                  binding_rest bs (r.1 + r.0) n.1 n.0 (bindings_loop rounds bs end (r.1 + r.0))
                    (names_loop rounds bs end) next_le
                    (bindings_loop-names rounds bs end (r.1 + r.0) le)))))))

names_of-with_contents :
    (contents : Bytes) (m : Go (Option (List VarBind)))
    → (m >>= (λ binds. ret (with_contents contents binds)) >>= (λ v. ret (names_of v)))
      ≡ (m >>= names)
unfolding names
names_of-with_contents contents (ret none) = refl
names_of-with_contents contents (ret (some binds)) = refl
names_of-with_contents contents panic = refl
names_of-with_contents contents stuck = refl

parse_list-names :
    (bs : Bytes) (r : Option (ℕ × ℕ))
    → (parse_list bs r >>= (λ v. ret (names_of v))) ≡ names_of_list bs r
unfolding parse_list names_of_list
parse_list-names bs none = refl
parse_list-names bs (some (n, pos)) =
    if-bind (ltb (length bs) (pos + n)) _ _ _ _ (λ v. ret (names_of v)) (λ over. refl)
      (λ inside.
        let fits : pos + n ≤ length bs = ground arith in
        rw (slice-ret bs pos (pos + n) (omega arith) fits) (
          names_of-with_contents (take (pos + n - pos) (drop pos bs))
            (bindings_loop (suc (length bs)) bs (pos + n) pos)
          ∙ bindings_loop-names (suc (length bs)) bs (pos + n) pos fits))

-- On any bytes and from any position, `parseVarBindNames` returns the names that `parseVarBinds`
-- returns: malformed where it is malformed, no names where the list is absent, and else the
-- names of the bindings in their order.
pub parse_var_binds-names :
    (bs : Bytes) (pos : ℕ)
    → (parse_var_binds bs pos >>= (λ v. ret (names_of v))) ≡ parse_var_bind_names bs pos
unfolding parse_var_binds parse_var_bind_names
parse_var_binds-names bs pos =
    bind-bind (field bs asn1_sequence pos) (parse_list bs) (names_of_list bs)
      (λ v. ret (names_of v)) (parse_list-names bs)
