-- ===== src/Snmp/Bulk/Layout.antt =====
-- How the answer of a GETBULK is laid out.
use nl.Prelude.{
  ℕ, zero, suc, ◌≡◌, refl, sym, ap, Bool-cases, inl, inr, false, ◌||◌, ◌==◌, Option, none, some,
  List, [], ◌∷◌, ◌++◌, map, if◌then◌else◌, length, take, drop, min, append-nil, arith,
}
use nl.Prelude.Bytes.{Bytes}
use nl.Snmp.Value.{value_end_of_mib_view}
use nl.Snmp.Walk.{Entry, MibView, find_next_oid_with_served}
use nl.Snmp.Bulk.{
  Column, is_over, fresh_column, repeat_column, repetition, repetitions, non_repeater,
  clamp_bulk_walk, get_bulk_bindings,
}

take-min : (n : ℕ) (oids : List Bytes) → take (min n (length oids)) oids ≡ take n oids
take-min zero oids = rw (min_zero (length oids)) refl
  where
    min_zero : (k : ℕ) → min 0 k ≡ 0
    min_zero k = omega arith
take-min (suc n) [] = let e : min (suc n) 0 ≡ 0 = omega arith in rw e refl
take-min (suc n) (o ∷ oids) =
    let e : min (suc n) (suc (length oids)) ≡ suc (min n (length oids)) = omega arith in
    rw e (ap (λ r. o ∷ r) (take-min n oids))

drop-min : (n : ℕ) (oids : List Bytes) → drop (min n (length oids)) oids ≡ drop n oids
drop-min zero oids = rw (min_zero (length oids)) refl
  where
    min_zero : (k : ℕ) → min 0 k ≡ 0
    min_zero k = omega arith
drop-min (suc n) [] = let e : min (suc n) 0 ≡ 0 = omega arith in rw e refl
drop-min (suc n) (o ∷ oids) =
    let e : min (suc n) (suc (length oids)) ≡ suc (min n (length oids)) = omega arith in
    rw e (drop-min n oids)

module _ (mib : MibView) where
  abbrev after : Option Bytes → Option Bytes
  after none = none
  after (some c) =
      if is_over (find_next_oid_with_served mib c)
      then none
      else some (find_next_oid_with_served mib c).0

  abbrev shown : Bytes → Option Bytes → Entry
  shown start none = (start, value_end_of_mib_view)
  shown start (some c) =
      if is_over (find_next_oid_with_served mib c)
      then (start, value_end_of_mib_view)
      else find_next_oid_with_served mib c

  -- Where the walk of a column stands after `n` repetitions, none when it is over.
  unfoldable pub place : ℕ → Bytes → Option Bytes
  place zero start = some start
  place (suc n) start = after (place n start)

  -- The binding of repetition `n` from 0 for the column of `start`.
  unfoldable pub cell : ℕ → Bytes → Entry
  cell n start = shown start (place n start)

  -- The repetitions from `n` on, each with a cell for every column in the order of the request.
  pub rows : ℕ → ℕ → List Bytes → List Entry
  rows n zero starts = []
  rows n (suc more) starts = map (cell n) starts ++ rows (suc n) more starts

  abbrev At : ℕ → Bytes → Column → Type 0
  At n start col =
      (col.start ≡ start) × (place n start ≡ (if col.ended then none else some col.current))

  abbrev AllAt : ℕ → List Bytes → List Column → Type 0
  AllAt n [] [] = Unit {0}
  AllAt n (start ∷ starts) (col ∷ cols) = At n start col × AllAt n starts cols
  AllAt n _ _ = ⊥

  repeat_column-cell :
      (n : ℕ) (start : Bytes) (col : Column)
      → At n start col
      → ((repeat_column mib col).0 ≡ cell n start) × At (suc n) start (repeat_column mib col).1
  unfolding repeat_column cell place
  repeat_column-cell n start col (same, at) = elim (Bool-cases col.ended) [
    | inl t ↦
        let e : place n start ≡ none = rw t at at in
        rw t (rw e (ap (λ q. (q, value_end_of_mib_view)) same, (same, refl)))
    | inr f ↦
        let e : place n start ≡ some col.current = rw f at at in
        elim (Bool-cases (is_over (find_next_oid_with_served mib col.current))) [
          | inl o ↦
              rw f (rw o (rw e (rw o (ap (λ q. (q, value_end_of_mib_view)) same, (same, refl)))))
          | inr o ↦ rw f (rw o (rw e (rw o (refl, (same, refl)))))
        ]
  ]

  repetition-cells :
      (n : ℕ) (starts : List Bytes) (cols : List Column)
      → AllAt n starts cols
      → ((repetition mib cols).0 ≡ map (cell n) starts)
        × AllAt (suc n) starts (repetition mib cols).1
  unfolding repetition
  repetition-cells n [] [] h = (refl, tt)
  repetition-cells n [] (col ∷ cols) h = absurd h
  repetition-cells n (start ∷ starts) [] h = absurd h
  repetition-cells n (start ∷ starts) (col ∷ cols) (h, hs) =
      let (e, a) = repeat_column-cell n start col h in
      let (es, as') = repetition-cells n starts cols hs in (rw e (rw es refl), (a, as'))

  repetitions-rows :
      (more n : ℕ) (starts : List Bytes) (cols : List Column)
      → AllAt n starts cols
      → repetitions mib more cols ≡ rows n more starts
  unfolding repetitions rows
  repetitions-rows zero n starts cols h = refl
  repetitions-rows (suc more) n starts cols h =
      let (e, a) = repetition-cells n starts cols h in
      rw e (
        ap (λ r. map (cell n) starts ++ r)
          (repetitions-rows more (suc n) starts (repetition mib cols).1 a))

  fresh_column-AllAt : (starts : List Bytes) → AllAt 0 starts (map fresh_column starts)
  unfolding place
  fresh_column-AllAt [] = tt
  fresh_column-AllAt (start ∷ starts) = ((refl, refl), fresh_column-AllAt starts)

  rows-nil : (n more : ℕ) → rows n more [] ≡ []
  unfolding rows
  rows-nil n zero = refl
  rows-nil n (suc more) = rows-nil (suc n) more

  clamp_zero : (budget columns : ℕ) → clamp_bulk_walk budget 0 columns ≡ 0
  unfolding clamp_bulk_walk
  clamp_zero budget columns = ground arith

  -- The answer of a GETBULK for `oids`: the successors of the first `non_repeaters`, and then, in
  -- rows, for each repetition one binding for every other name in the order of the request: the next
  -- object of its own walk, or, from the end of that walk on, endOfMibView under the name that was
  -- asked for. There are as many rows as the request has repetitions, but no more than the clamp.
  pub get_bulk_bindings-rows :
      (budget non_repeaters max_repetitions : ℕ) (oids : List Bytes)
      → get_bulk_bindings mib budget non_repeaters max_repetitions oids
        ≡ map (non_repeater mib) (take non_repeaters oids)
          ++ rows 0
              (clamp_bulk_walk budget max_repetitions (length (drop non_repeaters oids)))
              (drop non_repeaters oids)
  unfolding get_bulk_bindings
  get_bulk_bindings-rows budget non_repeaters max_repetitions oids =
      rw (take-min non_repeaters oids)
        (rw (drop-min non_repeaters oids) (tail (drop non_repeaters oids)))
    where
      front : List Entry
      front = map (non_repeater mib) (take non_repeaters oids)

      tail :
          (cols : List Bytes)
          → (if length cols == 0 || max_repetitions == 0
              then front
              else front
                ++ repetitions mib
                    (clamp_bulk_walk budget max_repetitions (length cols))
                    (map fresh_column cols))
            ≡ front ++ rows 0 (clamp_bulk_walk budget max_repetitions (length cols)) cols
      tail [] = rw (rows-nil 0 (clamp_bulk_walk budget max_repetitions 0)) (sym (append-nil front))
      tail (c ∷ cols) =
          let some_col : (length (c ∷ cols) == 0) ≡ false = ground arith in
          elim (Bool-cases (max_repetitions == 0)) [
            | inl none_asked ↦
                let e : max_repetitions ≡ 0 = ground arith in
                rw e (
                  rw some_col (
                    rw (clamp_zero budget (length (c ∷ cols)))
                      (unfold rows in sym (append-nil front))))
            | inr asked ↦ rw some_col (
                rw asked (
                  ap (λ r. front ++ r)
                    (repetitions-rows (clamp_bulk_walk budget max_repetitions (length (c ∷ cols))) 0
                      (c ∷ cols) (map fresh_column (c ∷ cols)) (fresh_column-AllAt (c ∷ cols)))))
          ]
