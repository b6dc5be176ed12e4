-- ===== src/Snmp/Walk/Search.antt =====
-- The binary searches of a walk.
use nl.Prelude.{
  ℕ, zero, suc, ◌+◌, ◌-◌, ◌/◌, ◌≤◌, ◌<◌, ◌≡◌, Bool, Bool-cases, inl, inr, true, false, List, [],
  ltb, length, get_or, arith,
}
use nl.Prelude.Bytes.{Bytes}
use nl.Snmp.Oid.Order.{oid_le}
use nl.Snmp.Oid.Order.Total.{oid_le_trans}
use nl.Snmp.Walk.{Entry, no_entry, search_after, upto_at, served_upto_at}

-- `r` splits the indices below `n` into those that `upto` holds of and the others.
pub record Splits (upto : ℕ → Bool) (n r : ℕ) : Type 0 where
  pub inside : r ≤ n
  pub below : (i : ℕ) → i < r → upto i ≡ true
  pub above : (i : ℕ) → r ≤ i → i < n → upto i ≡ false

module _ (upto : ℕ → Bool) (n : ℕ)
    (falls : (i j : ℕ) → i ≤ j → j < n → upto j ≡ true → upto i ≡ true) where
  rises : (i j : ℕ) → i ≤ j → j < n → upto i ≡ false → upto j ≡ false
  rises i j h k e = elim (Bool-cases (upto j)) [
    | inl t ↦ let u = falls i j h k t in ground (arith, u, e)
    | inr f ↦ f
  ]

  search_after-Splits :
      (rounds left right : ℕ)
      → right - left ≤ rounds
      → left ≤ right
      → right ≤ n
      → ((i : ℕ) → i < left → upto i ≡ true)
      → ((i : ℕ) → right ≤ i → i < n → upto i ≡ false)
      → Splits upto n (search_after rounds upto left right)
  unfolding search_after
  search_after-Splits zero left right fuel lr rn low high = record {
    inside = omega arith;
    below = low;
    above = λ i h k. high i (omega arith) k;
  }
  search_after-Splits (suc rounds) left right fuel lr rn low high =
      elim (Bool-cases (ltb left right)) [
        | inr done ↦
            let e : right ≤ left = ground arith in
            rw done (record {
              inside = omega arith;
              below = low;
              above = λ i h k. high i (omega arith) k;
            })
        | inl more ↦
            let lt : left < right = ground arith in
            let mid = (left + right) / 2 in
            elim (Bool-cases (upto mid)) [
              | inl up ↦ rw more (
                  rw up (
                    search_after-Splits rounds (mid + 1) right (omega arith) (omega arith) rn
                      (λ i h. falls i mid (omega arith) (omega arith) up) high))
              | inr down ↦ rw more (
                  rw down (
                    search_after-Splits rounds left mid (omega arith) (omega arith) (omega arith)
                      low (λ i h k. rises mid i h k down)))
            ]
      ]

  -- The search over all indices finds the split, in as many rounds as there are indices.
  pub search_after_all : Splits upto n (search_after n upto 0 n)
  search_after_all =
      search_after-Splits n 0 n (omega arith) (omega arith) (omega arith)
        (λ i h. absurd (omega arith)) (λ i h k. absurd (omega arith))

-- The OIDs stand in the order of the walk.
abbrev pub Ascending : List Bytes → Type 0
Ascending oids =
    (i j : ℕ) → i ≤ j → j < length oids → oid_le (get_or oids i []) (get_or oids j []) ≡ true

abbrev pub AscendingRows : List Entry → Type 0
AscendingRows rows =
    (i j : ℕ)
    → i ≤ j
    → j < length rows
    → oid_le (get_or rows i no_entry).0 (get_or rows j no_entry).0 ≡ true

pub search-Ascending :
    (oids : List Bytes) (current : Bytes)
    → Ascending oids
    → Splits
        (upto_at oids current)
        (length oids)
        (search_after (length oids) (upto_at oids current) 0 (length oids))
search-Ascending oids current sorted =
    search_after_all (upto_at oids current) (length oids)
      (λ i j h k t. oid_le_trans (get_or oids i []) (get_or oids j []) current (sorted i j h k) t)

pub search-AscendingRows :
    (rows : List Entry) (current : Bytes)
    → AscendingRows rows
    → Splits
        (served_upto_at rows current)
        (length rows)
        (search_after (length rows) (served_upto_at rows current) 0 (length rows))
search-AscendingRows rows current sorted =
    search_after_all (served_upto_at rows current) (length rows) (λ i j h k t.
      oid_le_trans (get_or rows i no_entry).0 (get_or rows j no_entry).0 current (sorted i j h k) t)
