-- ===== src/Scenario/Apps/Totals.antt =====
-- The counters of an application are those of its records.
use nl.Prelude.{
  ℕ, ◌+◌, ◌^◌, ◌%◌, ◌≡◌, ◌<◌, refl, sym, ap, ◌∙◌, subst, Bool, Bool-cases, inl, inr, true, false,
  Option, none, some, List, [], ◌∷◌, if◌then◌else◌, length, ltb, ◌==◌, get_or, get_or-set,
  length-set, arith,
}
use nl.Flow.{FlowRecord}
use nl.Scenario.Gate.{scenario_sub_window_count}
use nl.Scenario.Apps.{
  AvcApplication, AppKey, AppCounters, AppLedger, no_app, app_key_eq, app_key_of, count_in, at_key,
  count_app, count_sub_window, plus64, add_app_record, add_app_batch,
}

-- A map of counters, under a test that tells keys apart.
module _ {ℓ κ} {K : Type ℓ} {C : Type κ} (eq : K → K → Bool) (empty : C)
    (eq_trans : (i j k : K) → eq i j ≡ true → eq i k ≡ eq j k)
    (eq_sym : (j k : K) → eq j k ≡ eq k j) where
  at_key-count_in :
      (f : C → C) (k k' : K) (m : List (K × C))
      → at_key eq empty k' (count_in eq empty f k m)
        ≡ (if eq k k' then f (at_key eq empty k' m) else at_key eq empty k' m)
  unfolding at_key count_in
  at_key-count_in f k k' [] = refl
  at_key-count_in f k k' ((j, c) ∷ rest) = elim (Bool-cases (eq j k)) [
    | inl t ↦
        let e = eq_trans j k k' t in
        rw t (elim (Bool-cases (eq k k')) [
          | inl u ↦ let v = e ∙ u in rw u (rw v refl)
          | inr u ↦ let v = e ∙ u in rw u (rw v refl)
        ])
    | inr t ↦ elim (Bool-cases (eq j k')) [
      | inr v ↦ rw t (rw v (at_key-count_in f k k' rest))
      | inl v ↦
          let u : eq k k' ≡ false = eq_sym k k' ∙ (sym (eq_trans j k' k v) ∙ t) in
          rw t (rw v (rw u refl))
    ]
  ]

app_key_eq_sym : (j k : AppKey) → app_key_eq j k ≡ app_key_eq k j
unfolding app_key_eq
app_key_eq_sym j k = ground arith

app_key_eq_trans : (i j k : AppKey) → app_key_eq i j ≡ true → app_key_eq i k ≡ app_key_eq j k
unfolding app_key_eq
app_key_eq_trans i j k h = ground (arith, h)

module _ (cat : Option (List AvcApplication)) (in_window : Bool) (sub_idx : Option ℕ) where
  -- A record, counted if it is one of the key.
  unfoldable pub matched : AppKey → FlowRecord → AppCounters → AppCounters
  matched k r c = if app_key_eq (app_key_of cat r) k then count_app in_window sub_idx r c else c

  -- The records under a key, counted one by one.
  pub count_matching : AppKey → AppCounters → List FlowRecord → AppCounters
  count_matching k c [] = c
  count_matching k c (r ∷ batch) = count_matching k (matched k r c) batch

  -- Behind a batch the counters of each key are those in front of it with the records of exactly
  -- that key counted, in their order; a key that was not there starts from zero.
  pub at_key-add_app_batch :
      (l : AppLedger) (batch : List FlowRecord) (k : AppKey)
      → at_key app_key_eq no_app k (add_app_batch cat in_window sub_idx l batch).apps
        ≡ count_matching k (at_key app_key_eq no_app k l.apps) batch
  unfolding add_app_batch add_app_record count_matching matched
  at_key-add_app_batch l [] k = refl
  at_key-add_app_batch l (r ∷ batch) k =
      at_key-add_app_batch (add_app_record cat in_window sub_idx l r) batch k
      ∙ ap (λ c. count_matching k c batch)
          (at_key-count_in app_key_eq no_app app_key_eq_trans app_key_eq_sym
            (count_app in_window sub_idx r) (app_key_of cat r) k l.apps)

  -- The sum of a number over the records of a key.
  pub total_of : (FlowRecord → ℕ) → AppKey → List FlowRecord → ℕ
  total_of f k [] = 0
  total_of f k (r ∷ batch) =
      (if app_key_eq (app_key_of cat r) k then f r else 0) + total_of f k batch

  -- The sub-window at the place `w` is the one that the batch counts in.
  abbrev pub hits : Option ℕ → ℕ → Bool
  hits none w = false
  hits (some i) w = i == w

  abbrev pub InRange : Option ℕ → Type 0
  InRange none = Unit {0}
  InRange (some i) = i < scenario_sub_window_count

  -- The sums, modulo 2 ^ 64, behind what was counted.
  abbrev pub Totals : AppKey → AppCounters → List FlowRecord → AppCounters → Type 0
  Totals k c batch d =
      (d.records ≡ (c.records + total_of (λ r. 1) k batch) % 2 ^ 64)
      × (d.bytes ≡ (c.bytes + total_of (λ (r : FlowRecord). r.bytes) k batch) % 2 ^ 64)
      × (d.packets ≡ (c.packets + total_of (λ (r : FlowRecord). r.packets) k batch) % 2 ^ 64)
      × (d.in_window_bytes
          ≡ (c.in_window_bytes
              + (if in_window then total_of (λ (r : FlowRecord). r.bytes) k batch else 0))
            % 2 ^ 64)
      × ((w : ℕ)
          → get_or d.sub_window_bytes w 0
            ≡ (get_or c.sub_window_bytes w 0
                + (if hits sub_idx w then total_of (λ (r : FlowRecord). r.bytes) k batch else 0))
              % 2 ^ 64)

  -- Counters that fit their words, with a word for each sub-window.
  pub record IsFitting (c : AppCounters) : Type 0 where
    pub records : c.records < 2 ^ 64
    pub bytes : c.bytes < 2 ^ 64
    pub packets : c.packets < 2 ^ 64
    pub inside : c.in_window_bytes < 2 ^ 64
    pub sub_windows : length c.sub_window_bytes ≡ scenario_sub_window_count
    pub sub_window : (w : ℕ) → get_or c.sub_window_bytes w 0 < 2 ^ 64

  get_or-count_sub_window :
      (idx : Option ℕ) (b w : ℕ) (ws : List ℕ)
      → InRange idx
      → length ws ≡ scenario_sub_window_count
      → get_or ws w 0 < 2 ^ 64
      → get_or (count_sub_window idx b ws) w 0
        ≡ (get_or ws w 0 + (if hits idx w then b else 0)) % 2 ^ 64
  get_or-count_sub_window none b w ws r l f = omega arith
  get_or-count_sub_window (some i) b w ws r l f =
      let room : ltb i (length ws) ≡ true = ground (arith, r, l) in
      get_or-set ws i w (plus64 (get_or ws i 0) b) 0
      ∙ rw room (elim (Bool-cases (i == w)) [
        | inl t ↦ let e : i ≡ w = ground (arith, t) in rw t (rw e refl)
        | inr t ↦ rw t (omega arith)
      ])

  length-count_sub_window :
      (idx : Option ℕ) (b : ℕ) (ws : List ℕ) → length (count_sub_window idx b ws) ≡ length ws
  length-count_sub_window none b ws = refl
  length-count_sub_window (some i) b ws = length-set ws i _

  count_app-IsFitting :
      (r : FlowRecord) (c : AppCounters)
      → InRange sub_idx
      → IsFitting c
      → IsFitting (count_app in_window sub_idx r c)
  unfolding count_app
  count_app-IsFitting r c i h = record {
    records = omega arith;
    bytes = omega arith;
    packets = omega arith;
    inside = window in_window h.inside;
    sub_windows = length-count_sub_window sub_idx r.bytes c.sub_window_bytes ∙ h.sub_windows;
    sub_window = λ w.
        let e =
          get_or-count_sub_window sub_idx r.bytes w c.sub_window_bytes i h.sub_windows
            (h.sub_window w) in
        omega arith;
  }
    where
      window :
          (w : Bool)
          → c.in_window_bytes < 2 ^ 64
          → (if w then (c.in_window_bytes + r.bytes) % 2 ^ 64 else c.in_window_bytes) < 2 ^ 64
      window true lt = omega arith
      window false lt = lt

  matched-IsFitting :
      (k : AppKey) (r : FlowRecord) (c : AppCounters)
      → InRange sub_idx
      → IsFitting c
      → IsFitting (matched k r c)
  unfolding matched
  matched-IsFitting k r c i h = elim (Bool-cases (app_key_eq (app_key_of cat r) k)) [
    | inl t ↦ rw t (count_app-IsFitting r c i h)
    | inr f ↦ rw f h
  ]

  -- A sum modulo 2 ^ 64 of one more number.
  one_more : (d c a t : ℕ) → d ≡ ((c + a) % 2 ^ 64 + t) % 2 ^ 64 → d ≡ (c + (a + t)) % 2 ^ 64
  one_more d c a t h = omega arith

  none_more : (d c t : ℕ) → d ≡ (c + t) % 2 ^ 64 → d ≡ (c + (0 + t)) % 2 ^ 64
  none_more d c t h = omega arith

  window_more :
      (w : Bool) (d c a t : ℕ)
      → d ≡ ((if w then (c + a) % 2 ^ 64 else c) + (if w then t else 0)) % 2 ^ 64
      → d ≡ (c + (if w then a + t else 0)) % 2 ^ 64
  window_more true d c a t h = one_more d c a t h
  window_more false d c a t h = h

  window_none :
      (w : Bool) (d c t : ℕ)
      → d ≡ (c + (if w then t else 0)) % 2 ^ 64
      → d ≡ (c + (if w then 0 + t else 0)) % 2 ^ 64
  window_none true d c t h = none_more d c t h
  window_none false d c t h = h

  sub_window_more :
      (hit : Bool) (d e c a t : ℕ)
      → e ≡ (c + (if hit then a else 0)) % 2 ^ 64
      → d ≡ (e + (if hit then t else 0)) % 2 ^ 64
      → d ≡ (c + (if hit then a + t else 0)) % 2 ^ 64
  sub_window_more true d e c a t g h = omega arith
  sub_window_more false d e c a t g h = omega arith

  Totals-matched :
      (k : AppKey) (r : FlowRecord) (c : AppCounters) (batch : List FlowRecord) (d : AppCounters)
      → InRange sub_idx
      → IsFitting c
      → Totals k (matched k r c) batch d
      → Totals k c (r ∷ batch) d
  unfolding matched total_of count_app
  Totals-matched k r c batch d i g h = elim (Bool-cases (app_key_eq (app_key_of cat r) k)) [
    | inr f ↦
        let k0 = rw f at h in
        rw f (
          none_more d.records c.records _ k0.0,
          none_more d.bytes c.bytes _ k0.1,
          none_more d.packets c.packets _ k0.2,
          window_none in_window d.in_window_bytes c.in_window_bytes _ k0.3,
          λ w.
              window_none (hits sub_idx w) (get_or d.sub_window_bytes w 0)
                (get_or c.sub_window_bytes w 0) _ (k0.4 w),
        )
    | inl t ↦
        let k0 = rw t at h in
        rw t (
          one_more d.records c.records 1 _ k0.0,
          one_more d.bytes c.bytes r.bytes _ k0.1,
          one_more d.packets c.packets r.packets _ k0.2,
          window_more in_window d.in_window_bytes c.in_window_bytes r.bytes _ k0.3,
          λ w.
              sub_window_more (hits sub_idx w) (get_or d.sub_window_bytes w 0)
                (get_or (count_sub_window sub_idx r.bytes c.sub_window_bytes) w 0)
                (get_or c.sub_window_bytes w 0) r.bytes _
                (get_or-count_sub_window sub_idx r.bytes w c.sub_window_bytes i g.sub_windows
                  (g.sub_window w))
                (k0.4 w),
        )
  ]

  count_matching-Totals :
      (k : AppKey) (c : AppCounters) (batch : List FlowRecord)
      → InRange sub_idx
      → IsFitting c
      → Totals k c batch (count_matching k c batch)
  unfolding count_matching
  count_matching-Totals k c [] i h =
      unfold total_of in
      (
        let a = h.records in omega arith,
        let a = h.bytes in omega arith,
        let a = h.packets in omega arith,
        let a = h.inside in ground (arith, a),
        λ w. let a = h.sub_window w in ground (arith, a),
      )
  count_matching-Totals k c (r ∷ batch) i h =
      Totals-matched k r c batch (count_matching k (matched k r c) batch) i h
        (count_matching-Totals k (matched k r c) batch i (matched-IsFitting k r c i h))

  -- A batch whose sub-window is one of the ten, or none, on counters that fit their words: behind it
  -- the records, bytes and packets of each key are what they were in front of it plus the sums over
  -- the records of exactly that key, modulo 2 ^ 64; the bytes in the window grow by the same sum
  -- inside it and not at all outside, and of the sub-windows that of the batch alone grows, by the
  -- same sum. A key that was not there starts from zero.
  pub add_app_batch-Totals :
      (l : AppLedger) (batch : List FlowRecord) (k : AppKey)
      → InRange sub_idx
      → IsFitting (at_key app_key_eq no_app k l.apps)
      → Totals k
          (at_key app_key_eq no_app k l.apps)
          batch
          (at_key app_key_eq no_app k (add_app_batch cat in_window sub_idx l batch).apps)
  add_app_batch-Totals l batch k i h =
      subst (Totals k (at_key app_key_eq no_app k l.apps) batch)
        (sym (at_key-add_app_batch l batch k))
        (count_matching-Totals k (at_key app_key_eq no_app k l.apps) batch i h)
