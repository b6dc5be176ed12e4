-- ===== src/Interface/Broadcast.antt =====
-- `Broadcast` of go/nl6/interface_state.go: the fan-out to the listeners' bounded channels, with no
-- other producer on the channel between the steps of one send.
use nl.Prelude.{
  ℕ, suc, ◌+◌, ◌≤◌, ◌<◌, ◌≡◌, refl, true, List, [], ◌∷◌, ◌++◌, ltb, if◌then◌else◌, length,
  length-append, Bool-cases, inl, inr, arith,
}
use nl.Interface.Mutate.{StateChange}

-- A channel of at least one place, oldest event first, and its subscriber's drop count.
pub record Listener : Type 0 where
  pub queue : List StateChange
  pub capacity : ℕ
  pub drops : ℕ

pub record Fanout : Type 0 where
  pub listeners : List Listener
  pub emitted : ℕ
  pub dropped : ℕ

-- `case <-ch` of the second select: the oldest event goes, if there is one.
pub drop_oldest : List StateChange → List StateChange × ℕ
drop_oldest [] = ([], 0)
drop_oldest (e ∷ es) = (es, 1)

-- One listener: its new state, the sends counted and the drops counted.
unfoldable pub send : Listener → StateChange → Listener × ℕ × ℕ
send l evt =
    let (rest, gone) = drop_oldest l.queue in
    if ltb (length l.queue) l.capacity
    then (record l { queue = l.queue ++ (evt ∷ []) }, 1, 0)
    else if ltb (length rest) l.capacity
    then (record l { queue = rest ++ (evt ∷ []); drops = l.drops + gone }, 1, gone)
    else (record l { queue = rest; drops = l.drops + gone + 1 }, 0, gone + 1)

pub send_all : List Listener → StateChange → List Listener × ℕ × ℕ
send_all [] evt = ([], 0, 0)
send_all (l ∷ ls) evt =
    let (l', sent, lost) = send l evt in
    let (ls', sents, losts) = send_all ls evt in (l' ∷ ls', sent + sents, lost + losts)

unfoldable pub broadcast : Fanout → StateChange → Fanout
broadcast f evt =
    let (ls, sent, lost) = send_all f.listeners evt in
    record { listeners = ls; emitted = f.emitted + sent; dropped = f.dropped + lost }

-- Every channel has a place, and none holds more than it has places.
abbrev pub Bounded : List Listener → Type 0
Bounded [] = Unit {0}
Bounded (l ∷ ls) = (0 < l.capacity) × (length l.queue ≤ l.capacity) × Bounded ls

-- Each listener has the event last, behind what it had or behind all of that but the oldest.
abbrev pub Received : List Listener → List Listener → StateChange → Type 0
Received [] [] evt = Unit {0}
Received (l ∷ ls) (k ∷ ks) evt =
    (k.queue
      ≡ (if ltb (length l.queue) l.capacity then l.queue else (drop_oldest l.queue).0)
        ++ (evt ∷ []))
    × Received ls ks evt
Received _ _ evt = ⊥

abbrev pub queued : List Listener → ℕ
queued [] = 0
queued (l ∷ ls) = length l.queue + queued ls

abbrev pub count : List Listener → ℕ
count [] = 0
count (l ∷ ls) = suc (count ls)

drop_oldest_lem :
    (q : List StateChange)
    → 0 < length q
    → (length (drop_oldest q).0 + 1 ≡ length q) × ((drop_oldest q).1 ≡ 1)
unfolding drop_oldest
drop_oldest_lem [] h = absurd (omega arith)
drop_oldest_lem (e ∷ es) h = (omega arith, refl)

send_lem :
    (l : Listener) (evt : StateChange)
    → 0 < l.capacity
    → length l.queue ≤ l.capacity
    → ((send l evt).0.queue
        ≡ (if ltb (length l.queue) l.capacity then l.queue else (drop_oldest l.queue).0)
          ++ (evt ∷ []))
      × ((send l evt).0.capacity ≡ l.capacity)
      × (length (send l evt).0.queue ≤ l.capacity)
      × ((send l evt).1 ≡ 1)
      × (length (send l evt).0.queue + (send l evt).2 ≡ length l.queue + 1)
unfolding send
send_lem l evt h k = elim (Bool-cases (ltb (length l.queue) l.capacity)) [
  | inl room ↦ rw room (
    refl,
    refl,
    ground (arith, length-append l.queue (evt ∷ [])),
    refl,
    omega (arith, length-append l.queue (evt ∷ [])),
  )
  | inr full ↦
      let at_cap : length l.queue ≡ l.capacity = ground arith in
      let (shorter, gone) = drop_oldest_lem l.queue (omega arith) in
      let room : ltb (length (drop_oldest l.queue).0) l.capacity ≡ true = ground arith in
      let grown = length-append (drop_oldest l.queue).0 (evt ∷ []) in
      rw full (rw room (refl, refl, omega arith, refl, omega arith))
]

send_all_lem :
    (ls : List Listener) (evt : StateChange)
    → Bounded ls
    → Received ls (send_all ls evt).0 evt
      × Bounded (send_all ls evt).0
      × ((send_all ls evt).1 ≡ count ls)
      × (queued (send_all ls evt).0 + (send_all ls evt).2 ≡ queued ls + count ls)
unfolding send_all
send_all_lem [] evt b = (tt, tt, refl, refl)
send_all_lem (l ∷ ls) evt b =
    let (last, cap, fits, sent, kept) = send_lem l evt b.0 b.1 in
    let (r, b', sents, kepts) = send_all_lem ls evt b.2 in
    ((last, r), (omega arith, omega arith, b'), omega arith, omega arith)

-- With a place in every channel `Broadcast` reaches every listener: each channel ends with the
-- event, behind all that it held, or all but the oldest if it was full; no channel overflows; one
-- send is counted for each listener, and one drop for each event that left a channel unread.
pub broadcast_delivers :
    (f : Fanout) (evt : StateChange)
    → Bounded f.listeners
    → Received f.listeners (broadcast f evt).listeners evt
      × Bounded (broadcast f evt).listeners
      × ((broadcast f evt).emitted ≡ f.emitted + count f.listeners)
      × (queued (broadcast f evt).listeners + (broadcast f evt).dropped
          ≡ queued f.listeners + f.dropped + count f.listeners)
unfolding broadcast
broadcast_delivers f evt b =
    let (r, b', sent, kept) = send_all_lem f.listeners evt b in (r, b', omega arith, omega arith)
