-- ===== src/Snmp/Set/Outcome.antt =====
-- What a SetRequest comes to: everything is assigned, or nothing is touched.
use nl.Prelude.{
  ℕ, ◌+◌, ◌%◌, ◌≤◌, ◌<◌, ◌≡◌, ◌≢◌, ◌⊎◌, refl, sym, ap, subst, ◌∙◌, true, false, not, Option, none,
  some, List, [], ◌∷◌, ◌==◌, if◌then◌else◌, inl, inr, arith,
}
use mathlib.Core.Path.{fun_ext}
use nl.Prelude.Bytes.{bytes_eq_refl}
use nl.Prelude.Go.{Go, ret, panic, stuck, ◌>>=◌, Returns, Returns-bind, Returns-if}
use nl.Interface.State.{InterfaceState, admin_status, oper_status}
use nl.Interface.State.Family.{Family}
use nl.Interface.Mutate.{StateChange, set_admin_leaf}
use nl.Interface.Mutate.Cascade.{mirror, mirror-append}
use nl.Interface.Mutate.Mirror.{mirror-set_admin_leaf}
use nl.Interface.Mutate.Admin.{Family-Frame, set_admin_leaf-Moved, admin_status-Moved}
use nl.Snmp.Varbinds.{VarBind}
use nl.Snmp.Set.{
  SetVerdict, SetAction, IfCounters, owns_if_index, interface_state, Judgement, refused, accepted,
  judge, no_offence, with_action, after_judgement, validate_from, validate_set_bindings, to_uint8,
  apply_from, apply_set_actions, decide_set, with_state, if_admin_status_column,
}
use nl.Snmp.Set.Judge.{Grants, action, Ends, judge-Returns}

-- Each binding is granted its assignment.
abbrev pub Accepts : Option IfCounters → List VarBind → List SetAction → Type 0
Accepts dev [] [] = Unit {0}
Accepts dev (b ∷ bs) (a ∷ actions) =
    ((n : ℕ) × (v : ℕ) × (a ≡ action n v) × Grants dev b n v) × Accepts dev bs actions
Accepts dev _ _ = ⊥

-- The bindings are granted up to the first that is refused, at this index and with this status.
abbrev pub FirstOffence : Option IfCounters → ℕ → List VarBind → SetVerdict → Type 0
FirstOffence dev i [] v = ⊥
FirstOffence dev i (b ∷ bs) v =
    ((judge dev b ≡ ret (refused v.err_status)) × (v.err_index ≡ i + 1))
    ⊎ (((n : ℕ) × (w : ℕ) × Grants dev b n w) × FirstOffence dev (i + 1) bs v)

abbrev Validated : Option IfCounters → ℕ → List VarBind → List SetAction × SetVerdict → Type 0
Validated dev i binds r =
    ((r.1 ≡ no_offence) × Accepts dev binds r.0)
    ⊎ ((r.1.err_status ≢ 0) × (r.0 ≡ []) × FirstOffence dev i binds r.1)

after_judgement-Returns :
    (dev : Option IfCounters) (i : ℕ) (b : VarBind) (bs : List VarBind)
    (rest : Go (List SetAction × SetVerdict)) (j : Judgement)
    → judge dev b ≡ ret j
    → Ends dev b j
    → Returns rest (Validated dev (i + 1) bs)
    → Returns (after_judgement i rest j) (Validated dev i (b ∷ bs))
after_judgement-Returns dev i b bs rest (refused status) e ends h = inr (ends, refl, inl (e, refl))
after_judgement-Returns dev i b bs rest (accepted a) e ends h =
    Returns-bind rest _ _ (Validated dev i (b ∷ bs)) h further
  where
    further :
        (r : List SetAction × SetVerdict)
        → Validated dev (i + 1) bs r
        → Validated dev i (b ∷ bs) (with_action a r)
    further (actions, v) (inl (q, ok)) =
        let no_error : (v.err_status == 0) ≡ true = rw q refl in
        let (n, w, is, g) = ends in rw no_error (inl (q, ((n, w, is, g), ok)))
    further (actions, v) (inr (bad, nothing, first)) =
        let error : (v.err_status == 0) ≡ false = ground (arith, bad) in
        let (n, w, is, g) = ends in rw error (inr (bad, refl, inr ((n, w, g), first)))

judged_then :
    (dev : Option IfCounters) (i : ℕ) (b : VarBind) (bs : List VarBind)
    (rest : Go (List SetAction × SetVerdict)) (m : Go Judgement)
    → judge dev b ≡ m
    → Returns m (Ends dev b)
    → Returns rest (Validated dev (i + 1) bs)
    → Returns (m >>= after_judgement i rest) (Validated dev i (b ∷ bs))
judged_then dev i b bs rest panic e ends h = absurd ends
judged_then dev i b bs rest stuck e ends h = absurd ends
judged_then dev i b bs rest (ret j) e ends h = after_judgement-Returns dev i b bs rest j e ends h

validate_from-Returns :
    (dev : Option IfCounters) (i : ℕ) (binds : List VarBind)
    → Returns (validate_from dev i binds) (Validated dev i binds)
unfolding validate_from
validate_from-Returns dev i [] = inl (refl, tt)
validate_from-Returns dev i (b ∷ bs) =
    judged_then dev i b bs (validate_from dev (i + 1) bs) (judge dev b) refl (judge-Returns dev b)
      (validate_from-Returns dev (i + 1) bs)

-- The value that the last action on an interface asks for.
abbrev pub requested : List SetAction → ℕ → ℕ → ℕ
requested [] j d = d
requested (a ∷ actions) j d = requested actions j (if j == a.if_index then to_uint8 a.value else d)

-- The actions on a device: the engine's admin-statuses, and the events for its listeners.
pub record Applied (s : InterfaceState) (actions : List SetAction)
    (r : Option InterfaceState × List StateChange × SetVerdict) : Type 0 where
  pub state : InterfaceState
  pub state_is : r.0 ≡ some state
  pub no_error : r.2 ≡ no_offence
  pub admin_is : (j : ℕ) → 0 < j → admin_status state j ≡ requested actions j (admin_status s j)
  pub heard : mirror (oper_status s) r.1 ≡ oper_status state

-- The interfaces that the device serves are the engine's.
abbrev pub Served : Option IfCounters → InterfaceState → Type 0
Served dev s = (n : ℕ) → owns_if_index dev n ≡ true → n ≤ s.max_if_index

apply_from-Applied :
    (clock : ℕ → ℕ) (i : ℕ) (dev : Option IfCounters) (s : InterfaceState) (binds : List VarBind)
    (actions : List SetAction)
    → Family s
    → Served dev s
    → Accepts dev binds actions
    → Applied s actions (apply_from clock i (some s) actions)
unfolding apply_from
apply_from-Applied clock i dev s [] [] fam served ok = record {
  state = s;
  state_is = refl;
  no_error = refl;
  admin_is = λ j h. refl;
  heard = refl;
}
apply_from-Applied clock i dev s [] (a ∷ actions) fam served ok = absurd ok
apply_from-Applied clock i dev s (b ∷ bs) [] fam served ok = absurd ok
apply_from-Applied clock i dev s (b ∷ bs) (a ∷ actions) fam served ok =
    let ((n, w, is, g), rest) = ok in
    let lo : 0 < w % 256 = omega (arith, g.value_low, g.value_high) in
    let hi : w % 256 ≤ 3 = omega (arith, g.value_low, g.value_high) in
    let inside = served n (g.owned) in
    let m = set_admin_leaf-Moved s fam n (w % 256) (clock i) (g.index_low) inside lo hi in
    let s' = (set_admin_leaf s n (w % 256) (clock i)).0 in
    let served' : Served dev s' = λ k h. rw (m.frame.max_same) (served k h) in
    let ih =
      apply_from-Applied clock (i + 1) dev s' bs actions (Family-Frame (m.frame) fam) served'
        rest in
    rw is (
      rw (bytes_eq_refl if_admin_status_column) (record {
        state = ih.state;
        state_is = ih.state_is;
        no_error = ih.no_error;
        admin_is = λ j h.
            ih.admin_is j h
            ∙ ap (requested actions j)
                (admin_status-Moved s s' n (w % 256) m (g.index_low) inside j h);
        heard =
            mirror-append (oper_status s) (set_admin_leaf s n (w % 256) (clock i)).1 _
            ∙ ap (λ t. mirror t (apply_from clock (i + 1) (some s') actions).1)
                (fun_ext (mirror-set_admin_leaf s fam n (w % 256) (clock i)))
            ∙ ih.heard;
      }))

-- A SetRequest that is refused leaves the device as it was and without an event, and names the
-- first binding that is refused; one that is not refused is applied.
abbrev pub AllOrNothing :
    Option IfCounters
    → InterfaceState
    → List VarBind
    → Option IfCounters × List StateChange × SetVerdict
    → Type 0
AllOrNothing dev s binds r =
    ((r.0 ≡ dev) × (r.1 ≡ []) × (r.2.err_status ≢ 0) × FirstOffence dev 0 binds r.2)
    ⊎ ((actions : List SetAction) × Accepts dev binds actions
        × Applied s actions (interface_state r.0, r.1, r.2))

apply_set_actions-Applied :
    (clock : ℕ → ℕ) (dev : Option IfCounters) (s : InterfaceState) (binds : List VarBind)
    (actions : List SetAction)
    → interface_state dev ≡ some s
    → Family s
    → Served dev s
    → Accepts dev binds actions
    → (let r = apply_set_actions clock dev actions in
        Applied s actions (interface_state r.0, r.1, r.2))
unfolding apply_set_actions
apply_set_actions-Applied clock none s binds actions st fam served ok = absurd (cc st)
apply_set_actions-Applied clock (some ic) s binds actions st fam served ok =
    subst (λ o. Applied s actions (apply_from clock 0 o actions)) (sym st)
      (apply_from-Applied clock 0 (some ic) s binds actions fam served ok)

decide_on :
    (clock : ℕ → ℕ) (dev : Option IfCounters) (s : InterfaceState) (binds : List VarBind)
    → interface_state dev ≡ some s
    → Family s
    → Served dev s
    → (r : List SetAction × SetVerdict) → Validated dev 0 binds r
    → Returns
        (if not (r.1.err_status == 0)
          then ret (dev, [], r.1)
          else ret (apply_set_actions clock dev r.0))
        (AllOrNothing dev s binds)
decide_on clock dev s binds st fam served (actions, v) (inl (q, ok)) =
    let no_error : (v.err_status == 0) ≡ true = rw q refl in
    rw no_error
      (inr (actions, ok, apply_set_actions-Applied clock dev s binds actions st fam served ok))
decide_on clock dev s binds st fam served (actions, v) (inr (bad, nothing, first)) =
    let error : (v.err_status == 0) ≡ false = ground (arith, bad) in
    rw error (inl (refl, refl, bad, first))

-- For a device whose engine has consistent parent tables and all of the interfaces that the device
-- serves, `decideSet` returns on all bindings. Either it reports the first binding that is
-- refused, with its error-status and its index from 1, and the device is as it was and nothing is
-- broadcast; or every binding is granted, the verdict is noError with index 0, each admin-status is
-- what the last binding on it asks for and else unchanged, and a listener that applies the events
-- has exactly the oper-statuses that the engine serves.
pub decide_set-AllOrNothing :
    (clock : ℕ → ℕ) (dev : Option IfCounters) (s : InterfaceState) (binds : List VarBind)
    → interface_state dev ≡ some s
    → Family s
    → Served dev s
    → Returns (decide_set clock dev binds) (AllOrNothing dev s binds)
unfolding decide_set validate_set_bindings
decide_set-AllOrNothing clock dev s binds st fam served =
    Returns-bind (validate_from dev 0 binds) _ _ (AllOrNothing dev s binds)
      (validate_from-Returns dev 0 binds) (decide_on clock dev s binds st fam served)

no_engine_applied :
    (clock : ℕ → ℕ) (dev : Option IfCounters) (actions : List SetAction)
    → interface_state dev ≡ none
    → ((apply_set_actions clock dev actions).0 ≡ dev)
      × ((apply_set_actions clock dev actions).1 ≡ [])
unfolding apply_set_actions apply_from
no_engine_applied clock none [] st = (refl, refl)
no_engine_applied clock none (a ∷ actions) st = (refl, refl)
no_engine_applied clock (some ic) actions st =
    subst
      (λ o.
        (with_state (some ic) (apply_from clock 0 o actions).0 ≡ some ic)
        × ((apply_from clock 0 o actions).1 ≡ []))
      (sym st) (none_applied actions)
  where
    none_applied :
        (acts : List SetAction)
        → (with_state (some ic) (apply_from clock 0 none acts).0 ≡ some ic)
          × ((apply_from clock 0 none acts).1 ≡ [])
    none_applied [] = (ap (λ o. some (record ic { state = o })) (sym st), refl)
    none_applied (a ∷ more) = (ap (λ o. some (record ic { state = o })) (sym st), refl)

-- A device without an engine is as it was behind every SetRequest, and nothing is broadcast.
pub decide_set_no_engine :
    (clock : ℕ → ℕ) (dev : Option IfCounters) (binds : List VarBind)
    → interface_state dev ≡ none
    → Returns (decide_set clock dev binds) (λ r. (r.0 ≡ dev) × (r.1 ≡ []))
unfolding decide_set validate_set_bindings
decide_set_no_engine clock dev binds st =
    Returns-bind (validate_from dev 0 binds) _ _ (λ r. (r.0 ≡ dev) × (r.1 ≡ []))
      (validate_from-Returns dev 0 binds)
      (λ r h.
        Returns-if (not (r.1.err_status == 0)) (ret (dev, [], r.1))
          (ret (apply_set_actions clock dev r.0)) (λ q. (q.0 ≡ dev) × (q.1 ≡ []))
          (λ t. (refl, refl)) (λ t. no_engine_applied clock dev r.0 st))
