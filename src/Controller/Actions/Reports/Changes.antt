-- ===== src/Controller/Actions/Reports/Changes.antt =====
-- The reports that a change of the call pays for (apps/call-controller/src/calls/call-flow.ts:
-- `changeCall`, and what a handler does with what it answers).
use iziphone.Prelude.{ℕ, Bool, true, false, Option, none, some, ◌≡◌, refl, ap, arith, if◌then◌else◌}
use iziphone.CallState.{CallState}
use iziphone.CallStore.{CallStateChange, CallStateUpdate, state_after}
use iziphone.Controller.Actions.{
  Outside, World, Result, done, thrown, Act, pure, continue, ◌>>=◌, let_go_by, update_call,
  update_found, update_of, slot_after, change_call, let_go_after, found, past,
}
use iziphone.Controller.Actions.Reports.{
  IsLasting, Costs, Costs-trans, Costs-refl, Spends, Keeps, Saves, ended_left, started_left,
  ended_budget, started_budget, Keeps-pure, Keeps-let_go, Costs-past, Spends-bind,
}

Costs-chain : {a b : ℕ} (w w' w'' : World) → Costs 0 0 w w' → Costs a b w' w'' → Costs a b w w''
Costs-chain w w' w'' c d =
    let x = c.of_end in
    let y = c.of_start in
    let z = d.of_end in
    let u = d.of_start in record { of_end = omega arith; of_start = omega arith }

module _ {A B : Type 0} {a b : ℕ} (f : A → Act B) where
  Costs-last :
      (w : World) (r : Result A) (w' : World)
      → Costs 0 0 w w'
      → ((x : A) → Spends a b (f x))
      → Costs a b w (continue r f w').1
  Costs-last w (done x) w' c kf = Costs-chain w w' _ c ((kf x).at w')
  Costs-last w thrown w' c kf =
      let y = c.of_end in
      let z = c.of_start in record { of_end = omega arith; of_start = omega arith }

  pub Spends-last : (m : Act A) → Keeps m → ((x : A) → Spends a b (f x)) → Spends a b (m >>= f)
  unfolding ◌>>=◌
  Spends-last m km kf = record { at = λ w. let (r, w') = m w in Costs-last w r w' (km.at w) kf }

  Costs-known :
      (w : World) (x : A) (r : Result (Unit {0})) (w' : World)
      → Costs 0 0 w w'
      → Spends a b (f x)
      → Costs a b w (let (q, v) = continue r (λ _. pure x) w' in continue q f v).1
  unfolding pure
  Costs-known w x (done u) w' c kf = Costs-chain w w' _ c (kf.at w')
  Costs-known w x thrown w' c kf =
      let y = c.of_end in
      let z = c.of_start in record { of_end = omega arith; of_start = omega arith }

  Spends-known :
      (m : Act (Unit {0})) (x : A)
      → Keeps m
      → Spends a b (f x)
      → Spends a b ((m >>= λ _. pure x) >>= f)
  unfolding ◌>>=◌
  Spends-known m x km kf = record {
    at = λ w. let (r, w') = m w in Costs-known w x r w' (km.at w) kf;
  }

-- What follows a change may report what the change saves.
pub record Affords {A : Type 0} (s : CallState) (after : Option CallState) (m : Act A)
    : Type 0 where
  pub ends : ℕ
  pub starts : ℕ
  pub saves : Saves ends starts s after
  pub spends : Spends ends starts m

pub Affords-Keeps :
    {A : Type 0} {s : CallState} {after : Option CallState} {m : Act A}
    → Saves 0 0 s after
    → Keeps m
    → Affords s after m
Affords-Keeps h k = record { ends = 0; starts = 0; saves = h; spends = k }

Costs-paid :
    {a b : ℕ} (w w' : World) (s : CallState) (after : Option CallState)
    → w.slot.stored ≡ some s
    → Saves a b s after
    → Costs a b (record w { slot = slot_after w.slot s after }) w'
    → Costs 0 0 w w'
unfolding ended_budget started_budget
Costs-paid w w' s none e h c =
    let x = c.of_end in
    let y = c.of_start in
    let z = h.of_end in
    let u = h.of_start in
    let v = ap ended_left e in
    let t = ap started_left e in record { of_end = omega arith; of_start = omega arith }
Costs-paid w w' s (some after) e h c =
    let x = c.of_end in
    let y = c.of_start in
    let z = h.of_end in
    let u = h.of_start in
    let v = ap ended_left e in
    let t = ap started_left e in record { of_end = omega arith; of_start = omega arith }

module _ {R B : Type 0} (o : Outside) (lasting : IsLasting o)
    (decide : CallState → CallStateChange R) (f : Option (CallStateUpdate R) → Act B) where
  abbrev follow : Result (Option (CallStateUpdate R)) × World → Result B × World
  follow (r, w) = let (q, v) = continue r (let_go_after o decide) w in continue q f v

  abbrev left_by : CallState → Option CallState
  left_by s = state_after s (decide s)

  module _ (kn : Keeps (f none))
      (ks : (s : CallState)
        → Affords s (left_by s) (f (some (update_of o s (decide s) (left_by s))))) where
    Costs-found :
        (w : World) (st : Option CallState)
        → (found o w).stored ≡ st
        → Costs 0 0 w (follow (update_found o decide st w)).1
    unfolding pure ◌>>=◌
    Costs-found w none e = Costs-trans w (past o w) _ (Costs-past lasting w) (kn.at (past o w))
    Costs-found w (some s) e =
        let k = ks s in
        Costs-trans w (past o w) _ (Costs-past lasting w) (
          Costs-paid (past o w) _ s (left_by s) e k.saves
            ((Spends-known f _ _ (Keeps-let_go o (let_go_by o s (decide s))) k.spends).at _))

    Costs-update :
        (w : World) (c : Bool)
        → Costs 0 0 w
            (follow
              (if c then (thrown, past o w) else update_found o decide (found o w).stored w)).1
    Costs-update w true = Costs-past lasting w
    Costs-update w false = Costs-found w (found o w).stored refl

    pub Keeps-change : Keeps (change_call o decide >>= f)
    unfolding ◌>>=◌ change_call update_call
    Keeps-change = record { at = λ w. Costs-update w (o.conflicts w.step) }

module _ {R : Type 0} (o : Outside) (lasting : IsLasting o) (decide : CallState → CallStateChange R)
    (saves : (s : CallState) → Saves 0 0 s (state_after s (decide s))) where
  Costs-written :
      (w : World) (st : Option CallState)
      → (found o w).stored ≡ st
      → Costs 0 0 w (update_found o decide st w).1
  Costs-written w none e = Costs-past lasting w
  Costs-written w (some s) e =
      Costs-trans w (past o w) _ (Costs-past lasting w)
        (Costs-paid (past o w) _ s (state_after s (decide s)) e (saves s) (Costs-refl _))

  Costs-try :
      (w : World) (c : Bool)
      → Costs 0 0 w (if c then (thrown, past o w) else update_found o decide (found o w).stored w).1
  Costs-try w true = Costs-past lasting w
  Costs-try w false = Costs-written w (found o w).stored refl

  pub Keeps-update_call : Keeps (update_call o decide)
  unfolding update_call
  Keeps-update_call = record { at = λ w. Costs-try w (o.conflicts w.step) }

  Keeps-let_go_after : (u : Option (CallStateUpdate R)) → Keeps (let_go_after o decide u)
  Keeps-let_go_after none = Keeps-pure none
  Keeps-let_go_after (some u) = Spends-bind _ _ (Keeps-let_go o _) (λ _. Keeps-pure (some u))

  pub Keeps-change_call : Keeps (change_call o decide)
  unfolding change_call
  Keeps-change_call = Spends-bind _ _ Keeps-update_call Keeps-let_go_after
