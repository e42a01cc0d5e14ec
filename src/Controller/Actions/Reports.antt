-- ===== src/Controller/Actions/Reports.antt =====
-- How often a call's start and end are reported: what an action may still spend of the one report of
-- each, and a rule for each way to build an action (apps/call-controller/src/calls/call-flow.ts).
pub mod Changes
use iziphone.Prelude.{
  ℕ, zero, suc, ◌+◌, ◌≤◌, Bool, true, false, not, Option, none, some, List, [], ◌∷◌, ◌≡◌, refl,
  arith, if◌then◌else◌,
}
use mathlib.Core.Path.{subst, sym}
use iziphone.Domain.{Text}
use iziphone.CallState.{CallState}
use iziphone.CallStore.{CallStateChange, CallStateUpdate, state_after, Slot}
use iziphone.Controller.Effects.{Effect, started, ended, lets_go, hangs_up}
use iziphone.Controller.Actions.{
  Outside, World, Result, done, thrown, Act, pure, throw, continue, ◌>>=◌, handle_thrown, catch,
  after_finally, finally, get_call, get_leg, ask_now, emit, hang_up, hang_up_all, let_go,
  update_call, update_found, update_of, change_call, let_go_after, found, past,
}

-- The reports of the end, and of the start, among some effects.
unfoldable pub ended_count : List Effect → ℕ
ended_count [] = zero
ended_count (ended e ∷ es) = suc (ended_count es)
ended_count (_ ∷ es) = ended_count es

unfoldable pub started_count : List Effect → ℕ
started_count [] = zero
started_count (started e ∷ es) = suc (started_count es)
started_count (_ ∷ es) = started_count es

-- What a call can still report: its end while it is stored, its start while it has no answer.
abbrev pub ended_left : Option CallState → ℕ
ended_left none = 0
ended_left (some s) = 1

abbrev pub started_left : Option CallState → ℕ
started_left none = 0
started_left (some s) = if s.answered then 0 else 1

unfoldable pub ended_budget : World → ℕ
ended_budget w = ended_count w.trace + ended_left w.slot.stored

unfoldable pub started_budget : World → ℕ
started_budget w = started_count w.trace + started_left w.slot.stored

-- Nobody else brings a call back that is gone, or takes its answer back.
pub record IsLasting (o : Outside) : Type 0 where
  pub stays_gone :
      (n : ℕ) (slot : Slot) → ended_left (o.others n slot).stored ≤ ended_left slot.stored
  pub stays_answered :
      (n : ℕ) (slot : Slot) → started_left (o.others n slot).stored ≤ started_left slot.stored

-- From `w` to `w'`, at most `a` reports of an end and `b` of a start are made beyond what `w` allows.
pub record Costs (a b : ℕ) (w w' : World) : Type 0 where
  pub of_end : ended_budget w' ≤ a + ended_budget w
  pub of_start : started_budget w' ≤ b + started_budget w

pub record Spends {A : Type 0} (a b : ℕ) (m : Act A) : Type 0 where
  pub at : (w : World) → Costs a b w (m w).1

abbrev pub Keeps : {A : Type 0} → Act A → Type 0
Keeps m = Spends 0 0 m

pub Costs-trans : {a b : ℕ} (w w' w'' : World) → Costs a b w w' → Costs 0 0 w' w'' → Costs a b w w''
Costs-trans w w' w'' c d =
    let x = c.of_end in
    let y = c.of_start in
    let z = d.of_end in
    let u = d.of_start in record { of_end = omega arith; of_start = omega arith }

pub Costs-refl : (w : World) → Costs 0 0 w w
Costs-refl w = record { of_end = omega arith; of_start = omega arith }

pub Costs-weaken : {a b : ℕ} {w w' : World} → Costs 0 0 w w' → Costs a b w w'
Costs-weaken c =
    let x = c.of_end in
    let y = c.of_start in record { of_end = omega arith; of_start = omega arith }

pub Spends-weaken : {A : Type 0} {a b : ℕ} {m : Act A} → Keeps m → Spends a b m
Spends-weaken k = record { at = λ w. Costs-weaken (k.at w) }

module _ {A : Type 0} where
  pub Keeps-pure : (a : A) → Keeps (pure a)
  unfolding pure
  Keeps-pure a = record { at = Costs-refl }

  pub Keeps-throw : Keeps (throw {A = A})
  unfolding throw
  Keeps-throw = record { at = Costs-refl }

  pub Keeps-if : (b : Bool) (m n : Act A) → Keeps m → Keeps n → Keeps (if b then m else n)
  Keeps-if true m n km kn = km
  Keeps-if false m n km kn = kn

  Costs-handle :
      {a b : ℕ} {w : World} (h : Act A) (r : Result A) (w' : World)
      → Costs a b w w'
      → Keeps h
      → Costs a b w (handle_thrown r h w').1
  Costs-handle h (done a) w' c kh = c
  Costs-handle {w = w} h thrown w' c kh = Costs-trans w w' _ c (kh.at w')

  pub Spends-catch : {a b : ℕ} (m h : Act A) → Spends a b m → Keeps h → Spends a b (catch m h)
  unfolding catch
  Spends-catch m h km kh = record {
    at = λ w. let (r, w') = m w in Costs-handle h r w' (km.at w) kh;
  }

  after_finally_world : (r : Result A) (p : Result (Unit {0}) × World) → (after_finally r p).1 ≡ p.1
  after_finally_world r (done u, w) = refl
  after_finally_world r (thrown, w) = refl

  pub Keeps-finally :
      (m : Act A) (f : Result A → Act (Unit {0}))
      → Keeps m
      → ((r : Result A) → Keeps (f r))
      → Keeps (finally m f)
  unfolding finally
  Keeps-finally m f km kf = record {
    at = λ w.
        let (r, w') = m w in
        subst (Costs 0 0 w) (sym (after_finally_world r (f r w')))
          (Costs-trans w w' _ (km.at w) ((kf r).at w'));
  }

module _ {A B : Type 0} where
  Costs-continue :
      {a b : ℕ} {w : World} (f : A → Act B) (r : Result A) (w' : World)
      → Costs a b w w'
      → ((x : A) → Keeps (f x))
      → Costs a b w (continue r f w').1
  Costs-continue {w = w} f (done x) w' c kf = Costs-trans w w' _ c ((kf x).at w')
  Costs-continue f thrown w' c kf = c

  pub Spends-bind :
      {a b : ℕ} (m : Act A) (f : A → Act B)
      → Spends a b m
      → ((x : A) → Keeps (f x))
      → Spends a b (m >>= f)
  unfolding ◌>>=◌
  Spends-bind m f km kf = record {
    at = λ w. let (r, w') = m w in Costs-continue f r w' (km.at w) kf;
  }

-- What a change leaves allows for `a` and `b` reports more than the state it was made to.
pub record Saves (a b : ℕ) (s : CallState) (after : Option CallState) : Type 0 where
  pub of_end : a + ended_left after ≤ ended_left (some s)
  pub of_start : b + started_left after ≤ started_left (some s)

module _ {o : Outside} (lasting : IsLasting o) where
  pub Costs-past : (w : World) → Costs 0 0 w (past o w)
  unfolding ended_budget started_budget
  Costs-past w =
      let e = lasting.stays_gone w.step w.slot in
      let s = lasting.stays_answered w.step w.slot in
      record { of_end = omega arith; of_start = omega arith }

  pub Keeps-get_call : Keeps (get_call o)
  unfolding get_call
  Keeps-get_call = record { at = Costs-past }

abbrev pub ends_of : Effect → ℕ
ends_of e = ended_count (e ∷ [])

abbrev pub starts_of : Effect → ℕ
starts_of e = started_count (e ∷ [])

ended_count_cons :
    (e : Effect) (es : List Effect) → ended_count (e ∷ es) ≡ ends_of e + ended_count es
unfolding ended_count
ended_count_cons (ended e) es = omega arith
ended_count_cons _ es = omega arith

started_count_cons :
    (e : Effect) (es : List Effect) → started_count (e ∷ es) ≡ starts_of e + started_count es
unfolding started_count
started_count_cons (started e) es = omega arith
started_count_cons _ es = omega arith

-- Neither report.
abbrev pub is_quiet : Effect → Bool
is_quiet (ended e) = false
is_quiet (started e) = false
is_quiet _ = true

ends_of-is_quiet : (e : Effect) → is_quiet e ≡ true → (ends_of e ≡ 0) × (starts_of e ≡ 0)
unfolding ended_count started_count
ends_of-is_quiet (ended e) h = ground arith
ends_of-is_quiet (started e) h = ground arith
ends_of-is_quiet _ h = (refl, refl)

module _ (o : Outside) where
  pub Costs-step : (w : World) (n : ℕ) → Costs 0 0 w (record w { step = n })
  unfolding ended_budget started_budget
  Costs-step w n = record { of_end = omega arith; of_start = omega arith }

  pub Keeps-get_leg : (leg : Text) → Keeps (get_leg o leg)
  unfolding get_leg
  Keeps-get_leg leg = record { at = λ w. Costs-step w _ }

  pub Keeps-ask_now : Keeps (ask_now o)
  unfolding ask_now
  Keeps-ask_now = record { at = λ w. Costs-step w _ }

  Costs-trace :
      (e : Effect) (w : World) (n : ℕ)
      → Costs (ends_of e) (starts_of e) w (record w { step = n; trace = e ∷ w.trace })
  unfolding ended_budget started_budget
  Costs-trace e w n =
      let x = ended_count_cons e w.trace in
      let y = started_count_cons e w.trace in
      record { of_end = omega arith; of_start = omega arith }

  pub Costs-if :
      {A : Type 0} {a b : ℕ} {w : World} (c : Bool) (p q : Result A × World)
      → Costs a b w p.1
      → Costs a b w q.1
      → Costs a b w (if c then p else q).1
  Costs-if true p q cp cq = cp
  Costs-if false p q cp cq = cq

  pub Spends-emit : (e : Effect) → Spends (ends_of e) (starts_of e) (emit o e)
  unfolding emit
  Spends-emit e = record {
    at = λ w.
        Costs-if (o.fails w.step) _ _ (Costs-weaken (Costs-step w (suc w.step)))
          (Costs-trace e w (suc w.step));
  }

  pub Keeps-emit : (e : Effect) → is_quiet e ≡ true → Keeps (emit o e)
  Keeps-emit e h =
      let (x, y) = ends_of-is_quiet e h in
      subst (λ b. Spends 0 b (emit o e)) y
        (subst (λ a. Spends a (starts_of e) (emit o e)) x (Spends-emit e))

  pub Keeps-hang_up : (leg : Text) → Keeps (hang_up o leg)
  unfolding hang_up ended_count started_count
  Keeps-hang_up leg = record { at = λ w. Costs-trace (hangs_up leg) w (suc w.step) }

  pub Keeps-hang_up_all : (legs : List Text) → Keeps (hang_up_all o legs)
  unfolding hang_up_all
  Keeps-hang_up_all [] = Keeps-pure tt
  Keeps-hang_up_all (leg ∷ legs) = Spends-bind _ _ (Keeps-hang_up leg) (λ _. Keeps-hang_up_all legs)

  pub Keeps-let_go : (users : List Text) → Keeps (let_go o users)
  unfolding let_go ended_count started_count
  Keeps-let_go [] = Keeps-pure tt
  Keeps-let_go (u ∷ users) = Spends-catch _ _ (Spends-emit (lets_go (u ∷ users))) (Keeps-pure tt)

pub ruleset keeps_rules = (
  refl, Keeps-pure, Keeps-throw, Keeps-if, Spends-catch, Keeps-finally, Spends-bind, Keeps-get_leg,
  Keeps-ask_now, Keeps-get_call, Keeps-emit, Keeps-hang_up, Keeps-hang_up_all, Keeps-let_go,
)
