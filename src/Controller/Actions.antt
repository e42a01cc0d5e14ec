-- ===== src/Controller/Actions.antt =====
-- The actions of a handler on one call: reading it, changing it (`changeCall` of call-flow.ts over
-- `updateCallState` of telephony.service.ts), letting users go, and leaving an effect.
pub mod Reports
use iziphone.Prelude.{ℕ, suc, Bool, true, false, Option, none, some, List, [], ◌∷◌, if◌then◌else◌}
use iziphone.Domain.{Text}
use iziphone.CallState.{CallState, LegMetadata, users_let_go}
use iziphone.CallStore.{
  CallStateChange, CallStateUpdate, Slot, state_after, is_unchanged, after_change,
}
use iziphone.Availability.Offers.{CallOffer}
use iziphone.Routing.InboundPlan.{Sort}
use iziphone.Controller.Effects.{Effect, lets_go, hangs_up}

-- What the outside answers, by the number of the step that asks: what other writers did to the store
-- before it, whether a change gave up (`CallStateConflictError`), whether a publication, a notice or a
-- request of Twilio threw, and the answers that carry something. Redis, Twilio and the realtime layer
-- stand behind it; so do the built-in sort, and the characters that a text has and the text of them.
pub record Outside : Type 0 where
  pub others : ℕ → Slot → Slot
  pub conflicts : ℕ → Bool
  pub fails : ℕ → Bool
  pub sort : Sort
  pub characters : Text → List ℕ
  pub text_of : List ℕ → Text
  pub offers : ℕ → List Text → CallOffer
  pub dials : ℕ → Text → Option Text
  pub conference_sid : ℕ → Option Text
  pub holds : ℕ → Bool → Option Bool
  pub metadata : ℕ → Text → Option LegMetadata
  pub now : ℕ → Text

-- The number of the next step, the store, and the effects so far, the latest first.
pub record World : Type 0 where
  pub step : ℕ
  pub slot : Slot
  pub trace : List Effect

pub data Result (A : Type 0) : Type 0 where
  done : A → Result A
  thrown : Result A

abbrev pub Act : Type 0 → Type 0
Act A = World → Result A × World

module _ {A : Type 0} where
  unfoldable pub pure : A → Act A
  pure a w = (done a, w)

  pub throw : Act A
  throw w = (thrown, w)

module _ {A B : Type 0} where
  abbrev pub continue : Result A → (A → Act B) → Act B
  continue (done a) f w = f a w
  continue thrown f w = (thrown, w)

  infixl 10 ◌>>=◌ ◌>>◌
  unfoldable pub ◌>>=◌ : Act A → (A → Act B) → Act B
  unfolding pure throw
  ◌>>=◌ m f w = let (r, w') = m w in continue r f w'

  abbrev pub ◌>>◌ : Act A → Act B → Act B
  m >> n = m >>= λ _. n

module _ {A : Type 0} where
  abbrev pub handle_thrown : Result A → Act A → Act A
  handle_thrown (done a) h w = (done a, w)
  handle_thrown thrown h w = h w

  -- `try { … } catch { … }`
  unfoldable pub catch : Act A → Act A → Act A
  catch m h w = let (r, w') = m w in handle_thrown r h w'

  abbrev pub after_finally : Result A → Result (Unit {0}) × World → Result A × World
  after_finally r (done u, w) = (r, w)
  after_finally r (thrown, w) = (thrown, w)

  -- `try { … } finally { … }`, where what is done last may look at the result.
  unfoldable pub finally : Act A → (Result A → Act (Unit {0})) → Act A
  finally m f w = let (r, w') = m w in after_finally r (f r w')

-- What nobody waits for the success of: `try { … } catch { log }`.
abbrev pub tolerate : Act (Unit {0}) → Act (Unit {0})
tolerate m = catch m (pure tt)

-- The store as the change of `before` leaves it.
abbrev pub slot_after : Slot → CallState → Option CallState → Slot
slot_after slot before none = record { stored = none; live = false }
slot_after slot before (some after) = record slot { stored = some after }

module _ (o : Outside) where
  -- The store as the step finds it.
  abbrev pub found : World → Slot
  found w = o.others w.step w.slot

  abbrev pub past : World → World
  past w = record w { step = suc w.step; slot = found w }

  -- `getCallState`
  unfoldable pub get_call : Act (Option CallState)
  get_call w = (done (found w).stored, past w)

  -- `getLegMetadata`
  unfoldable pub get_leg : Text → Act (Option LegMetadata)
  get_leg leg w = (done (o.metadata w.step leg), record w { step = suc w.step })

  -- The time, as a text and as the step that asks for it.
  unfoldable pub ask_now : Act Text
  ask_now w = (done (o.now w.step), record w { step = suc w.step })

  -- An effect that may throw in place of taking place.
  unfoldable pub emit : Effect → Act (Unit {0})
  emit e w =
      if o.fails w.step
      then (thrown, record w { step = suc w.step })
      else (done tt, record w { step = suc w.step; trace = e ∷ w.trace })

  -- `safeHangup`, which never throws.
  unfoldable pub hang_up : Text → Act (Unit {0})
  hang_up leg w = (done tt, record w { step = suc w.step; trace = hangs_up leg ∷ w.trace })

  -- `Promise.all` over hangups, in the order of the legs.
  unfoldable pub hang_up_all : List Text → Act (Unit {0})
  hang_up_all [] = pure tt
  hang_up_all (leg ∷ legs) = hang_up leg >> hang_up_all legs

  -- `letGo`
  unfoldable pub let_go : List Text → Act (Unit {0})
  let_go [] = pure tt
  let_go (u ∷ users) = tolerate (emit (lets_go (u ∷ users)))

  abbrev pub update_of :
      {R : Type 0} → CallState → CallStateChange R → Option CallState → CallStateUpdate R
  update_of before change after = record { result = change.result; before = before; after = after }

  abbrev pub update_found :
      {R : Type 0}
      → (CallState → CallStateChange R)
      → Option CallState
      → Act (Option (CallStateUpdate R))
  update_found decide none w = (done none, past w)
  update_found decide (some before) w =
      let change = decide before in
      let after = state_after before change in
      (
        done (some (update_of before change after)),
        record (past w) { slot = slot_after (found w) before after },
      )

  -- `updateCallState`, which is one change at the moment that it lands, or none.
  unfoldable pub update_call :
      {R : Type 0} → (CallState → CallStateChange R) → Act (Option (CallStateUpdate R))
  unfolding state_after
  update_call decide w =
      if o.conflicts w.step then (thrown, past w) else update_found decide (found w).stored w

  -- The users that an update lets go: none, when it left the state as it was.
  abbrev pub let_go_by : {R : Type 0} → CallState → CallStateChange R → List Text
  let_go_by before change =
      if is_unchanged before change then [] else users_let_go before (after_change before change)

  abbrev pub let_go_after :
      {R : Type 0}
      → (CallState → CallStateChange R)
      → Option (CallStateUpdate R)
      → Act (Option (CallStateUpdate R))
  let_go_after decide none = pure none
  let_go_after decide (some update) =
      let_go (let_go_by update.before (decide update.before)) >> pure (some update)

  -- `changeCall`
  unfoldable pub change_call :
      {R : Type 0} → (CallState → CallStateChange R) → Act (Option (CallStateUpdate R))
  unfolding update_call let_go is_unchanged
  change_call decide = update_call decide >>= let_go_after decide
