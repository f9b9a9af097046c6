-- ===== src/Netcode/Prediction.antt =====
-- client_prediction.h, client_prediction.cpp, reconciliation.h and reconciliation.cpp. The clock is an
-- argument.
use working_for_codex.Base.{
  ℕ, ◌+◌, ◌-◌, ◌%◌, ◌^◌, Bool, true, false, List, [], ◌∷◌, ◌++◌, Option, none, some, if◌then◌else◌,
  ltb, leb, nat_beq, length, drop,
}
use working_for_codex.Base.Real.{Real, narrow, float_add, float_mul, float_div, of_nat}
use working_for_codex.Game.Player.{PlayerState}
use working_for_codex.Packet.Types.{InputCommand}

pub record PredictedState {ℓ} (D : Type ℓ) : Type ℓ where
  pub input_sequence : ℕ
  pub state : PlayerState D
  pub timestamp : ℕ

-- The members of ClientPrediction, with the two counters of its `Stats`.
pub record ClientPrediction {ℓ} (D : Type ℓ) : Type ℓ where
  pub predictions : List (PredictedState D)
  pub input_history : List InputCommand
  pub last_acknowledged : ℕ
  pub total_predictions : ℕ
  pub accurate_predictions : ℕ

abbrev pub max_pending_inputs : ℕ
max_pending_inputs = 128

-- `push_back`, and `pop_front` of one that is too many.
unfoldable pub push_bounded {ℓ} : {A : Type ℓ} → A → List A → List A
push_bounded x xs =
    let pushed = xs ++ x ∷ [] in
    if ltb max_pending_inputs (length pushed) then drop 1 pushed else pushed

module _ {ℓ} {D : Type ℓ} where
  unfoldable pub new_prediction : ClientPrediction D
  new_prediction = record {
    predictions = [];
    input_history = [];
    last_acknowledged = 0;
    total_predictions = 0;
    accurate_predictions = 0;
  }

  unfoldable pub save_prediction : PredictedState D → ClientPrediction D → ClientPrediction D
  unfolding push_bounded
  save_prediction p c = record c {
    predictions = push_bounded p c.predictions;
    total_predictions = (c.total_predictions + 1) % 2 ^ 64;
  }

  -- The loops of `AcknowledgeUpTo`, which stop at the first one that is newer.
  unfoldable pub drop_predictions : ℕ → List (PredictedState D) → List (PredictedState D)
  drop_predictions n [] = []
  drop_predictions n (p ∷ ps) = if leb p.input_sequence n then drop_predictions n ps else p ∷ ps

  unfoldable pub get_latest_prediction : ClientPrediction D → Option (PredictedState D)
  get_latest_prediction c = last c.predictions
    where
      last : List (PredictedState D) → Option (PredictedState D)
      last [] = none
      last (p ∷ []) = some p
      last (p ∷ q ∷ ps) = last (q ∷ ps)

  unfoldable pub prediction_of : ℕ → List (PredictedState D) → Option (PredictedState D)
  prediction_of n [] = none
  prediction_of n (p ∷ ps) = if nat_beq p.input_sequence n then some p else prediction_of n ps

  unfoldable pub get_prediction : ℕ → ClientPrediction D → Option (PredictedState D)
  unfolding prediction_of
  get_prediction n c = prediction_of n c.predictions

  unfoldable pub record_prediction_result : Bool → ClientPrediction D → ClientPrediction D
  record_prediction_result accurate c =
      if accurate
      then record c { accurate_predictions = (c.accurate_predictions + 1) % 2 ^ 64 }
      else c

unfoldable pub drop_inputs : ℕ → List InputCommand → List InputCommand
drop_inputs n [] = []
drop_inputs n (i ∷ is) = if leb i.sequence n then drop_inputs n is else i ∷ is

unfoldable pub acknowledge_up_to {ℓ} : {D : Type ℓ} → ℕ → ClientPrediction D → ClientPrediction D
unfolding drop_predictions drop_inputs
acknowledge_up_to n c = record c {
  last_acknowledged = n;
  predictions = drop_predictions n c.predictions;
  input_history = drop_inputs n c.input_history;
}

unfoldable pub inputs_after : ℕ → List InputCommand → List InputCommand
inputs_after n [] = []
inputs_after n (i ∷ is) =
    let rest = inputs_after n is in if ltb n i.sequence then i ∷ rest else rest

unfoldable pub get_unacknowledged_inputs {ℓ} :
    {D : Type ℓ} → ℕ → ClientPrediction D → List InputCommand
unfolding inputs_after
get_unacknowledged_inputs n c = inputs_after n c.input_history

-- `Reconciliation::Stats`.
pub record Stats {ℓ} (D : Type ℓ) : Type ℓ where
  pub total_reconciliations : ℕ
  pub mismatches : ℕ
  pub avg_position_error : D

pub record ReconciliationResult {ℓ} (D : Type ℓ) : Type ℓ where
  pub mismatch_detected : Bool
  pub position_error : D
  pub velocity_error : D
  pub corrected_state : PlayerState D

module _ {ℓ} {D : Type ℓ} ⦃r : Real D⦄ where
  -- `SimulateInput`, the same in both files; SPEED is 5. The fields of the input are floats, and the
  -- coordinates doubles.
  unfoldable pub simulate_input : D → PlayerState D → InputCommand → PlayerState D
  unfolding narrow
  simulate_input delta_time state input =
      let way : ℕ → D = λ move. float_mul (float_mul (r.of_bits move) (of_nat 5)) delta_time in
      record state {
        x = r.add state.x (way input.move_x);
        y = r.add state.y (way input.move_y);
        facing_radians = r.of_bits input.aim_radians;
        last_sequence = input.sequence;
      }

  unfoldable pub predict :
      ℕ
      → PlayerState D
      → InputCommand
      → D
      → ClientPrediction D
      → PredictedState D × ClientPrediction D
  unfolding simulate_input push_bounded
  predict now current input delta_time c = (
    record {
      input_sequence = input.sequence;
      state = simulate_input delta_time current input;
      timestamp = now;
    },
    record c { input_history = push_bounded input c.input_history },
  )

  unfoldable pub resimulate : D → PlayerState D → List InputCommand → PlayerState D
  unfolding simulate_input
  resimulate delta_time state [] = state
  resimulate delta_time state (i ∷ is) =
      resimulate delta_time (simulate_input delta_time state i) is

  unfoldable pub position_error : PlayerState D → PlayerState D → D
  unfolding narrow
  position_error a b =
      let dx = narrow (r.sub a.x b.x) in
      let dy = narrow (r.sub a.y b.y) in
      narrow (r.sqrt (float_add (float_mul dx dx) (float_mul dy dy)))

  -- The running average, once the total has been counted up.
  abbrev pub averaged : D → Stats D → Stats D
  averaged error s = record s {
    avg_position_error =
        float_div
          (float_add
            (float_mul s.avg_position_error (narrow (of_nat (s.total_reconciliations - 1)))) error)
          (narrow (of_nat s.total_reconciliations));
  }

  abbrev pub settled :
      D
      → D
      → PlayerState D
      → ℕ
      → PredictedState D
      → ClientPrediction D
      → Stats D
      → ReconciliationResult D × ClientPrediction D × Stats D
  settled delta_time error server_state n p c s =
      if r.less (narrow (r.ratio 1 10)) error
      then (
        record {
          mismatch_detected = true;
          position_error = error;
          velocity_error = of_nat 0;
          corrected_state = resimulate delta_time server_state (get_unacknowledged_inputs n c);
        },
        acknowledge_up_to n (record_prediction_result false c),
        averaged error (record s { mismatches = (s.mismatches + 1) % 2 ^ 64 }),
      )
      else (
        record {
          mismatch_detected = false;
          position_error = error;
          velocity_error = of_nat 0;
          corrected_state = p.state;
        },
        acknowledge_up_to n (record_prediction_result true c),
        averaged error s,
      )

  abbrev pub reconcile_with :
      D
      → PlayerState D
      → ℕ
      → Option (PredictedState D)
      → ClientPrediction D
      → Stats D
      → ReconciliationResult D × ClientPrediction D × Stats D
  reconcile_with delta_time server_state n none c s = (
    record {
      mismatch_detected = false;
      position_error = of_nat 0;
      velocity_error = of_nat 0;
      corrected_state = server_state;
    },
    c,
    s,
  )
  reconcile_with delta_time server_state n (some p) c s =
      settled delta_time (position_error server_state p.state) server_state n p c s

  unfoldable pub reconcile :
      PlayerState D
      → ℕ
      → D
      → ClientPrediction D
      → Stats D
      → ReconciliationResult D × ClientPrediction D × Stats D
  unfolding get_prediction
  reconcile server_state n delta_time c s =
      reconcile_with delta_time server_state n (get_prediction n c) c
        (record s { total_reconciliations = (s.total_reconciliations + 1) % 2 ^ 64 })
