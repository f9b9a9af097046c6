-- ===== src/Netcode/Replay.antt =====
-- client_prediction.cpp and reconciliation.cpp: what is left unacknowledged is what must be replayed.
use working_for_codex.Base.{
  ℕ, ◌+◌, ◌<◌, ◌≤◌, ◌≡◌, refl, ap, sym, ◌∙◌, true, false, List, [], ◌∷◌, ◌++◌, Each, ltb, leb,
  length, arith, append_assoc, append-nil, length-append, Bool-cases, inl, inr,
}
use working_for_codex.Base.Real.{Real}
use working_for_codex.Game.Player.{PlayerState}
use working_for_codex.Packet.Types.{InputCommand}
use working_for_codex.Netcode.Prediction.{
  ClientPrediction, push_bounded, new_prediction, drop_inputs, acknowledge_up_to, inputs_after,
  get_unacknowledged_inputs, simulate_input, predict, resimulate,
}

abbrev pub AllAbove : ℕ → List InputCommand → Type 0
AllAbove n is = Each (λ (i : InputCommand). n < i.sequence) is

-- The sequence numbers go up.
abbrev pub Ascending : List InputCommand → Type 0
Ascending [] = Unit
Ascending (i ∷ is) = AllAbove i.sequence is × Ascending is

AllAbove-weaken : (m n : ℕ) (is : List InputCommand) → m ≤ n → AllAbove n is → AllAbove m is
AllAbove-weaken m n [] le v = tt
AllAbove-weaken m n (i ∷ is) le v = (omega (arith, v.0), AllAbove-weaken m n is le v.1)

inputs_after-AllAbove : (n : ℕ) (is : List InputCommand) → AllAbove n is → inputs_after n is ≡ is
unfolding inputs_after
inputs_after-AllAbove n [] v = refl
inputs_after-AllAbove n (i ∷ is) v =
    let e : ltb n i.sequence ≡ true = ground (arith, v.0) in
    rw e (ap (λ l. i ∷ l) (inputs_after-AllAbove n is v.1))

drop_inputs-inputs_after :
    (n : ℕ) (is : List InputCommand) → Ascending is → drop_inputs n is ≡ inputs_after n is
unfolding drop_inputs inputs_after
drop_inputs-inputs_after n [] v = refl
drop_inputs-inputs_after n (i ∷ is) v = elim (Bool-cases (leb i.sequence n)) [
  | inl e ↦
      let f : ltb n i.sequence ≡ false = ground (arith, e) in
      rw (e, f) (drop_inputs-inputs_after n is v.1)
  | inr e ↦
      let f : ltb n i.sequence ≡ true = ground (arith, e) in
      rw (e, f)
        (ap (λ l. i ∷ l)
          (sym
            (inputs_after-AllAbove n is (AllAbove-weaken n i.sequence is (ground (arith, e)) v.0))))
]

-- When the sequence numbers of the history go up, an acknowledgement, which drops inputs from the
-- front up to the first newer one, leaves exactly the inputs that GetUnacknowledgedInputs picks out of
-- the whole history.
pub acknowledge_up_to-get_unacknowledged_inputs {ℓ} :
    {D : Type ℓ} (n : ℕ) (c : ClientPrediction D)
    → Ascending c.input_history
    → (acknowledge_up_to n c).input_history ≡ get_unacknowledged_inputs n c
unfolding acknowledge_up_to get_unacknowledged_inputs
acknowledge_up_to-get_unacknowledged_inputs n c v = drop_inputs-inputs_after n c.input_history v

push_few :
    (x : InputCommand) (xs : List InputCommand) → length xs < 128 → push_bounded x xs ≡ xs ++ x ∷ []
unfolding push_bounded
push_few x xs few = ground (arith, length-append xs (x ∷ []))

abbrev pub AllUpTo : ℕ → List InputCommand → Type 0
AllUpTo n is = Each (λ (i : InputCommand). i.sequence ≤ n) is

inputs_after-append :
    (n : ℕ) (xs ys : List InputCommand)
    → AllUpTo n xs
    → AllAbove n ys
    → inputs_after n (xs ++ ys) ≡ ys
unfolding inputs_after
inputs_after-append n [] ys v w = inputs_after-AllAbove n ys w
inputs_after-append n (x ∷ xs) ys v w =
    let e : ltb n x.sequence ≡ false = ground (arith, v.0) in
    rw e (inputs_after-append n xs ys v.1 w)

module _ {ℓ} {D : Type ℓ} ⦃r : Real D⦄ where
  -- A client that predicts one input after the other, each from the state predicted before.
  unfoldable pub predict_all :
      ℕ
      → D
      → PlayerState D
      → List InputCommand
      → ClientPrediction D
      → PlayerState D × ClientPrediction D
  unfolding predict
  predict_all now delta_time state [] c = (state, c)
  predict_all now delta_time state (i ∷ is) c =
      let (p, next) = predict now state i delta_time c in predict_all now delta_time p.state is next

  predict_all-resimulate :
      (now : ℕ) (delta_time : D) (state : PlayerState D) (is : List InputCommand)
      (c : ClientPrediction D)
      → (predict_all now delta_time state is c).0 ≡ resimulate delta_time state is
  unfolding predict_all predict resimulate
  predict_all-resimulate now delta_time state [] c = refl
  predict_all-resimulate now delta_time state (i ∷ is) c =
      predict_all-resimulate now delta_time (simulate_input delta_time state i) is _

  predict_all-history :
      (now : ℕ) (delta_time : D) (state : PlayerState D) (is : List InputCommand)
      (c : ClientPrediction D)
      → length c.input_history + length is ≤ 128
      → (predict_all now delta_time state is c).1.input_history ≡ c.input_history ++ is
  unfolding predict_all predict
  predict_all-history now delta_time state [] c few = sym (append-nil c.input_history)
  predict_all-history now delta_time state (i ∷ is) c few =
      let pushed = push_few i c.input_history (omega (arith, few)) in
      predict_all-history now delta_time (simulate_input delta_time state i) is
        (record c { input_history = push_bounded i c.input_history })
        (omega (arith, few, ap length pushed, length-append c.input_history (i ∷ [])))
      ∙ ap (λ l. l ++ is) pushed
      ∙ append_assoc c.input_history (i ∷ []) is

  resimulate-append :
      (delta_time : D) (state : PlayerState D) (xs ys : List InputCommand)
      → resimulate delta_time state (xs ++ ys)
        ≡ resimulate delta_time (resimulate delta_time state xs) ys
  unfolding resimulate
  resimulate-append delta_time state [] ys = refl
  resimulate-append delta_time state (x ∷ xs) ys =
      resimulate-append delta_time (simulate_input delta_time state x) xs ys

  -- A client that has predicted at most 128 inputs from some state, of which the server has applied
  -- the first ones in the same way, those up to its sequence number: replaying the inputs that are not
  -- acknowledged on the server's state gives the very state that the client has predicted.
  pub resimulate-predict_all :
      (now : ℕ) (delta_time : D) (state : PlayerState D) (n : ℕ) (applied ahead : List InputCommand)
      → AllUpTo n applied
      → AllAbove n ahead
      → length (applied ++ ahead) ≤ 128
      → let client = predict_all now delta_time state (applied ++ ahead) new_prediction in
        resimulate delta_time
          (resimulate delta_time state applied)
          (get_unacknowledged_inputs n client.1)
        ≡ client.0
  unfolding get_unacknowledged_inputs new_prediction
  resimulate-predict_all now delta_time state n applied ahead v w few =
      let history =
        predict_all-history now delta_time state (applied ++ ahead) new_prediction
          (omega (arith, few)) in
      ap (λ h. resimulate delta_time (resimulate delta_time state applied) (inputs_after n h))
        history
      ∙ ap (resimulate delta_time (resimulate delta_time state applied))
          (inputs_after-append n applied ahead v w)
      ∙ sym (resimulate-append delta_time state applied ahead)
      ∙ sym (predict_all-resimulate now delta_time state (applied ++ ahead) new_prediction)
