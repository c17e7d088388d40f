-- ===== src/Hunt/Examples.antt =====
-- A hunt, and the theorem at it.
use wyrtloom.Base.{◌≡◌, refl, [], ◌∷◌, some, none}
use wyrtloom.F64.Sample.{hundredths}
use wyrtloom.Hunt.{
  HuntTest, HuntHarness, new_harness, default_limits, Sandbox, output, stopped, timeout, run,
  survived, escalate, has_survived, least, least_from, pitch_for, sharper_angle,
}
use wyrtloom.Hunt.Fair.{Fair, run-Fair}

abbrev test : HuntTest
test = record {
  id = "t1";
  author = "ada";
  task = 5;
  module_wasm = 1 ∷ [];
  exercises = "auth" ∷ "cache" ∷ [];
}

abbrev harness : HuntHarness
unfolding new_harness default_limits
harness = new_harness ("auth" ∷ [])

-- The agent's output is the sandbox's, and no output is a time-out.
abbrev echo : Sandbox
echo code [] limits = stopped timeout
echo code (b ∷ input) limits = output (b ∷ input)

run-Fair_example :
    Fair harness test "auth"
      (echo (1 ∷ []) (0 ∷ []) harness.limits)
      (run echo harness test (0 ∷ []))
run-Fair_example = run-Fair echo harness test (0 ∷ []) "auth"

second_rung :
    escalate hundredths
      (λ author c. 80)
      test
      (record { verdict = survived; credited = []; defect = none })
      1
      3
    ≡ some (record { ladder_depth = 2; pitch = sharper_angle })
unfolding escalate has_survived least least_from pitch_for
second_rung = refl
