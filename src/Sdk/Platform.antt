-- ===== src/Sdk/Platform.antt =====
-- The instructions on the platform and on tallies (ts-sdk/src/instructions.ts).
use mootvote.Base.{ℕ, [], ◌∷◌, Option, some, true, false}
use mootvote.VoteData.{◌>>=◌}
use mootvote.Sdk.{Key, number, key, one, InstructionWithCu, Chain, platform_config}

module _ (chain : Chain) where
  unfoldable pub initialize : Key → Key → ℕ → Key → Option InstructionWithCu
  initialize payer admin fee fee_destination = do
    platform ← platform_config chain
    some (record {
      instruction = record {
        program = chain.program_id;
        method = "initialize";
        args = key admin ∷ number fee ∷ key fee_destination ∷ [];
        strict = false;
        accounts = one "payer" payer ∷ one "platformConfig" platform ∷ [];
        remaining_accounts = [];
      };
      cu_limit = 200000;
    })

  unfoldable pub update_config : Key → Key → ℕ → Key → Option InstructionWithCu
  update_config old_admin new_admin fee fee_destination = do
    platform ← platform_config chain
    some (record {
      instruction = record {
        program = chain.program_id;
        method = "updateConfig";
        args = key new_admin ∷ number fee ∷ key fee_destination ∷ [];
        strict = true;
        accounts = one "admin" old_admin ∷ one "platformConfig" platform ∷ [];
        remaining_accounts = [];
      };
      cu_limit = 200000;
    })
