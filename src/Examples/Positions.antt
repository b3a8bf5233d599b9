-- ===== src/Examples/Positions.antt =====
-- Collecting what a position is owed, and closing it.
use elysium_dex.Base.{◌≡◌, ◌↔◌, refl, arith, true, some, fill, ◌==◌, if◌then◌else◌}
use elysium_dex.Base.Int.{pos, negsuc}
use elysium_dex.Errors.{close_position_not_empty}
use elysium_dex.State.RewardInfo.{ElysiumPoolRewardInfo}
use elysium_dex.State.Position.{Position, PositionRewardInfo, reset_fees_owed, update_reward_owed}
use elysium_dex.Util.Authority.{validate_owner, verify_position_authority}
use elysium_dex.Util.Authority.Verify.{Outcomes, verify_position_authority-Outcomes}
use elysium_dex.Instructions.Outcome.{done, failed, program_error}
use elysium_dex.Instructions.Runtime.{transfer_from_vault_to_owner}
use elysium_dex.Instructions.Transfers.{Exchanges}
use elysium_dex.Instructions.Liquidity.{holds_position}
use elysium_dex.Instructions.Collect.{
  CollectFees, CollectReward, calculate_collect_reward, collect_fees_constraints,
  collect_fees_handler, reward_position_constraints, reward_token_constraints,
  collect_reward_handler,
}
use elysium_dex.Instructions.Collect.Payout.{
  PaysReward, collect_reward_handler-Pays, collect_fees_handler-Pays,
}
use elysium_dex.Instructions.Positions.{
  ClosePosition, close_position_constraints, close_position_handler,
}
use elysium_dex.Instructions.Positions.Closing.{IsEmpty, MayClose, collect_fees-close_position}
use elysium_dex.Instructions.Positions.Finishing.{
  HoldsPosition, BurnsAndCloses, close_position_handler_iff,
}
use elysium_dex.Instructions.Signed.{IsHolder}
use elysium_dex.Program as Program
use elysium_dex.Program.{execute}
use elysium_dex.Program.Authorities.{execute-IsAuthorized}
use elysium_dex.Examples.Trades.{
  Ledger, token_program, token_program-IsTransfer, move_tokens, moved, holdings, owner, pool,
}

-- The account 65 holds the position's token.
abbrev wallet : Ledger
wallet k = if k == 65 then record (holdings k) { mint = 99; amount = 1 } else holdings k

abbrev position : Position
position = record {
  pool = 30;
  position_mint = 99;
  liquidity = 0;
  tick_lower_index = negsuc 7;
  tick_upper_index = pos 8;
  fee_growth_checkpoint_a = 0;
  fee_owed_a = 7;
  fee_growth_checkpoint_b = 0;
  fee_owed_b = 9;
  reward_infos = fill (record { growth_inside_checkpoint = 0; amount_owed = 0 });
}

abbrev collect : CollectFees
collect = record {
  pool = record { key = 30; content = pool };
  position = position;
  position_authority = owner;
  position_token_account = 65;
  token_owner_account_a = 61;
  token_vault_a = 11;
  token_owner_account_b = 62;
  token_vault_b = 21;
}

abbrev collected : Ledger × Position
collected =
    (moved (moved wallet 11 61 7) 21 62 9, record position { fee_owed_a = 0; fee_owed_b = 0 })

collect_runs : collect_fees_handler token_program wallet collect ≡ done collected
unfolding collect_fees_handler collect_fees_constraints holds_position verify_position_authority
    validate_owner transfer_from_vault_to_owner move_tokens reset_fees_owed
collect_runs = refl

collect_fees_handler-Pays_example :
    (11 ≡ pool.token_vault_a)
    × (21 ≡ pool.token_vault_b)
    × Exchanges token_program wallet collected.0 11 61 21 62 7 9
    × (collected.1 ≡ record position { fee_owed_a = 0; fee_owed_b = 0 })
collect_fees_handler-Pays_example =
    collect_fees_handler-Pays token_program token_program-IsTransfer wallet collect collected
      (ground arith) collect_runs

execute-IsAuthorized_example : IsHolder token_program wallet owner 65 99
unfolding execute
execute-IsAuthorized_example =
    execute-IsAuthorized token_program 0 wallet (pos 0) (Program.collect_fees collect) collected
      collect_runs

verify_position_authority-Outcomes_example :
    Outcomes (record (wallet 65) { delegate = some 2 }) (record { key = 2; is_signer = true })
verify_position_authority-Outcomes_example =
    verify_position_authority-Outcomes (record (wallet 65) { delegate = some 2 })
      (record { key = 2; is_signer = true })

abbrev close : ClosePosition
close = record {
  position_authority = owner;
  receiver = 1;
  position = record { key = 50; content = collected.1 };
  position_mint = 99;
  position_token_account = 65;
}

closer : MayClose token_program collected.0 close
unfolding close_position_constraints holds_position verify_position_authority validate_owner
closer = (refl, refl)

abbrev burnt : Ledger
burnt k = if k == 65 then record (collected.0 k) { amount = 0 } else collected.0 k

collect_fees-close_position_example :
    close_position_handler token_program collected.0 close ≡ done burnt
collect_fees-close_position_example =
    collect_fees-close_position token_program token_program-IsTransfer wallet collect collected
      close burnt burnt (ground arith) refl (refl, refl, refl) collect_runs refl closer refl refl

close_position_handler_iff_example :
    ((close_position_handler token_program collected.0 close ≡ done burnt) ↔ (
      HoldsPosition token_program collected.0 close
      × IsEmpty close.position.content
      × BurnsAndCloses token_program collected.0 close burnt))
    × ((close_position_handler token_program collected.0 close
          ≡ failed (program_error close_position_not_empty))
        ↔ (HoldsPosition token_program collected.0 close × (IsEmpty close.position.content → ⊥)))
close_position_handler_iff_example =
    close_position_handler_iff token_program collected.0 burnt close

abbrev reward : ElysiumPoolRewardInfo
reward = record {
  mint = 5;
  vault = 90;
  authority = 3;
  emissions_per_second_x64 = 0;
  growth_global_x64 = 0;
}

abbrev owed : PositionRewardInfo
owed = record { growth_inside_checkpoint = 0; amount_owed = 6000 }

abbrev collect_reward : CollectReward
collect_reward = record {
  pool = record {
    key = 30;
    content = record pool { reward_infos = record pool.reward_infos { at_0 = reward } };
  };
  position = record position { reward_infos = record position.reward_infos { at_0 = owed } };
  position_authority = owner;
  position_token_account = 65;
  reward_owner_account = 63;
  reward_vault = 90;
}

-- The vault holds 5000 of the 6000.
abbrev rewarded : Ledger × Position
rewarded = (
  moved wallet 90 63 5000,
  record position {
    reward_infos = record position.reward_infos { at_0 = record owed { amount_owed = 1000 } };
  },
)

collect_reward_runs : collect_reward_handler token_program wallet collect_reward 0 ≡ done rewarded
unfolding collect_reward_handler reward_position_constraints reward_token_constraints holds_position
    verify_position_authority validate_owner transfer_from_vault_to_owner move_tokens
    update_reward_owed calculate_collect_reward
collect_reward_runs = refl

collect_reward_handler-Pays_example : PaysReward token_program wallet collect_reward 0 rewarded
collect_reward_handler-Pays_example =
    collect_reward_handler-Pays token_program token_program-IsTransfer wallet collect_reward 0
      rewarded (ground arith) collect_reward_runs
