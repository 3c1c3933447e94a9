-- ===== src/Tests/Races.antt =====
-- Two sessions and the waiting deposit of the small database.
use buddy_bet_v.Prelude.{◌≡◌, refl, arith, some}
use buddy_bet_v.Prelude.Int.{◌+ℤ◌}
use buddy_bet_v.Exec.{ok}
use buddy_bet_v.Deposits.{complete_deposit, completed}
use buddy_bet_v.Settlement.Sound.{total_funds}
use buddy_bet_v.Escrow.Races.{complete_after_read, complete_deposit-returns, complete_deposit-raced}
use buddy_bet_v.Tests.Data.{demo, units, deposit_one, wallet_2}
use buddy_bet_v.Tests.Data.Facts.{demo-IsConsistent}

complete_deposit-returns_example :
    let out = complete_deposit 40 (some "ref") 7 demo in
    (out.0 ≡ ok (completed (some "ref") 7 deposit_one))
    × (total_funds out.1 ≡ total_funds demo +ℤ units 70)
complete_deposit-returns_example =
    complete_deposit-returns 40 deposit_one wallet_2 (some "ref") 7 demo demo-IsConsistent refl refl
      (ground arith) refl refl

complete_deposit-raced_example :
    let one = complete_deposit 40 (some "ref") 7 demo in
    let two = complete_after_read deposit_one (some "ref") 8 one.1 in
    (one.0 ≡ ok (completed (some "ref") 7 deposit_one))
    × (two.0 ≡ ok (completed (some "ref") 8 deposit_one))
    × (total_funds two.1 ≡ (total_funds demo +ℤ units 70) +ℤ units 70)
complete_deposit-raced_example =
    complete_deposit-raced 40 deposit_one wallet_2 (some "ref") "ref" 7 8 demo demo-IsConsistent
      refl refl (ground arith) refl refl refl
