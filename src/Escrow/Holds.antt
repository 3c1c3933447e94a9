-- ===== src/Escrow/Holds.antt =====
-- What is held changes as the rows of the bets and of the withdrawals do.
use buddy_bet_v.Prelude.{ℕ-eq, ◌≡◌, refl, ap, some, Bool, true, false, ◌==◌, if◌then◌else◌}
use buddy_bet_v.Prelude.Int.{ℤ, pos, pos_part, neg_part, ◌+ℤ◌, ◌-ℤ◌, int_laws}
use buddy_bet_v.Table.{total, total-update}
use buddy_bet_v.Money.{Decimal}
use buddy_bet_v.Models.{Uuid, Bet, WithdrawalRequest, Database}
use buddy_bet_v.Models.Enums.{BetStatus, FootballOutcome}
use buddy_bet_v.Models.Statuses.{is_hold_state}
use buddy_bet_v.Bets.{bet_id_of, bet_of, set_bet}
use buddy_bet_v.Bets.Service.{matched_bet, cancelled_bet}
use buddy_bet_v.Withdrawals.{withdrawal_id_of, withdrawal_of, set_withdrawal}
use buddy_bet_v.Escrow.{bet_hold, request_hold, held}

abbrev pub at : Uuid → Uuid → Decimal → Decimal
at j user amount = if j == user then amount else pos 0

moved_first :
    (sum' sum other term term' change : ℤ)
    → sum' +ℤ term ≡ sum +ℤ term'
    → term' ≡ term +ℤ change
    → sum' +ℤ other ≡ (sum +ℤ other) +ℤ change
moved_first sum' sum other term term' change e k =
    omega (int_laws, ap pos_part e, ap neg_part e, ap pos_part k, ap neg_part k)

moved_second :
    (sum' sum other term term' change : ℤ)
    → sum' +ℤ term ≡ sum +ℤ term'
    → term' ≡ term +ℤ change
    → other +ℤ sum' ≡ (other +ℤ sum) +ℤ change
moved_second sum' sum other term term' change e k =
    omega (int_laws, ap pos_part e, ap neg_part e, ap pos_part k, ap neg_part k)

module _ (j : Uuid) (db : Database) (change : Decimal) where
  pub held-set_bet :
      (bet bet' : Bet)
      → bet_of bet'.id db ≡ some bet
      → bet_hold j bet' ≡ bet_hold j bet +ℤ change
      → held j (set_bet bet' db) ≡ held j db +ℤ change
  held-set_bet bet bet' found e =
      moved_first _ _ (total (request_hold j) db.withdrawal_requests) (bet_hold j bet)
        (bet_hold j bet') change
        (total-update bet_id_of (bet_hold j) bet'.id (λ _. bet') bet db.bets found) e

  pub held-set_withdrawal :
      (w w' : WithdrawalRequest)
      → withdrawal_of w'.id db ≡ some w
      → request_hold j w' ≡ request_hold j w +ℤ change
      → held j (set_withdrawal w' db) ≡ held j db +ℤ change
  held-set_withdrawal w w' found e =
      moved_second _ _ (total (bet_hold j) db.bets) (request_hold j w) (request_hold j w') change
        (total-update withdrawal_id_of (request_hold j) w'.id (λ _. w') w db.withdrawal_requests
          found)
        e

-- The hold of one more party, and of a party who leaves.
joins : (x y : ℤ) → x +ℤ y ≡ (x +ℤ pos 0) +ℤ y
joins x y = omega int_laws

leaves :
    (b : Bool) (s : ℤ)
    → pos 0 +ℤ pos 0 ≡ ((if b then s else pos 0) +ℤ pos 0) +ℤ (if b then pos 0 -ℤ s else pos 0)
leaves true s = omega int_laws
leaves false s = omega int_laws

hold_ends :
    (b : Bool) (s : ℤ) → pos 0 ≡ (if b then s else pos 0) +ℤ (if b then pos 0 -ℤ s else pos 0)
hold_ends true s = omega int_laws
hold_ends false s = omega int_laws

module _ (j : Uuid) (bet : Bet) where
  pub bet_hold-matched :
      (opponent : Uuid) (prediction : FootballOutcome)
      → bet.status ≡ BetStatus.open_bet
      → bet_hold j (matched_bet opponent prediction bet)
        ≡ bet_hold j bet +ℤ at j opponent bet.stake_amount
  bet_hold-matched opponent prediction is_open = rw is_open (joins _ _)

  pub bet_hold-cancelled :
      bet.status ≡ BetStatus.open_bet
      → bet_hold j (cancelled_bet bet)
        ≡ bet_hold j bet +ℤ at j bet.creator_id (pos 0 -ℤ bet.stake_amount)
  bet_hold-cancelled is_open = rw is_open (leaves (j == bet.creator_id) bet.stake_amount)

module _ (j : Uuid) (w w' : WithdrawalRequest) (user : w'.user_id ≡ w.user_id)
    (amount : w'.amount ≡ w.amount) (held_before : is_hold_state w.status ≡ true) where
  pub request_hold-kept : is_hold_state w'.status ≡ true → request_hold j w' ≡ request_hold j w
  request_hold-kept is_held = rw (held_before, is_held, user, amount) refl

  pub request_hold-released :
      is_hold_state w'.status ≡ false
      → request_hold j w' ≡ request_hold j w +ℤ at j w.user_id (pos 0 -ℤ w.amount)
  request_hold-released is_over = rw (held_before, is_over) (hold_ends (j == w.user_id) w.amount)
