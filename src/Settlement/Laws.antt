-- ===== src/Settlement/Laws.antt =====
-- What `settle_bet` does when it returns (app/services/settlement_service.py).
use buddy_bet_v.Prelude.{ℕ-eq, ◌≡◌, refl, none, some, false, arith, sym, subst, ◌!=◌, beq_self, ap}
use buddy_bet_v.Prelude.Int.{pos, ◌+ℤ◌, ◌-ℤ◌, int_laws}
use buddy_bet_v.Exec.{◌>>=◌, validation, not_found, settlement_idempotency}
use buddy_bet_v.Exec.OnOk.{OnOk, OnOk-bind, OnOk-and, OnOk-some, OnOk-raise_if}
use buddy_bet_v.Money.{Decimal}
use buddy_bet_v.Models.{Uuid, DateTime, Match, Bet, Database}
use buddy_bet_v.Models.Enums.{
  FeeType, FootballOutcome, SettlementOutcome, BetStatus, BetStatus-eq, BetEventType,
}
use buddy_bet_v.Bets.{bet_id_of, bet_of, set_bet, get_bet_or_404, write_bet_event}
use buddy_bet_v.Matches.{match_of, get_match_or_404}
use buddy_bet_v.Table.{find-key, find-set}
use buddy_bet_v.Platform.{get_active_rate}
use buddy_bet_v.Platform.Laws.{platform_total, AccountsGood}
use buddy_bet_v.Wallet.Posting.{AllGood}
use buddy_bet_v.Wallet.Reconcile.{IsReconciled, total_holdings}
use buddy_bet_v.Settlement.{
  Settled, collect_fee, mark_settled, record_settlement, settled_bet, settle_bet, settle_wallets,
  determine_path, matched_with,
}
use buddy_bet_v.Settlement.Wallets.{Collected, settle_wallets-Collected}
use buddy_bet_v.Settlement.AmountLaws.{IsRate}
use buddy_bet_v.Settlement.Locks.{LocksMoved, settle_wallets-LocksMoved}
use buddy_bet_v.Settlement.Release.{settled-IsEscrowed}
use buddy_bet_v.Escrow.{IsEscrowed}
use buddy_bet_v.Settlement.Verdict.{Verdict, winner_of, settle_wallets-winner}
use buddy_bet_v.Settlement.Sound.{
  total_funds, IsGoodBet, IsSound, FeeCollected, collect_fee-FeeCollected, get_active_rate-IsRate,
  mark_settled-lem, matched_with-opponent, set_bet-BetsGood,
}

-- The outcome of a settlement that began at `db`.
abbrev pub SettledFrom : Uuid → Database → Bet → Database → Type 0
SettledFrom bet_id db bet' db' =
    IsSound db'
    × (total_funds db' ≡ total_funds db)
    × (IsReconciled db → IsReconciled db')
    × (IsEscrowed db → IsEscrowed db')
    × ((db'.withdrawal_requests ≡ db.withdrawal_requests)
        × (db'.deposit_requests ≡ db.deposit_requests))
    × (bet_of bet_id db' ≡ some bet')
    × (bet'.status ≡ BetStatus.settled)
    × Verdict bet_id db bet'

balanced :
    (users platform' platform users_before fee : Decimal)
    → users +ℤ fee ≡ users_before
    → platform' ≡ platform +ℤ fee
    → users +ℤ platform' ≡ users_before +ℤ platform
balanced users platform' platform users_before fee e k = rw (sym e, k) (omega int_laws)

-- The database after all steps, and what holds of it.
module _ (bet_id : Uuid) (db : Database) (sound : IsSound db) (bet bet' : Bet)
    (found : bet_of bet_id db ≡ some bet) where
  assembled-SettledFrom :
      (settled : Database)
      → bet'.id ≡ bet_id
      → IsGoodBet bet'
      → bet'.status ≡ BetStatus.settled
      → Verdict bet_id db bet'
      → settled.bets ≡ (set_bet bet' db).bets
      → settled.fee_config ≡ db.fee_config
      → AllGood settled
      → AccountsGood settled
      → (IsReconciled db → IsReconciled settled)
      → total_funds settled ≡ total_funds db
      → (IsEscrowed db → IsEscrowed settled)
      → (settled.withdrawal_requests ≡ db.withdrawal_requests)
        × (settled.deposit_requests ≡ db.deposit_requests)
      → SettledFrom bet_id db bet' settled
  assembled-SettledFrom settled key good_bet status verdict bets config wallets accounts reconciled
        total escrowed requests =
      let found' = subst (λ k. bet_of k db ≡ some bet) (sym key) found in
      (
        record {
          wallets = wallets;
          accounts = accounts;
          rates = rw config sound.rates;
          bets = rw bets (set_bet-BetsGood bet bet' db found' good_bet sound.bets);
        },
        total,
        reconciled,
        escrowed,
        requests,
        rw
            (
              bets,
              find-set bet_id_of bet_id bet'.id bet' bet db.bets found' refl,
              key,
              beq_self bet_id,
            )
            refl,
        status,
        verdict,
      )

is_pending :
    (status : BetStatus)
    → (status != BetStatus.pending_settlement) ≡ false
    → status ≡ BetStatus.pending_settlement
is_pending status h = ground (arith, BetStatus-eq.equal_iff status BetStatus.pending_settlement)

-- Steps 10 and 11, from a database in which only the wallets and their ledger have changed.
module _ (bet_id : Uuid) (now : DateTime) (db : Database) (sound : IsSound db) where
  record_settlement-lem :
      (bet : Bet) (opponent : Uuid) (outcome : SettlementOutcome) (s : Settled) (db1 : Database)
      → bet_of bet_id db ≡ some bet
      → bet.status ≡ BetStatus.pending_settlement
      → bet.opponent_id ≡ some opponent
      → LocksMoved bet.creator_id opponent (pos 0 -ℤ bet.stake_amount) db db1
      → Collected db s db1
      → Verdict bet_id db (settled_bet outcome s now bet)
      → OnOk (SettledFrom bet_id db) (record_settlement bet outcome s now db1)
  unfolding record_settlement write_bet_event
  record_settlement-lem bet opponent outcome s db1 found pending has_opponent locks
        ((good, reconciled, taken, frame), cents, _) verdict =
      let P = SettledFrom bet_id db in
      let key = find-key bet_id_of bet_id bet db.bets found in
      let platform_same : platform_total db1 ≡ platform_total db = ap platform_total frame in
      OnOk-bind P (λ _ db'. FeeCollected s.platform_fee_amount db1 db')
        (collect_fee bet outcome s.platform_fee_amount) _ db1
        (collect_fee-FeeCollected bet outcome s.platform_fee_amount db1 (rw frame sound.accounts)
          cents)
        λ _ db2 (credit, accounts, frame2).
          OnOk-bind P
            (λ bet' db'. (bet' ≡ settled_bet outcome s now bet) × (db' ≡ set_bet bet' db2))
            (mark_settled bet outcome s now) _ db2
            (mark_settled-lem bet outcome s now db2
              (rw (frame2, frame) (subst (λ k. bet_of k db ≡ some bet) (sym key) found)))
            λ bet' db3 (bet'_is, db3_is).
              rw (db3_is, frame2, frame)
                (assembled-SettledFrom bet_id db sound bet bet' found
                  (record db {
                    wallets = db1.wallets;
                    ledger_entries = db1.ledger_entries;
                    bets = (set_bet bet' db).bets;
                    bet_events =
                        (write_bet_event bet.id BetEventType.settled none "SETTLEMENT_ENGINE"
                          db).1.bet_events;
                    platform_accounts = db2.platform_accounts;
                    platform_ledger_entries = db2.platform_ledger_entries;
                  })
                  (rw bet'_is key) (rw bet'_is (sound.bets bet_id bet found)) (rw bet'_is refl)
                  (rw bet'_is verdict) refl refl good accounts reconciled
                  (balanced (total_holdings db1) (platform_total db2) (platform_total db) _ _ taken
                    (rw⁻¹ platform_same credit))
                  (rw bet'_is (
                    settled-IsEscrowed bet opponent pending has_opponent outcome s now db db1
                      (subst (λ k. bet_of k db ≡ some bet) (sym key) found) locks))
                  (refl, refl))

  -- Steps 7 to 12.
  settle_and_record :
      (bet : Bet) (parties : Uuid × FootballOutcome) (row : Match) (result : FootballOutcome)
      (w n : Decimal)
      → bet_of bet_id db ≡ some bet
      → matched_with bet ≡ some parties
      → bet.status ≡ BetStatus.pending_settlement
      → match_of bet.match_id db ≡ some row
      → row.outcome ≡ some result
      → IsRate w
      → IsRate n
      → let outcome = determine_path result bet.creator_prediction parties.1 in
        OnOk (SettledFrom bet_id db) (
          (settle_wallets bet parties.0 outcome w n >>= λ s. record_settlement bet outcome s now)
            db)
  settle_and_record bet parties row result w n found matched pending match_found has_result w_rate
        n_rate =
      let outcome = determine_path result bet.creator_prediction parties.1 in
      let (cents, nonneg, distinct) = sound.bets bet_id bet found in
      let Q : Settled → Database → Type 0 = λ s _. s.winner_id ≡ winner_of bet parties.0 outcome in
      let has_opponent = matched_with-opponent bet parties.0 parties.1 matched in
      let apart = distinct parties.0 has_opponent in
      let L : Settled → Database → Type 0 =
        λ _ db1. LocksMoved bet.creator_id parties.0 (pos 0 -ℤ bet.stake_amount) db db1 in
      let m = settle_wallets bet parties.0 outcome w n in
      OnOk-bind (SettledFrom bet_id db) (λ s db1. Collected db s db1 × (Q s db1 × L s db1)) m _ db
        (OnOk-and (Collected db) (λ s db1. Q s db1 × L s db1) (m db)
          (settle_wallets-Collected bet db sound.wallets cents nonneg parties.0 outcome w n apart
            w_rate n_rate)
          (OnOk-and Q L (m db) (settle_wallets-winner bet db parties.0 outcome w n)
            (settle_wallets-LocksMoved bet db sound.wallets cents parties.0 outcome w n apart)))
        λ s db1 (collected, (winner, locks)).
          record_settlement-lem bet parties.0 outcome s db1 found pending has_opponent locks
            collected
            (
              bet,
              parties.0,
              parties.1,
              row,
              result,
              found,
              matched,
              match_found,
              has_result,
              (refl, winner, (s.payout_amount, refl)),
            )

  -- The whole of `settle_bet`, guard by guard.
  pub settle_bet-SettledFrom : OnOk (SettledFrom bet_id db) (settle_bet bet_id now db)
  unfolding settle_bet get_bet_or_404 get_match_or_404
  settle_bet-SettledFrom =
      let P = SettledFrom bet_id db in
      let Q : Decimal → Database → Type 0 = λ rate db'. IsRate rate × (db' ≡ db) in
      OnOk-some P not_found (bet_of bet_id db) _ db λ bet found.
        OnOk-raise_if P (bet.status != BetStatus.pending_settlement) settlement_idempotency _ db
          λ pending. OnOk-some P validation (matched_with bet) _ db λ parties matched.
            OnOk-some P not_found (match_of bet.match_id db) _ db λ row match_found.
              OnOk-some P validation row.outcome _ db λ result has_result.
                OnOk-bind P Q (get_active_rate FeeType.winner_fee bet.currency now) _ db
                  (get_active_rate-IsRate FeeType.winner_fee bet now db sound.rates)
                  λ w db1 (w_rate, same1). rw same1 (
                    OnOk-bind P Q (get_active_rate FeeType.no_winner_fee bet.currency now) _ db
                      (get_active_rate-IsRate FeeType.no_winner_fee bet now db sound.rates)
                      λ n db2 (n_rate, same2). rw same2 (
                        settle_and_record bet parties row result w n found matched
                          (is_pending bet.status pending) match_found has_result w_rate n_rate))
