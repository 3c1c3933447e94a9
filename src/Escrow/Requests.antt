-- ===== src/Escrow/Requests.antt =====
-- The withdrawals (app/services/withdrawal_service.py) in a consistent database.
use buddy_bet_v.Prelude.{ℕ-eq, ◌≡◌, ◌∙◌, refl, sym, ap, subst, arith, some, Bool, true, beq_self}
use buddy_bet_v.Prelude.Int.{ℤ, pos, ◌+ℤ◌, int_laws, add_zero}
use buddy_bet_v.Money.{Decimal}
use buddy_bet_v.Money.Cents.{IsCents}
use buddy_bet_v.Models.{Uuid, Wallet, WithdrawalRequest, Database}
use buddy_bet_v.Models.Enums.{WithdrawalStatus}
use buddy_bet_v.Table.{find-key, find-set}
use buddy_bet_v.Withdrawals.{withdrawal_id_of, withdrawal_of, set_withdrawal}
use buddy_bet_v.Wallet.Calls
use buddy_bet_v.Wallet.Calls.{Method, perform}
use buddy_bet_v.Wallet.Reconcile.{total_holdings}
use buddy_bet_v.Platform.Laws.{platform_total}
use buddy_bet_v.Settlement.Sound.{total_funds}
use buddy_bet_v.Escrow.{IsConsistent, WithdrawalsGood, request_hold, held}
use buddy_bet_v.Escrow.Holds.{at, held-set_withdrawal}
use buddy_bet_v.Escrow.Post.{Moved, after, post-IsConsistent, post-total}

set_withdrawal-WithdrawalsGood :
    (w w' : WithdrawalRequest) (db : Database)
    → withdrawal_of w'.id db ≡ some w
    → IsCents w'.amount
    → WithdrawalsGood db
    → WithdrawalsGood (set_withdrawal w' db)
set_withdrawal-WithdrawalsGood w w' db found good all j x h =
    ground
      (arith, find-set withdrawal_id_of j w'.id w' w db.withdrawal_requests found refl, all j x)

-- The database is consistent, the money in it changed by a known amount, and a request that passed
-- its test was stored in its new state.
abbrev pub Decided :
    Uuid
    → (WithdrawalStatus → Bool)
    → (WithdrawalRequest → WithdrawalRequest)
    → (WithdrawalRequest → Decimal)
    → Database
    → WithdrawalRequest
    → Database
    → Type 0
Decided withdrawal_id valid_from decision change db w' db' =
    IsConsistent db'
    × ((w : WithdrawalRequest) × (withdrawal_of withdrawal_id db ≡ some w)
        × (valid_from w.status ≡ true)
        × (w' ≡ decision w)
        × (withdrawal_of withdrawal_id db' ≡ some w')
        × (total_funds db' ≡ total_funds db +ℤ change w))

moved_total : (t p c : ℤ) → (t +ℤ c) +ℤ p ≡ (t +ℤ p) +ℤ c
moved_total t p c = omega int_laws

module _ (withdrawal_id : Uuid) (db : Database) (c : IsConsistent db) (w : WithdrawalRequest)
    (found : withdrawal_of withdrawal_id db ≡ some w) where
  module _ (w' : WithdrawalRequest) (same : w'.id ≡ w.id) (amount : w'.amount ≡ w.amount) where
    key : w'.id ≡ withdrawal_id
    key = same ∙ find-key withdrawal_id_of withdrawal_id w db.withdrawal_requests found

    at_key : withdrawal_of w'.id db ≡ some w
    at_key = subst (λ k. withdrawal_of k db ≡ some w) (sym key) found

    good : WithdrawalsGood (set_withdrawal w' db)
    good =
        set_withdrawal-WithdrawalsGood w w' db at_key
          (rw amount (c.withdrawals withdrawal_id w found)) c.withdrawals

    stored : withdrawal_of withdrawal_id (set_withdrawal w' db) ≡ some w'
    stored =
        rw
          (
            find-set withdrawal_id_of withdrawal_id w'.id w' w db.withdrawal_requests at_key refl,
            key,
            beq_self withdrawal_id,
          )
          refl

    set_request-IsConsistent :
        (method : Method) (wallet wallet' : Wallet)
        → Moved method w.user_id w.amount w.id db wallet wallet'
        → ((j : Uuid)
            → request_hold j w'
              ≡ request_hold j w +ℤ at j w.user_id (Calls.to_locked method w.amount))
        → let db' = set_withdrawal w' (after method w.user_id w.amount w.id db wallet') in
          IsConsistent db'
          × (total_funds db'
              ≡ total_funds db
                +ℤ (Calls.to_available method w.amount +ℤ Calls.to_locked method w.amount))
    set_request-IsConsistent method wallet wallet' m holds = (
      post-IsConsistent method w.user_id w.amount w.id db wallet wallet' m _ refl refl refl refl
          c.sound.bets good c.deposits
          (λ j.
            held-set_withdrawal j db (at j w.user_id (Calls.to_locked method w.amount)) w w' at_key
              (holds j))
          c,
      ap (λ t. t +ℤ platform_total db)
            (post-total method w.user_id w.amount w.id db wallet wallet' m)
          ∙ moved_total (total_holdings db) (platform_total db)
              (Calls.to_available method w.amount +ℤ Calls.to_locked method w.amount),
    )

    pub wallet_call-Decided :
        (method : Method) (wallet wallet' : Wallet)
        → Moved method w.user_id w.amount w.id db wallet wallet'
        → (valid_from : WithdrawalStatus → Bool) (decision : WithdrawalRequest → WithdrawalRequest)
        → (change : WithdrawalRequest → Decimal) → decision w ≡ w'
        → valid_from w.status ≡ true
        → Calls.to_available method w.amount +ℤ Calls.to_locked method w.amount ≡ change w
        → ((j : Uuid)
            → request_hold j w'
              ≡ request_hold j w +ℤ at j w.user_id (Calls.to_locked method w.amount))
        → Decided withdrawal_id valid_from decision change db w'
            (set_withdrawal w' (after method w.user_id w.amount w.id db wallet'))
    wallet_call-Decided method wallet wallet' m valid_from decision change is_w' valid moves holds =
        let (consistent, funds) = set_request-IsConsistent method wallet wallet' m holds in
        (
          consistent,
          (w, found, valid, sym is_w', stored, funds ∙ ap (λ d. total_funds db +ℤ d) moves),
        )

    -- A decision that moves no money.
    pub no_call-Decided :
        (valid_from : WithdrawalStatus → Bool) (decision : WithdrawalRequest → WithdrawalRequest)
        → decision w ≡ w'
        → valid_from w.status ≡ true
        → ((j : Uuid) → request_hold j w' ≡ request_hold j w)
        → Decided withdrawal_id valid_from decision (λ _. pos 0) db w' (set_withdrawal w' db)
    no_call-Decided valid_from decision is_w' valid holds =
        let kept : (j : Uuid) → held j (set_withdrawal w' db) ≡ held j db = λ j.
          held-set_withdrawal j db (pos 0) w w' at_key (holds j ∙ sym (add_zero (request_hold j w)))
          ∙ add_zero (held j db) in
        (
          record {
            sound = record {
              wallets = c.sound.wallets;
              accounts = c.sound.accounts;
              rates = c.sound.rates;
              bets = c.sound.bets;
            };
            reconciled = c.reconciled;
            escrowed = λ j x h. c.escrowed j x h ∙ sym (kept j);
            withdrawals = good;
            deposits = c.deposits;
          },
          (w, found, valid, sym is_w', stored, sym (add_zero (total_funds db))),
        )
