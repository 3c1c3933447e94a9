-- ===== src/Matches/Transition.antt =====
-- The first transaction of a match settlement (app/services/match_settlement_service.py) against the
-- invariant.
use buddy_bet_v.Prelude.{
  ℕ-eq, ◌≡◌, ◌⊎◌, inl, inr, refl, subst, arith, some, List, [], ◌∷◌, Bool, true, false, Bool-cases,
  ◌==◌, if◌then◌else◌, ℕ,
}
use buddy_bet_v.Exec.{ok, not_found, validation}
use buddy_bet_v.Exec.OnOk.{OnOk, OnOk-some, OnOk-raise_if}
use buddy_bet_v.Table.{find, total}
use buddy_bet_v.Models.{Uuid, DateTime, Match, Bet, BetEvent, Database}
use buddy_bet_v.Models.Enums.{FootballOutcome, BetEventType, BetStatus, BetStatus-eq}
use buddy_bet_v.Bets.{bet_id_of, write_bet_event}
use buddy_bet_v.Matches.{match_of, get_match_or_404}
use buddy_bet_v.Matches.Settlement.{
  is_matched_bet, pending_bet, with_pending, pending_bets, transition_matched_to_pending, is_some,
  set_match, confirmed_match, write_pending_events, confirm_result,
}
use buddy_bet_v.Settlement.Sound.{BetsGood}
use buddy_bet_v.Escrow.{IsConsistent, bet_hold}
use buddy_bet_v.Escrow.BetMoves.{Conserved}

bet_hold-pending :
    (j : Uuid) (bet : Bet)
    → bet.status ≡ BetStatus.matched
    → bet_hold j (pending_bet bet) ≡ bet_hold j bet
bet_hold-pending j bet matched = rw matched refl

module _ (match_id : Uuid) where
  matched_status : (bet : Bet) → is_matched_bet match_id bet ≡ true → bet.status ≡ BetStatus.matched
  matched_status bet h = ground (arith, BetStatus-eq.equal_iff bet.status BetStatus.matched)

  -- What is held does not change.
  total-with_pending :
      (j : Uuid) (bets : List Bet)
      → total (bet_hold j) (with_pending match_id bets) ≡ total (bet_hold j) bets
  total-with_pending j [] = refl
  total-with_pending j (bet ∷ bets) = elim (Bool-cases (is_matched_bet match_id bet)) [
    | inl h ↦ rw (h, bet_hold-pending j bet (matched_status bet h), total-with_pending j bets) refl
    | inr h ↦ rw (h, total-with_pending j bets) refl
  ]

  find-head :
      (j : Uuid) (bet : Bet) (bets : List Bet)
      → find bet_id_of j (with_pending match_id (bet ∷ bets)) ≡ (
          if bet.id == j
          then some (if is_matched_bet match_id bet then pending_bet bet else bet)
          else find bet_id_of j (with_pending match_id bets))
  find-head j bet bets = elim (Bool-cases (is_matched_bet match_id bet)) [
    | inl h ↦ rw h refl
    | inr h ↦ rw h refl
  ]

  either_row :
      (m : Bool) (bet : Bet)
      → ((if m then pending_bet bet else bet) ≡ bet)
        ⊎ ((if m then pending_bet bet else bet) ≡ pending_bet bet)
  either_row true bet = inr refl
  either_row false bet = inl refl

  find-with_pending :
      (j : Uuid) (bets : List Bet) (x : Bet)
      → find bet_id_of j (with_pending match_id bets) ≡ some x
      → (bet : Bet) × (find bet_id_of j bets ≡ some bet) × ((x ≡ bet) ⊎ (x ≡ pending_bet bet))
  find-with_pending j [] x h = ground arith
  find-with_pending j (bet ∷ bets) x h = elim (Bool-cases (bet.id == j)) [
    | inl hit ↦
        let is_x : (if is_matched_bet match_id bet then pending_bet bet else bet) ≡ x =
          ground (arith, find-head j bet bets) in
        (
          bet,
          rw hit refl,
          subst (λ y. (y ≡ bet) ⊎ (y ≡ pending_bet bet)) is_x
              (either_row (is_matched_bet match_id bet) bet),
        )
    | inr miss ↦ rw miss (find-with_pending j bets x (ground (arith, find-head j bet bets)))
  ]

  pending-BetsGood :
      (db : Database) → BetsGood db → BetsGood (record db { bets = with_pending match_id db.bets })
  pending-BetsGood db good j x h =
      let (bet, found, which) = find-with_pending j db.bets x h in
      elim which [
        | inl same ↦ rw same (good j bet found)
        | inr pending ↦ rw pending (good j bet found)
      ]

  pending-Conserved :
      (db : Database)
      → IsConsistent db
      → Conserved db (record db { bets = with_pending match_id db.bets })
  pending-Conserved db c = (
    record {
      sound = record {
        wallets = c.sound.wallets;
        accounts = c.sound.accounts;
        rates = c.sound.rates;
        bets = pending-BetsGood db c.sound.bets;
      };
      reconciled = c.reconciled;
      escrowed = λ j w found. rw (total-with_pending j db.bets) (c.escrowed j w found);
      withdrawals = c.withdrawals;
      deposits = c.deposits;
    },
    refl,
  )

-- The events, the matches and nothing else.
pub noted-Conserved :
    (matches : List Match) (events : List BetEvent) (db : Database)
    → IsConsistent db
    → Conserved db (record db { matches = matches; bet_events = events })
noted-Conserved matches events db c = (
  record {
    sound = record {
      wallets = c.sound.wallets;
      accounts = c.sound.accounts;
      rates = c.sound.rates;
      bets = c.sound.bets;
    };
    reconciled = c.reconciled;
    escrowed = c.escrowed;
    withdrawals = c.withdrawals;
    deposits = c.deposits;
  },
  refl,
)

write_pending_events-lem :
    (confirmed_by : Uuid) (bets : List Bet) (db : Database)
    → (events : List BetEvent) × (write_pending_events confirmed_by bets db
        ≡ (ok tt, record db { bet_events = events }))
unfolding write_pending_events write_bet_event
write_pending_events-lem confirmed_by [] db = (db.bet_events, refl)
write_pending_events-lem confirmed_by (bet ∷ bets) db =
    write_pending_events-lem confirmed_by bets
      (write_bet_event bet.id BetEventType.pending_settlement (some confirmed_by)
        "SETTLEMENT_ENGINE" db).1

-- The result was not confirmed before; it is now, and the matched bets wait for their settlement.
abbrev pub Confirmed : Uuid → Database → List Bet → Database → Type 0
Confirmed match_id db bets db' =
    Conserved db db'
    × (bets ≡ pending_bets match_id db.bets)
    × (db'.bets ≡ with_pending match_id db.bets)

module _ (match_id : Uuid) (outcome : FootballOutcome) (home_score away_score : ℕ)
    (confirmed_by : Uuid) (now : DateTime) (db : Database) (c : IsConsistent db) where
  pub confirm_result-Confirmed :
      OnOk
        (Confirmed match_id db)
        (confirm_result match_id outcome home_score away_score confirmed_by now db)
  unfolding confirm_result get_match_or_404 transition_matched_to_pending
  confirm_result-Confirmed =
      let P = Confirmed match_id db in
      OnOk-some P not_found (match_of match_id db) _ db λ row found.
        OnOk-raise_if P (is_some row.result_confirmed_at) validation _ db λ _.
          let db1 = set_match (confirmed_match outcome home_score away_score now row) db in
          let db2 : Database = record db1 { bets = with_pending match_id db.bets } in
          let (events, e) =
            write_pending_events-lem confirmed_by (pending_bets match_id db.bets) db2 in
          let (c1, t1) = pending-Conserved match_id db c in
          rw e (
            noted-Conserved db1.matches events (record db { bets = with_pending match_id db.bets })
                c1,
            refl,
            refl,
          )
