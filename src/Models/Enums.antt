-- ===== src/Models/Enums.antt =====
-- The enumerations of app/models/enums.py that the modelled services use, and their `==`.
use buddy_bet_v.Prelude.{◌≡◌, ◌↔◌, Bool, true, false, arith, Eq}

pub data UserStatus : Type 0 where
  active suspended banned : UserStatus

pub data UserRole : Type 0 where
  user admin : UserRole

pub data FootballOutcome : Type 0 where
  home_win away_win draw : FootballOutcome

pub data MatchStatus : Type 0 where
  scheduled live completed postponed cancelled abandoned : MatchStatus

pub data BetStatus : Type 0 where
  open_bet matched pending_settlement settled cancelled voided under_review : BetStatus

pub data SettlementOutcome : Type 0 where
  creator_wins opponent_wins no_winner voided : SettlementOutcome

pub data LedgerEntryType : Type 0 where
  stake_lock stake_unlock void_refund settlement_deduct payout_credit : LedgerEntryType
  refund_credit fee_deduct deposit withdrawal : LedgerEntryType
  withdrawal_hold withdrawal_release : LedgerEntryType

pub data BalanceField : Type 0 where
  available locked : BalanceField

pub data LedgerDirection : Type 0 where
  credit debit : LedgerDirection

pub data LedgerReferenceType : Type 0 where
  bet settlement void cancellation deposit withdrawal : LedgerReferenceType

pub data PlatformEntryType : Type 0 where
  fee_collection fee_collection_no_winner : PlatformEntryType

pub data SettlementPathType : Type 0 where
  winner no_winner : SettlementPathType

pub data FeeType : Type 0 where
  winner_fee no_winner_fee : FeeType

pub data DepositStatus : Type 0 where
  pending processing completed failed cancelled : DepositStatus

pub data WithdrawalStatus : Type 0 where
  pending approved processing completed failed rejected : WithdrawalStatus

pub data BetEventType : Type 0 where
  created matched pending_settlement settled cancelled voided : BetEventType
  under_review admin_override : BetEventType

abbrev pub UserRole-equal : UserRole → UserRole → Bool
UserRole-equal UserRole.user UserRole.user = true
UserRole-equal UserRole.admin UserRole.admin = true
UserRole-equal _ _ = false

pub UserRole-equal_iff : (a b : UserRole) → (UserRole-equal a b ≡ true) ↔ (a ≡ b)
UserRole-equal_iff a b = ground arith

instance abbrev pub UserRole-eq : Eq UserRole
UserRole-eq = record { equal = UserRole-equal; equal_iff = UserRole-equal_iff }

abbrev pub UserStatus-equal : UserStatus → UserStatus → Bool
UserStatus-equal UserStatus.active UserStatus.active = true
UserStatus-equal UserStatus.suspended UserStatus.suspended = true
UserStatus-equal UserStatus.banned UserStatus.banned = true
UserStatus-equal _ _ = false

pub UserStatus-equal_iff : (a b : UserStatus) → (UserStatus-equal a b ≡ true) ↔ (a ≡ b)
UserStatus-equal_iff a b = ground arith

instance abbrev pub UserStatus-eq : Eq UserStatus
UserStatus-eq = record { equal = UserStatus-equal; equal_iff = UserStatus-equal_iff }

abbrev pub FootballOutcome-equal : FootballOutcome → FootballOutcome → Bool
FootballOutcome-equal FootballOutcome.home_win FootballOutcome.home_win = true
FootballOutcome-equal FootballOutcome.away_win FootballOutcome.away_win = true
FootballOutcome-equal FootballOutcome.draw FootballOutcome.draw = true
FootballOutcome-equal _ _ = false

pub FootballOutcome-equal_iff :
    (a b : FootballOutcome) → (FootballOutcome-equal a b ≡ true) ↔ (a ≡ b)
FootballOutcome-equal_iff a b = ground arith

instance abbrev pub FootballOutcome-eq : Eq FootballOutcome
FootballOutcome-eq = record { equal = FootballOutcome-equal; equal_iff = FootballOutcome-equal_iff }

abbrev pub MatchStatus-equal : MatchStatus → MatchStatus → Bool
MatchStatus-equal MatchStatus.scheduled MatchStatus.scheduled = true
MatchStatus-equal MatchStatus.live MatchStatus.live = true
MatchStatus-equal MatchStatus.completed MatchStatus.completed = true
MatchStatus-equal MatchStatus.postponed MatchStatus.postponed = true
MatchStatus-equal MatchStatus.cancelled MatchStatus.cancelled = true
MatchStatus-equal MatchStatus.abandoned MatchStatus.abandoned = true
MatchStatus-equal _ _ = false

pub MatchStatus-equal_iff : (a b : MatchStatus) → (MatchStatus-equal a b ≡ true) ↔ (a ≡ b)
MatchStatus-equal_iff a b = ground arith

instance abbrev pub MatchStatus-eq : Eq MatchStatus
MatchStatus-eq = record { equal = MatchStatus-equal; equal_iff = MatchStatus-equal_iff }

abbrev pub BetStatus-equal : BetStatus → BetStatus → Bool
BetStatus-equal BetStatus.open_bet BetStatus.open_bet = true
BetStatus-equal BetStatus.matched BetStatus.matched = true
BetStatus-equal BetStatus.pending_settlement BetStatus.pending_settlement = true
BetStatus-equal BetStatus.settled BetStatus.settled = true
BetStatus-equal BetStatus.cancelled BetStatus.cancelled = true
BetStatus-equal BetStatus.voided BetStatus.voided = true
BetStatus-equal BetStatus.under_review BetStatus.under_review = true
BetStatus-equal _ _ = false

pub BetStatus-equal_iff : (a b : BetStatus) → (BetStatus-equal a b ≡ true) ↔ (a ≡ b)
BetStatus-equal_iff a b = ground arith

instance abbrev pub BetStatus-eq : Eq BetStatus
BetStatus-eq = record { equal = BetStatus-equal; equal_iff = BetStatus-equal_iff }

abbrev pub FeeType-equal : FeeType → FeeType → Bool
FeeType-equal FeeType.winner_fee FeeType.winner_fee = true
FeeType-equal FeeType.no_winner_fee FeeType.no_winner_fee = true
FeeType-equal _ _ = false

pub FeeType-equal_iff : (a b : FeeType) → (FeeType-equal a b ≡ true) ↔ (a ≡ b)
FeeType-equal_iff a b = ground arith

instance abbrev pub FeeType-eq : Eq FeeType
FeeType-eq = record { equal = FeeType-equal; equal_iff = FeeType-equal_iff }
