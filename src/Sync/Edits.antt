-- ===== src/Sync/Edits.antt =====
-- The edits of one row (app/integrations/sync_service.py, `_update_fixture`) against the row that they
-- add up to.
use buddy_bet_v.Prelude.{
  ℕ-eq, ◌≡◌, ◌↔◌, refl, Bool, true, false, not, ◌&&◌, ◌||◌, Bool-cases, inl, inr, arith, Option,
  none, some, String-eq, Eq, ◌!=◌, if◌then◌else◌,
}
use buddy_bet_v.Models.{Match, DateTime}
use buddy_bet_v.Models.Enums.{FootballOutcome-eq, MatchStatus-eq}
use buddy_bet_v.Matches.Settlement.{is_some}
use buddy_bet_v.Sync.{
  ProviderMatchPayload, edit, edit_home_team, edit_away_team, edit_competition, edit_kickoff,
  edit_status, edit_outcome, edit_home_score, edit_away_score, edit_result, edit_fixture,
  synced_match, same_option, is_rescheduled, may_change,
}

-- An edit whose write would change nothing when nothing differs.
edit-row :
    (differs : Match → Bool) (write : Match → Match) (row : Match) (changed : Bool)
    → (differs row ≡ false → write row ≡ row)
    → (edit differs write (row, changed)) ≡ (write row, changed || differs row)
edit-row differs write row changed idle = elim (Bool-cases (differs row)) [
  | inl h ↦ ground arith
  | inr h ↦ ground (arith, idle h)
]

module _ {A : Type 0} ⦃e : Eq A⦄ where
  pub same_option_iff : (a b : Option A) → (same_option a b ≡ true) ↔ (a ≡ b)
  same_option_iff none none = ground arith
  same_option_iff none (some b) = ground arith
  same_option_iff (some a) none = ground arith
  same_option_iff (some a) (some b) = ground (arith, e.equal_iff a b)

  not_differs : (a b : A) → (a != b) ≡ false → b ≡ a
  not_differs a b h = ground (arith, e.equal_iff a b)

  not_differs_option : (a b : Option A) → not (same_option a b) ≡ false → b ≡ a
  not_differs_option a b h = ground (arith, same_option_iff a b)

module _ (payload : ProviderMatchPayload) (row : Match) (changed : Bool) where
  edit_home_team-row : edit_home_team payload (row, changed) ≡ (
    record row { home_team = payload.home_team },
    changed || (row.home_team != payload.home_team),
  )
  unfolding edit_home_team
  edit_home_team-row =
      edit-row (λ row. row.home_team != payload.home_team)
        (λ row. record row { home_team = payload.home_team }) row changed
        (λ h. rw (not_differs row.home_team payload.home_team h) refl)

  edit_away_team-row : edit_away_team payload (row, changed) ≡ (
    record row { away_team = payload.away_team },
    changed || (row.away_team != payload.away_team),
  )
  unfolding edit_away_team
  edit_away_team-row =
      edit-row (λ row. row.away_team != payload.away_team)
        (λ row. record row { away_team = payload.away_team }) row changed
        (λ h. rw (not_differs row.away_team payload.away_team h) refl)

  edit_competition-row : edit_competition payload (row, changed) ≡ (
    record row { competition = payload.competition },
    changed || (row.competition != payload.competition),
  )
  unfolding edit_competition
  edit_competition-row =
      edit-row (λ row. row.competition != payload.competition)
        (λ row. record row { competition = payload.competition }) row changed
        (λ h. rw (not_differs row.competition payload.competition h) refl)

  edit_outcome-row : edit_outcome payload (row, changed) ≡ (
    record row { outcome = payload.internal_outcome },
    changed || not (same_option row.outcome payload.internal_outcome),
  )
  unfolding edit_outcome
  edit_outcome-row =
      edit-row (λ row. not (same_option row.outcome payload.internal_outcome))
        (λ row. record row { outcome = payload.internal_outcome }) row changed
        (λ h. rw (not_differs_option row.outcome payload.internal_outcome h) refl)

  edit_home_score-row : edit_home_score payload (row, changed) ≡ (
    record row { result_home_score = payload.home_score },
    changed || not (same_option row.result_home_score payload.home_score),
  )
  unfolding edit_home_score
  edit_home_score-row =
      edit-row (λ row. not (same_option row.result_home_score payload.home_score))
        (λ row. record row { result_home_score = payload.home_score }) row changed
        (λ h. rw (not_differs_option row.result_home_score payload.home_score h) refl)

  edit_away_score-row : edit_away_score payload (row, changed) ≡ (
    record row { result_away_score = payload.away_score },
    changed || not (same_option row.result_away_score payload.away_score),
  )
  unfolding edit_away_score
  edit_away_score-row =
      edit-row (λ row. not (same_option row.result_away_score payload.away_score))
        (λ row. record row { result_away_score = payload.away_score }) row changed
        (λ h. rw (not_differs_option row.result_away_score payload.away_score h) refl)

  edit_kickoff-row : edit_kickoff payload (row, changed) ≡ (
    record row {
      kickoff_at = if is_rescheduled payload row then payload.kickoff_at else row.kickoff_at;
    },
    changed || is_rescheduled payload row,
  )
  unfolding edit_kickoff
  edit_kickoff-row = elim (Bool-cases (is_rescheduled payload row)) [
    | inl h ↦ ground arith
    | inr h ↦ ground arith
  ]

  edit_status-row : edit_status payload (row, changed) ≡ (
    record row { status = if may_change payload row then payload.internal_status else row.status },
    changed || may_change payload row,
  )
  unfolding edit_status
  edit_status-row = elim (Bool-cases (may_change payload row)) [
    | inl h ↦ ground arith
    | inr h ↦ ground arith
  ]

-- Whether the result of the payload is written.
abbrev pub takes_result : ProviderMatchPayload → Match → Bool
takes_result payload row = is_some payload.internal_outcome && not (is_some row.result_confirmed_at)

-- The row that a synchronisation leaves, field by field.
abbrev pub merged_match : ProviderMatchPayload → DateTime → Match → Match
merged_match payload now row = record row {
  home_team = payload.home_team;
  away_team = payload.away_team;
  competition = payload.competition;
  kickoff_at = if is_rescheduled payload row then payload.kickoff_at else row.kickoff_at;
  status = if may_change payload row then payload.internal_status else row.status;
  outcome = if takes_result payload row then payload.internal_outcome else row.outcome;
  result_home_score =
      if takes_result payload row then payload.home_score else row.result_home_score;
  result_away_score =
      if takes_result payload row then payload.away_score else row.result_away_score;
  last_synced_at = some now;
}

-- Whether a field of the row is written.
abbrev pub basics_differ : ProviderMatchPayload → Match → Bool
basics_differ payload row =
    row.home_team != payload.home_team
    || row.away_team != payload.away_team
    || row.competition != payload.competition
    || is_rescheduled payload row
    || may_change payload row

abbrev pub result_differs : ProviderMatchPayload → Match → Bool
result_differs payload row =
    not (same_option row.outcome payload.internal_outcome)
    || not (same_option row.result_home_score payload.home_score)
    || not (same_option row.result_away_score payload.away_score)

or_assoc : (a b c d : Bool) → (a || b || c || d) ≡ (a || (b || c || d))
or_assoc a b c d = ground arith

module _ (payload : ProviderMatchPayload) where
  before_result :
      (row : Match)
      → edit_status payload (
          edit_kickoff payload (
            edit_competition payload
              (edit_away_team payload (edit_home_team payload (row, false)))))
        ≡ (
          record row {
            home_team = payload.home_team;
            away_team = payload.away_team;
            competition = payload.competition;
            kickoff_at = if is_rescheduled payload row then payload.kickoff_at else row.kickoff_at;
            status = if may_change payload row then payload.internal_status else row.status;
          },
          basics_differ payload row,
        )
  before_result row =
      rw
        (
          edit_home_team-row payload row false,
          edit_away_team-row payload _ _,
          edit_competition-row payload _ _,
          edit_kickoff-row payload _ _,
          edit_status-row payload _ _,
        )
        refl

  with_result :
      (row : Match) (changed : Bool)
      → edit_result payload (row, changed) ≡ (
        record row {
          outcome = if takes_result payload row then payload.internal_outcome else row.outcome;
          result_home_score =
              if takes_result payload row then payload.home_score else row.result_home_score;
          result_away_score =
              if takes_result payload row then payload.away_score else row.result_away_score;
        },
        changed || (takes_result payload row && result_differs payload row),
      )
  unfolding edit_result
  with_result row changed = elim (Bool-cases (takes_result payload row)) [
    | inl h ↦
        rw
          (
            h,
            edit_outcome-row payload row changed,
            edit_home_score-row payload _ _,
            edit_away_score-row payload _ _,
          )
          (rw (or_assoc changed) refl)
    | inr h ↦ rw h ground arith
  ]

  pub edit_fixture-merged :
      (row : Match)
      → edit_fixture payload row ≡ (
        record (merged_match payload 0 row) { last_synced_at = row.last_synced_at },
        basics_differ payload row || (takes_result payload row && result_differs payload row),
      )
  unfolding edit_fixture
  edit_fixture-merged row = rw (before_result row, with_result _ _) refl

  -- `synced_match` writes the row field by field: the names of the payload, its kickoff when the two are
  -- more than a minute apart, its status when the transition is allowed, and its result when there is one
  -- and none is confirmed yet.
  pub synced_match-merged :
      (now : DateTime) (row : Match) → synced_match payload now row ≡ merged_match payload now row
  unfolding synced_match
  synced_match-merged now row = rw (edit_fixture-merged row) refl
