-- ===== src/Sync/Versions.antt =====
-- A row of the matches and its later versions (app/integrations/sync_service.py).
use buddy_bet_v.Prelude.{
  ℕ-eq, ◌≡◌, refl, true, false, ◌&&◌, Bool-cases, inl, inr, arith, Option, ◌∙◌, beq_self, Eq,
  String, String-eq, List, ◌∷◌,
}
use buddy_bet_v.Models.{Uuid, Match, DateTime}
use buddy_bet_v.Models.Enums.{MatchStatus, FootballOutcome-eq, MatchStatus-eq}
use buddy_bet_v.Matches.Settlement.{is_some}
use buddy_bet_v.Sync.{
  ProviderMatchPayload, edit_fixture, synced_match, new_match, is_rescheduled, may_change,
  same_option,
}
use buddy_bet_v.Sync.Graph.{Moves, stay, move, is_allowed-⟶}
use buddy_bet_v.Sync.Edits.{
  merged_match, takes_result, synced_match-merged, edit_fixture-merged, basics_differ,
  result_differs, same_option_iff,
}

-- The identity and the confirmation stay.
pub record Follows (row row' : Match) : Type 0 where
  pub same_id : row'.id ≡ row.id
  pub same_external_id : row'.external_id ≡ row.external_id
  pub same_confirmed_at : row'.result_confirmed_at ≡ row.result_confirmed_at

-- The confirmation and the result.
abbrev pub SameResult : Match → Match → Type 0
SameResult row row' =
    (row'.result_confirmed_at ≡ row.result_confirmed_at)
    × (row'.outcome ≡ row.outcome)
    × (row'.result_home_score ≡ row.result_home_score)
    × (row'.result_away_score ≡ row.result_away_score)

pub Follows-refl : (row : Match) → Follows row row
Follows-refl row = record { same_id = refl; same_external_id = refl; same_confirmed_at = refl }

pub Follows-trans : (a b c : Match) → Follows a b → Follows b c → Follows a c
Follows-trans a b c f g = record {
  same_id = g.same_id ∙ f.same_id;
  same_external_id = g.same_external_id ∙ f.same_external_id;
  same_confirmed_at = g.same_confirmed_at ∙ f.same_confirmed_at;
}

same_self : {A : Type 0} ⦃e : Eq A⦄ (a : Option A) → same_option a a ≡ true
same_self a = (same_option_iff a a).1 refl

module _ (payload : ProviderMatchPayload) (now : DateTime) (row : Match) where
  -- One payload moves the status of its match once, or not at all.
  pub synced_match-Moves :
      {external_id : String} {done : List ProviderMatchPayload} {s : MatchStatus}
      → payload.external_id ≡ external_id
      → Moves external_id done s row.status
      → Moves external_id (payload ∷ done) s (synced_match payload now row).status
  synced_match-Moves of_match path =
      rw (synced_match-merged payload now row) (elim (Bool-cases (may_change payload row)) [
        | inl h ↦ rw h (
            move of_match path
              (is_allowed-⟶ row.status payload.internal_status (ground (arith, h))))
        | inr h ↦ rw h (stay path)
      ])

  pub synced_match-Follows : Follows row (synced_match payload now row)
  synced_match-Follows =
      rw (synced_match-merged payload now row)
        record { same_id = refl; same_external_id = refl; same_confirmed_at = refl }

  pub synced_match-SameResult :
      is_some row.result_confirmed_at ≡ true → SameResult row (synced_match payload now row)
  synced_match-SameResult confirmed =
      let blocked : takes_result payload row ≡ false = ground (arith, confirmed) in
      rw (synced_match-merged payload now row, blocked) (refl, refl, refl, refl)

  not_moved_again : is_rescheduled payload (merged_match payload now row) ≡ false
  not_moved_again = elim (Bool-cases (is_rescheduled payload row)) [
    | inl h ↦ rw h (ground arith)
    | inr h ↦ rw h (ground (arith, h))
  ]

  not_changed_again : may_change payload (merged_match payload now row) ≡ false
  not_changed_again = elim (Bool-cases (may_change payload row)) [
    | inl h ↦ rw h (rw (beq_self payload.internal_status) refl)
    | inr h ↦ rw h h
  ]

  basics_again : basics_differ payload (merged_match payload now row) ≡ false
  basics_again =
      rw
        (
          beq_self payload.home_team,
          beq_self payload.away_team,
          beq_self payload.competition,
          not_moved_again,
          not_changed_again,
        )
        refl

  result_again :
      (takes_result payload row && result_differs payload (merged_match payload now row)) ≡ false
  result_again = elim (Bool-cases (takes_result payload row)) [
    | inl h ↦
        rw
          (
            h,
            same_self payload.internal_outcome,
            same_self payload.home_score,
            same_self payload.away_score,
          )
          refl
    | inr h ↦ rw h refl
  ]

  -- A second synchronisation with the same payload finds nothing to change.
  pub edit_fixture-synced : (edit_fixture payload (synced_match payload now row)).1 ≡ false
  edit_fixture-synced =
      rw
        (
          synced_match-merged payload now row,
          edit_fixture-merged payload (merged_match payload now row),
          basics_again,
          result_again,
        )
        refl

module _ (payload : ProviderMatchPayload) (new_id : Uuid) (now : DateTime) where
  abbrev fresh : Match
  fresh = new_match payload new_id now

  fresh_basics : basics_differ payload fresh ≡ false
  unfolding new_match
  fresh_basics = elim (Bool-cases (is_some payload.internal_outcome)) [
    | inl h ↦
        rw
          (
            h,
            beq_self payload.home_team,
            beq_self payload.away_team,
            beq_self payload.competition,
            beq_self payload.internal_status,
          )
          (ground arith)
    | inr h ↦
        rw
          (
            h,
            beq_self payload.home_team,
            beq_self payload.away_team,
            beq_self payload.competition,
            beq_self payload.internal_status,
          )
          (ground arith)
  ]

  fresh_result : (takes_result payload fresh && result_differs payload fresh) ≡ false
  unfolding new_match
  fresh_result = elim (Bool-cases (is_some payload.internal_outcome)) [
    | inl h ↦
        rw
          (
            h,
            same_self payload.internal_outcome,
            same_self payload.home_score,
            same_self payload.away_score,
          )
          refl
    | inr h ↦ rw h refl
  ]

  -- Nor does the payload that a row was made from.
  pub edit_fixture-new_match : (edit_fixture payload fresh).1 ≡ false
  edit_fixture-new_match = rw (edit_fixture-merged payload fresh, fresh_basics, fresh_result) refl
