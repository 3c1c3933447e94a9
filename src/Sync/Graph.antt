-- ===== src/Sync/Graph.antt =====
-- `_ALLOWED_TRANSITIONS` of app/integrations/sync_service.py as a relation, and the way of a status
-- while payloads are written.
use buddy_bet_v.Prelude.{◌≡◌, refl, arith, Bool, true, false, List, [], ◌∷◌, String}
use buddy_bet_v.Models.Enums.{MatchStatus, scheduled, live, completed, postponed, abandoned}
use buddy_bet_v.Sync.{ProviderMatchPayload, is_allowed}

infix 40 ◌⟶◌
pub data ◌⟶◌ : MatchStatus → MatchStatus → Type 0 where
  kick_off : scheduled ⟶ live
  play : scheduled ⟶ completed
  postpone : scheduled ⟶ postponed
  cancel : scheduled ⟶ MatchStatus.cancelled
  abandon : scheduled ⟶ abandoned
  finish : live ⟶ completed
  interrupt : live ⟶ postponed
  call_off : live ⟶ MatchStatus.cancelled
  break_off : live ⟶ abandoned
  reschedule : postponed ⟶ scheduled

-- The way of the status of one match while payloads were written, the latest of them first: a payload
-- leaves the status as it is, or it is one of the match, and an allowed transition leads to its status.
pub data Moves (external_id : String)
    : List ProviderMatchPayload → MatchStatus → MatchStatus → Type 0 where
  begin : {s : MatchStatus} → Moves external_id [] s s
  stay :
      {payload : ProviderMatchPayload} {done : List ProviderMatchPayload} {s t : MatchStatus}
      → Moves external_id done s t
      → Moves external_id (payload ∷ done) s t
  move :
      {payload : ProviderMatchPayload} {done : List ProviderMatchPayload} {s t : MatchStatus}
      → payload.external_id ≡ external_id
      → Moves external_id done s t
      → t ⟶ payload.internal_status
      → Moves external_id (payload ∷ done) s payload.internal_status

pub idle :
    {external_id : String} (done : List ProviderMatchPayload) (s : MatchStatus)
    → Moves external_id done s s
idle [] s = begin
idle (payload ∷ done) s = stay (idle done s)

ruleset edges =
    (kick_off, play, postpone, cancel, abandon, finish, interrupt, call_off, break_off, reschedule)

pub is_allowed-⟶ : (s t : MatchStatus) → is_allowed s t ≡ true → s ⟶ t
is_allowed-⟶ s t h = grind (arith, edges)

-- The statuses that no transition leaves.
abbrev pub is_final : MatchStatus → Bool
is_final MatchStatus.completed = true
is_final MatchStatus.cancelled = true
is_final MatchStatus.abandoned = true
is_final _ = false

final-⟶ : {s t : MatchStatus} → s ⟶ t → is_final s ≡ false
final-⟶ kick_off = refl
final-⟶ play = refl
final-⟶ postpone = refl
final-⟶ cancel = refl
final-⟶ abandon = refl
final-⟶ finish = refl
final-⟶ interrupt = refl
final-⟶ call_off = refl
final-⟶ break_off = refl
final-⟶ reschedule = refl

pub final-Moves :
    {external_id : String} {done : List ProviderMatchPayload} {s t : MatchStatus}
    → is_final s ≡ true
    → Moves external_id done s t
    → t ≡ s
final-Moves h begin = refl
final-Moves h (stay path) = final-Moves h path
final-Moves h (move of_match path last) =
    let same = final-Moves h path in absurd (ground (arith, h, final-⟶ last, same))
