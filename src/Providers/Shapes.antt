-- ===== src/Providers/Shapes.antt =====
-- Which answers of API-Football (app/integrations/providers/api_football.py) `_normalize_fixtures` gets
-- through.
use buddy_bet_v.Prelude.{
  ◌≡◌, ◌∙◌, ap, ◌++◌, some, none, if◌then◌else◌, Bool-cases, inl, inr, refl, arith, ◌&&◌, Bool,
  true, false, Option, List, [], ◌∷◌, String,
}
use buddy_bet_v.Exec.{Result, ok, err, malformed}
use buddy_bet_v.Sync.{ProviderMatchPayload}
use buddy_bet_v.Providers.{
  collect, Json, null, boolean, number, text, array, object, ProviderLibraries, lookup,
  empty_object, get_field,
}
use buddy_bet_v.Providers.ApiFootball.{parse_fixture, parsed, message_of, normalize_fixtures}

abbrev pub is_object : Json → Bool
is_object (object _) = true
is_object _ = false

-- The record is an object, and so is what it has under "fixture", if anything.
abbrev pub has_fixture : Json → Bool
has_fixture (object fields) = is_object (lookup "fixture" empty_object fields)
has_fixture _ = false

abbrev pub all_shaped : List Json → Bool
all_shaped [] = true
all_shaped (raw ∷ raws) = has_fixture raw && all_shaped raws

abbrev pub is_ok : {A : Type 0} → Result A → Bool
is_ok (ok _) = true
is_ok (err _) = false

no_get :
    (key : String) (default value : Json)
    → is_object value ≡ false
    → get_field key default value tt ≡ (err malformed, tt)
no_get key default null h = refl
no_get key default (boolean _) h = refl
no_get key default (number _) h = refl
no_get key default (text _) h = refl
no_get key default (array _) h = refl
no_get key default (object _) h = absurd (ground arith)

module _ (lib : ProviderLibraries) where
  of_fixture : (fixture : Json) → is_ok (get_field "id" (text "?") fixture tt).0 ≡ is_object fixture
  of_fixture null = refl
  of_fixture (boolean _) = refl
  of_fixture (number _) = refl
  of_fixture (text _) = refl
  of_fixture (array _) = refl
  of_fixture (object _) = refl

  message_of-ok : (raw : Json) → is_ok (message_of lib raw) ≡ has_fixture raw
  message_of-ok null = refl
  message_of-ok (boolean _) = refl
  message_of-ok (number _) = refl
  message_of-ok (text _) = refl
  message_of-ok (array _) = refl
  message_of-ok (object fields) = of_fixture (lookup "fixture" empty_object fields)

  unshaped : (raw : Json) → has_fixture raw ≡ false → parsed lib raw ≡ err malformed
  unfolding parse_fixture
  unshaped null h = refl
  unshaped (boolean _) h = refl
  unshaped (number _) h = refl
  unshaped (text _) h = refl
  unshaped (array _) h = refl
  unshaped (object fields) h =
      rw (parsed, no_get "id" null (lookup "fixture" empty_object fields) h) refl

  message_of-err : (raw : Json) → has_fixture raw ≡ false → message_of lib raw ≡ err malformed
  message_of-err null h = refl
  message_of-err (boolean _) h = refl
  message_of-err (number _) h = refl
  message_of-err (text _) h = refl
  message_of-err (array _) h = refl
  message_of-err (object fields) h =
      ap (λ out. out.0) (no_get "id" (text "?") (lookup "fixture" empty_object fields) h)

  -- The payloads of the records that parse, each on its own.
  abbrev pub payload_if_any : Result (Option ProviderMatchPayload) → List ProviderMatchPayload
  payload_if_any (ok (some payload)) = payload ∷ []
  payload_if_any (ok none) = []
  payload_if_any (err _) = []

  abbrev pub payloads_alone : List Json → List ProviderMatchPayload
  payloads_alone [] = []
  payloads_alone (raw ∷ raws) = payload_if_any (parsed lib raw) ++ payloads_alone raws

  abbrev pub all_or_none : List Json → Result (List ProviderMatchPayload)
  all_or_none raws = if all_shaped raws then ok (payloads_alone raws) else err malformed

  -- One turn with a record that has a handler.
  turn :
      (out : Result (Option ProviderMatchPayload)) (message : Result Json) (b : Bool)
      (rest : List ProviderMatchPayload)
      → is_ok message ≡ true
      → collect out message (if b then ok rest else err malformed)
        ≡ (if b then ok (payload_if_any out ++ rest) else err malformed)
  turn (ok none) message b rest h = refl
  turn (ok (some payload)) message true rest h = refl
  turn (ok (some payload)) message false rest h = refl
  turn (err e) (ok _) b rest h = ground arith
  turn (err e) (err _) b rest h = absurd (ground (arith, h))

  -- `_normalize_fixtures` raises if some record of the answer is no object, or is one whose "fixture" is
  -- there and is no object. Otherwise it returns, in their order, the payloads that the records parse to,
  -- and a record that does not parse costs no other record its payload.
  pub normalize_fixtures-alone : (raws : List Json) → normalize_fixtures lib raws ≡ all_or_none raws
  unfolding normalize_fixtures
  normalize_fixtures-alone [] = refl
  normalize_fixtures-alone (raw ∷ raws) = elim (Bool-cases (has_fixture raw)) [
    | inl shaped ↦
        rw (shaped, normalize_fixtures-alone raws)
          (turn (parsed lib raw) (message_of lib raw) (all_shaped raws) (payloads_alone raws)
            (message_of-ok raw ∙ shaped))
    | inr broken ↦ rw (broken, unshaped raw broken, message_of-err raw broken) refl
  ]
