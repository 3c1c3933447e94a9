-- ===== src/Providers.antt =====
-- What the two clients of app/integrations/providers share: the JSON values that they read, and the
-- reading of a field.
pub mod ApiFootball
pub mod FootballDataOrg
pub mod Shapes
pub mod Payloads
pub mod Live
pub mod Honest
pub mod Competitions
pub mod Scores
use buddy_bet_v.Prelude.{
  ℕ, Bool, true, false, Option, none, some, List, [], ◌∷◌, ◌++◌, String, String-eq, ℕ-eq, ◌==◌,
  if◌then◌else◌,
}
use buddy_bet_v.Exec.{Result, ok, err, Exec, pure, raise, some_or_raise, malformed}
use buddy_bet_v.Models.{DateTime}
use buddy_bet_v.Sync.{ProviderMatchPayload}

-- A number is a count, such as an id or the goals of a team.
mutual
  pub data Json : Type 0 where
    null : Json
    boolean : Bool → Json
    number : ℕ → Json
    text : String → Json
    array : Jsons → Json
    object : Fields → Json

  pub data Jsons : Type 0 where
    no_more : Jsons
    item : Json → Jsons → Jsons

  pub data Fields : Type 0 where
    closed : Fields
    field : String → Json → Fields → Fields

-- What the code calls of datetime and of the methods of texts.
pub record ProviderLibraries : Type 0 where
  -- `datetime.fromisoformat`, in UTC
  pub parse_iso : String → Option DateTime
  -- `text.strip().upper()`
  pub strip_upper : String → String
  -- `text.replace("Z", "+00:00")`
  pub with_offset : String → String
  -- a value in an f-string
  pub format : Json → String

-- `fields.get(key, default)`; the keys of an object differ.
abbrev pub lookup : String → Json → Fields → Json
lookup key default closed = default
lookup key default (field name value fields) =
    if name == key then value else lookup key default fields

abbrev pub empty_object : Json
empty_object = object closed

-- `not value`
abbrev pub is_falsy : Json → Bool
is_falsy null = true
is_falsy (boolean true) = false
is_falsy (boolean false) = true
is_falsy (number n) = n == 0
is_falsy (text s) = s == ""
is_falsy (array no_more) = true
is_falsy (array (item _ _)) = false
is_falsy (object closed) = true
is_falsy (object (field _ _ _)) = false

module _ {S : Type 0} where
  -- `value.get(key, default)`, which only an object has
  abbrev pub get_field : String → Json → Json → Exec S Json
  get_field key default (object fields) = pure (lookup key default fields)
  get_field key default _ = raise malformed

  -- A text is expected here; with another value the code goes wrong here or where the text is used.
  abbrev pub text_of : Json → Exec S String
  text_of (text s) = pure s
  text_of _ = raise malformed

  -- A number or nothing is expected here.
  abbrev pub score_of : Json → Exec S (Option ℕ)
  score_of null = pure none
  score_of (number n) = pure (some n)
  score_of _ = raise malformed

  abbrev pub date_of : ProviderLibraries → Json → Exec S DateTime
  date_of lib (text s) = some_or_raise malformed (lib.parse_iso s)
  date_of lib _ = raise malformed

  -- `if missing: return None`
  abbrev pub unless : {A : Type 0} → Bool → Exec S (Option A) → Exec S (Option A)
  unless true k = pure none
  unless false k = k

-- One turn of the loop, given how the parser ended, and the payloads of the later turns.
abbrev pub collect :
    Result (Option ProviderMatchPayload)
    → Result Json
    → Result (List ProviderMatchPayload)
    → Result (List ProviderMatchPayload)
collect (ok none) message rest = rest
collect (ok (some payload)) message (ok payloads) = ok (payload ∷ payloads)
collect (ok (some payload)) message (err e) = err e
collect (err _) (ok _) rest = rest
collect (err _) (err e) rest = err e

-- `league_ids or self._default_league_ids`
abbrev pub ids_or : List ℕ → Option (List ℕ) → List ℕ
ids_or default none = default
ids_or default (some []) = default
ids_or default (some (id ∷ ids)) = id ∷ ids

abbrev pub append_all :
    Result (List ProviderMatchPayload)
    → Result (List ProviderMatchPayload)
    → Result (List ProviderMatchPayload)
append_all (ok first) (ok rest) = ok (first ++ rest)
append_all (ok first) (err e) = err e
append_all (err e) rest = err e

abbrev pub keep :
    (ProviderMatchPayload → Bool) → List ProviderMatchPayload → List ProviderMatchPayload
keep test [] = []
keep test (payload ∷ payloads) =
    if test payload then payload ∷ keep test payloads else keep test payloads

abbrev pub keep_all :
    (ProviderMatchPayload → Bool)
    → Result (List ProviderMatchPayload)
    → Result (List ProviderMatchPayload)
keep_all test (ok payloads) = ok (keep test payloads)
keep_all test (err e) = err e
