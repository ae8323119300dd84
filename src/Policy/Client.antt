-- ===== src/Policy/Client.antt =====
-- src/edge/policy/client.py. The gateway's replies are arguments, one for each request; minting the
-- certificate's token may raise.
use Prim.Native.Nat.{ℕ}
use Prim.Native.String.{String}
use mathlib.Core.Bool.{not}
use mathlib.Core.Option
use mathlib.Core.Option.{Option, none, some}
use mathlib.Core.List.{List, [], ◌∷◌}
use trustmodel_edge.Prelude.Tests.{nat_eq, if◌then◌else◌, or_else}
use trustmodel_edge.Policy.Cache.Loading.{list_of}
use trustmodel_edge.Value.{Value, list, dict, no_items, get_field}
use trustmodel_edge.Policy.Bundle.{AuthorizedClient, EdgePolicy}
use trustmodel_edge.Policy.Disk.{Codec}
use trustmodel_edge.Telemetry.Sender.{is_success}

-- How a request ends: no certificate to mint with, a transport error, or a response with its status,
-- its text and, if it is JSON, its value.
pub data Reply : Type 0 where
  unminted : Reply
  transport_error : String → Reply
  response : ℕ → String → Option Value → Reply

-- A result, `PolicyNotFound`, `PolicyFetchError`, or another exception; without the texts.
pub data Fetched {ℓ} (A : Type ℓ) : Type ℓ where
  fetched : A → Fetched A
  not_found : Fetched A
  fetch_error : Fetched A
  fetch_raised : Fetched A

abbrev fetched_or_error {ℓ} : {A : Type ℓ} → Option A → Fetched A
fetched_or_error none = fetch_error
fetched_or_error (some a) = fetched a

-- `_http_get`
unfoldable http_get : Reply → Fetched Value
http_get unminted = fetch_raised
http_get (transport_error e) = fetch_error
http_get (response code text json) =
    if nat_eq code 404
    then not_found
    else if not (is_success code)
    then fetch_error
    else fetched_or_error json

-- The plural endpoint's result.
pub record Active : Type 0 where
  pub policies : List EdgePolicy
  pub primary_name : Option String
  pub clients : List AuthorizedClient

-- `next((p.bundle.name for p in policies if p.is_primary), None)`
unfoldable first_primary : List EdgePolicy → Option String
first_primary [] = none
first_primary (p ∷ ps) = if p.is_primary then some p.bundle.name else first_primary ps

-- `[f(v) for v in vs]`, where one failure is the failure of all.
unfoldable validate_all {ℓ} : {A : Type ℓ} → (Value → Option A) → List Value → Option (List A)
validate_all f [] = some []
validate_all f (v ∷ vs) = elim (f v) [
  | none ↦ none
  | some a ↦ Option.map (λ rest. a ∷ rest) (validate_all f vs)
]

-- The members `policies` and `authorized_clients`; `none` is KeyError or TypeError.
abbrev raw_parts : Value → Option (Value × Value)
raw_parts (dict fs) =
    Option.map (λ ps. (ps, or_else (get_field "authorized_clients" fs) (list no_items)))
      (get_field "policies" fs)
raw_parts _ = none

module _ (codec : Codec) (validate_client : Value → Option AuthorizedClient) where
  abbrev validated : Fetched Value → Fetched EdgePolicy
  validated (fetched payload) = fetched_or_error (codec.validate payload)
  validated not_found = not_found
  validated fetch_error = fetch_error
  validated fetch_raised = fetch_raised

  unfoldable pub fetch : Reply → Fetched EdgePolicy
  unfolding http_get
  fetch reply = validated (http_get reply)

  abbrev active : List EdgePolicy → List AuthorizedClient → Active
  active ps cs = record { policies = ps; primary_name = first_primary ps; clients = cs }

  -- Both lists validated, policies first.
  unfoldable read_active : Value → Value → Option Active
  unfolding validate_all first_primary
  read_active raw_policies raw_clients = elim (list_of raw_policies) [
    | none ↦ none
    | some ps ↦ elim (validate_all codec.validate ps) [
      | none ↦ none
      | some policies ↦ elim (list_of raw_clients) [
        | none ↦ none
        | some cs ↦ Option.map (active policies) (validate_all validate_client cs)
      ]
    ]
  ]

  abbrev alone : EdgePolicy → Active
  alone one = record {
    policies = one ∷ [];
    primary_name = some one.bundle.name;
    clients = one.authorized_clients;
  }

  abbrev fallen_back : Fetched EdgePolicy → Fetched Active
  fallen_back (fetched one) = fetched (alone one)
  fallen_back not_found = not_found
  fallen_back fetch_error = fetch_error
  fallen_back fetch_raised = fetch_raised

  abbrev read_plural : Value → Fetched Active
  read_plural payload = elim (raw_parts payload) [
    | none ↦ fetch_error
    | some parts ↦ fetched_or_error (read_active parts.0 parts.1)
  ]

  -- The second reply is that of the singular endpoint, which is asked when the plural one is not
  -- found.
  unfoldable pub fetch_all : Reply → Reply → Fetched Active
  unfolding http_get fetch read_active
  fetch_all plural singular = elim (http_get plural) [
    | fetched payload ↦ read_plural payload
    | not_found ↦ fallen_back (fetch singular)
    | fetch_error ↦ fetch_error
    | fetch_raised ↦ fetch_raised
  ]
