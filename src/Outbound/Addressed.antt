-- ===== src/Outbound/Addressed.antt =====
-- Where the requests of the pod go, and which of them are authorized.
use Prim.Native.Nat.{ℕ, zero, suc}
use Prim.Native.Char.{code}
use Prim.Native.String
use Prim.Native.String.{String}
use mathlib.Core.Path.{◌≡◌, refl, ap, ◌∙◌, subst}
use mathlib.Core.Logic.{inl, inr}
use mathlib.Core.Bool.{Bool, true, not, ◌&&◌}
use mathlib.Core.Option
use mathlib.Core.Option.{Option, none, some}
use text.Mathlib.Text.{◌==◌}
use native.Mathlib.Omega.{arith}
use text.Mathlib.TextEquality.{eq_iff}
use trustmodel_edge.Prelude.Words.{not-true}
use text.Mathlib.TextLemmas.{cons-append}
use trustmodel_edge.Prelude.Tests.{nat_eq, if◌then◌else◌, Bool-cases}
use trustmodel_edge.Prelude.Text.{strip_right_of}
use trustmodel_edge.Outbound.{
  Outgoing, Request, enroll, rotate, heartbeat, fetch_singular, fetch_plural, post_events, slash,
  base_url, request_of,
}

-- A slash at the end is stripped.
strip_right_of-append :
    (s : String) → strip_right_of slash (String.◌++◌ s "/") ≡ strip_right_of slash s
unfolding strip_right_of
strip_right_of-append String.[] = refl
strip_right_of-append (String.◌∷◌ c s) =
    ap (strip_right_of slash) (cons-append c s "/")
    ∙ ap (λ r. if nat_eq (code c) slash && r == "" then "" else String.◌∷◌ c r)
        (strip_right_of-append s)

-- The setting with `n` slashes behind it.
abbrev pub with_slashes : ℕ → String → String
with_slashes zero url = url
with_slashes (suc n) url = String.◌++◌ (with_slashes n url) "/"

base_url-with_slashes : (n : ℕ) (url : String) → base_url (with_slashes n url) ≡ base_url url
unfolding base_url
base_url-with_slashes zero url = refl
base_url-with_slashes (suc n) url =
    strip_right_of-append (with_slashes n url) ∙ base_url-with_slashes n url

-- The end of the Edge's API for a request.
abbrev pub path_of : Request → String
path_of (enroll _ _ _) = "enroll/"
path_of (rotate _) = "rotate/"
path_of (heartbeat _) = "heartbeat/"
path_of (fetch_singular _) = "policy/current/"
path_of (fetch_plural _) = "policies/active/"
path_of (post_events _ _) = "telemetry/"

-- The token that a request is made with.
abbrev pub token_of : Request → Option String
token_of (enroll _ _ _) = none
token_of (rotate token) = some token
token_of (heartbeat token) = some token
token_of (fetch_singular token) = some token
token_of (fetch_plural token) = some token
token_of (post_events token _) = some token

-- The URL and the header of a request that goes to the Edge's API at `base`.
abbrev pub IsOutgoing : String → Request → Outgoing → Type 0
IsOutgoing base r out =
    (out.url ≡ String.◌++◌ base (String.◌++◌ "/api/v1/edge/" (path_of r)))
    × (out.authorization ≡ Option.map (String.◌++◌ "Bearer ") (token_of r))

request_of-IsOutgoing :
    (url : String) (r : Request) → IsOutgoing (base_url url) r (request_of url r)
unfolding request_of
request_of-IsOutgoing url (enroll token pod fingerprint) = (refl, refl)
request_of-IsOutgoing url (rotate token) = (refl, refl)
request_of-IsOutgoing url (heartbeat token) = (refl, refl)
request_of-IsOutgoing url (fetch_singular token) = (refl, refl)
request_of-IsOutgoing url (fetch_plural token) = (refl, refl)
request_of-IsOutgoing url (post_events token events) = (refl, refl)

-- The last character is no slash.
abbrev pub ends_bare : String → Bool
ends_bare String.[] = true
ends_bare (String.◌∷◌ c s) = if s == "" then not (nat_eq (code c) slash) else ends_bare s

strip_right_of_bare : (s : String) → ends_bare s ≡ true → strip_right_of slash s ≡ s
unfolding strip_right_of
strip_right_of_bare String.[] h = refl
strip_right_of_bare (String.◌∷◌ c s) h = elim (Bool-cases (s == "")) [
  | inl e ↦
      let same : s ≡ "" = (eq_iff s "").0 e in
      let bare : not (nat_eq (code c) slash) ≡ true = rw e at h in rw (same, not-true _ bare) refl
  | inr e ↦ let rest = strip_right_of_bare s (rw e at h) in ground (arith, rest)
]

-- Let the setting of the control plane be a URL that ends with no slash, and then any number of
-- slashes. Every request that leaves the pod goes to that URL and the path of its own in the Edge's
-- API, and carries the token that it is made with as a bearer token; the one that enrolls has none.
pub request_of-addressed :
    (url : String) (r : Request) (n : ℕ)
    → ends_bare url ≡ true
    → IsOutgoing url r (request_of (with_slashes n url) r)
unfolding base_url
request_of-addressed url r n bare =
    subst (λ base. IsOutgoing base r (request_of (with_slashes n url) r))
      (base_url-with_slashes n url ∙ strip_right_of_bare url bare)
      (request_of-IsOutgoing (with_slashes n url) r)
