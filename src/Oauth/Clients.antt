-- ===== src/Oauth/Clients.antt =====
-- Which client `find_authorized_client` of src/edge/oauth.py finds.
use Prim.Native.String.{String}
use mathlib.Core.Path.{◌≡◌, sym, ap, ◌∙◌}
use mathlib.Core.Logic.{inl, inr}
use mathlib.Core.Bool.{true}
use mathlib.Core.Option.{some}
use mathlib.Core.List.{List, [], ◌∷◌, Memᴰ}
use native.Mathlib.Omega.{arith}
use text.Mathlib.Text.{◌==◌}
use text.Mathlib.TextEquality.{eq_iff}
use trustmodel_edge.Prelude.Tests.{Bool-cases}
use trustmodel_edge.Policy.Bundle.{AuthorizedClient}
use trustmodel_edge.Oauth.{find_authorized_client}

option-eq : {x y : AuthorizedClient} → some x ≡ some y → x ≡ y
option-eq h = cc h

string-eq : (s t : String) → (s == t) ≡ true → s ≡ t
string-eq s t h = ground (arith, eq_iff s t)

pub found-Memᴰ :
    (id : String) (clients : List AuthorizedClient) (client : AuthorizedClient)
    → find_authorized_client id clients ≡ some client
    → Memᴰ client clients × (client.client_id ≡ id)
unfolding find_authorized_client
found-Memᴰ id [] client h = absurd (cc)
found-Memᴰ id (c ∷ clients) client h = elim (Bool-cases (c.client_id == id)) [
  | inl e ↦
      let same = option-eq (rw (e, find_authorized_client) at h) in
      (Memᴰ.head (sym same), ap (λ k. k.client_id) (sym same) ∙ string-eq _ _ e)
  | inr e ↦
      let (later, same) = found-Memᴰ id clients client (rw (e, find_authorized_client) at h) in
      (Memᴰ.tail later, same)
]
