-- ===== src/Routes/Token/Paired.antt =====
-- The pair of keys that `_key_state` of src/edge/routes/oauth.py keeps on `app.state`.
use Prim.Native.String.{String}
use mathlib.Core.Path.{◌≡◌, refl, sym, ap, ◌∙◌, subst}
use mathlib.Core.Logic.{inl, inr}
use mathlib.Core.Bool.{◌||◌}
use mathlib.Core.Option
use mathlib.Core.Option.{Option, some}
use native.Mathlib.Omega.{arith}
use text.Mathlib.Text.{◌==◌}
use trustmodel_edge.Prelude.Tests.{Bool-cases, Option-cases}
use trustmodel_edge.Prelude.Text.{strip}
use trustmodel_edge.Oauth.{Crypto}
use trustmodel_edge.Routes.{
  AppState, Keys, keys, load_private_key_pem, read_keys, cached_pair, key_state, public_key,
}

-- The public key on `app.state` is that of the private key there.
abbrev pub IsPaired : Crypto → AppState → Type 0
IsPaired crypto state =
    (p q : String)
    → state.private_key ≡ some p
    → state.public_key ≡ some q
    → crypto.public_key_of p ≡ some q

cached_keys :
    (state : AppState) (p q : String)
    → cached_pair state ≡ some (p, q)
    → (state.private_key ≡ some p) × (state.public_key ≡ some q)
cached_keys state p q h = elim (Option-cases state.private_key) [
  | inl e ↦ absurd (cc (rw e at h))
  | inr (a, e) ↦ elim (Option-cases state.public_key) [
    | inl f ↦ absurd (ground (arith, rw (e, f) at h))
    | inr (b, f) ↦ elim (Bool-cases (a == "" || b == "")) [
      | inl g ↦ absurd (cc (rw (e, f, g) at h))
      | inr g ↦
          let same : some (a, b) ≡ some (p, q) = rw (e, f, g) at h in
          (e ∙ ap (Option.map (λ r. r.0)) same, f ∙ ap (Option.map (λ r. r.1)) same)
    ]
  ]
]

-- The keys `p` and `q` are on `app.state`, and belong together.
abbrev pub Kept : Crypto → AppState → String → String → Type 0
Kept crypto after p q =
    (after.private_key ≡ some p) × (after.public_key ≡ some q) × (crypto.public_key_of p ≡ some q)

some-eq : {a b : String} → some a ≡ some b → a ≡ b
some-eq h = cc

keys-eq : {a b : String × String} → keys a ≡ keys b → a ≡ b
keys-eq h = cc

given :
    (crypto : Crypto) (before after : AppState) (pair : String × String) (p q : String)
    → Kept crypto before pair.0 pair.1
    → ◌≡◌ {A = AppState × Keys (String × String)} (before, keys pair) (after, keys (p, q))
    → Kept crypto after p q
given crypto before after pair p q kept h =
    let same_keys = keys-eq (ap (λ r. r.1) h) in
    subst (λ (s : AppState). Kept crypto s p q) (ap (λ r. r.0) h)
      (subst (λ (k : String × String). Kept crypto before k.0 k.1) same_keys kept)

module _ (crypto : Crypto) (missing : String) (key_file : Option String) where
  read_keys-Kept :
      (state after : AppState) (p q : String)
      → read_keys crypto missing key_file state ≡ (after, keys (p, q))
      → Kept crypto after p q
  unfolding read_keys load_private_key_pem
  read_keys-Kept state after p q h = elim (Option-cases key_file) [
    | inl e ↦ absurd (cc (rw (e, read_keys) at h))
    | inr (text, e) ↦ elim (Option-cases (crypto.public_key_of (strip text))) [
      | inl f ↦ absurd (cc (rw (e, f, read_keys) at h))
      | inr (key, f) ↦
          let read : AppState = record { private_key = some (strip text); public_key = some key } in
          given crypto read after (strip text, key) p q (refl, refl, f) (rw (e, f, read_keys) at h)
    ]
  ]

  -- What a call of `_key_state` gives is on `app.state` behind it, and belongs together, if what was
  -- there before did.
  pub key_state-Kept :
      (state after : AppState) (p q : String)
      → IsPaired crypto state
      → key_state crypto missing key_file state ≡ (after, keys (p, q))
      → Kept crypto after p q
  unfolding key_state
  key_state-Kept state after p q paired h = elim (Option-cases (cached_pair state)) [
    | inl e ↦ read_keys-Kept state after p q (rw (e, key_state) at h)
    | inr (pair, e) ↦
        let (first, second) = cached_keys state pair.0 pair.1 e in
        given crypto state after pair p q (first, second, paired pair.0 pair.1 first second)
          (rw (e, key_state) at h)
  ]

  -- `_public_key` of the decisions then gives that public key.
  pub public_key-Kept :
      (after : AppState) (p q : String)
      → Kept crypto after p q
      → (public_key crypto missing key_file after).1 ≡ keys q
  unfolding public_key
  public_key-Kept after p q kept = rw (kept.1, public_key)

pub Kept-IsPaired :
    (crypto : Crypto) (after : AppState) (p q : String)
    → Kept crypto after p q
    → IsPaired crypto after
Kept-IsPaired crypto after p q (first, second, pair) p' q' h k =
    ap crypto.public_key_of (some-eq (sym h ∙ first)) ∙ pair ∙ (sym second ∙ k)
