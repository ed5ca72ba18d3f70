-- ===== src/AdminPanel/Access.antt =====
-- What the administration shows, and to whom.
use cross_platform_media_sha.Base.{
  ◌≡◌, ◌≢◌, ◌⊎◌, ◌∙◌, refl, true, false, List, [], ◌∷◌, any, arith, drop, inl, inr, Bool-cases,
}
use cross_platform_media_sha.Text.{
  Bytes, Unicode, lit, same, same_iff, trim, to_lower, has_prefix, is_empty,
}
use cross_platform_media_sha.Database.Store.{Store, ok}
use cross_platform_media_sha.Database.Pending.{Json}
use cross_platform_media_sha.AdminPanel.{
  PanelConfig, Request, Response, failure, is_authorized, serve,
}

-- the paths of the interface
abbrev pub api_paths : List Bytes
api_paths = lit "/admin/api/summary" ∷ lit "/admin/api/pairings" ∷ lit "/admin/api/chat-stats" ∷ []

abbrev refusal : Response
refusal = record { status = 401; body = failure (lit "unauthorized") }

-- The request carries the token: in its own header, or, where that is blank, behind `Bearer` in the
-- header for authorizations. An empty token is carried by nothing.
abbrev pub CarriesToken : ⦃u : Unicode⦄ → Request → Bytes → Type 0
CarriesToken r token =
    (trim token ≢ [])
    × ((trim r.x_admin_token ≡ trim token)
        ⊎ ((trim r.x_admin_token ≡ [])
            × ((has_prefix (to_lower (trim r.authorization)) (lit "bearer ") ≡ true)
                × (trim (drop 7 (trim r.authorization)) ≡ trim token))))

is_empty_of : (s : Bytes) → s ≡ [] → is_empty s ≡ true
is_empty_of s e = rw e refl

empty_of : (s : Bytes) → is_empty s ≡ true → s ≡ []
empty_of [] h = refl
empty_of (c ∷ s) h = cc h

-- Whoever is authorized carries the token.
authorized-CarriesToken :
    ⦃u : Unicode⦄ (r : Request) (token : Bytes)
    → is_authorized r token ≡ true
    → CarriesToken r token
unfolding is_authorized
authorized-CarriesToken r token h = elim (Bool-cases (is_empty (trim r.x_admin_token))) [
  | inr e ↦
      let found = (same_iff (trim r.x_admin_token) (trim token)).0 (ground (arith, e, h)) in
      ((λ n. cc (e, is_empty_of (trim r.x_admin_token) (found ∙ n))), inl found)
  | inl e ↦ elim (Bool-cases (has_prefix (to_lower (trim r.authorization)) (lit "bearer "))) [
    | inr p ↦ absurd (ground (arith, e, p, h))
    | inl p ↦
        let given = trim (drop 7 (trim r.authorization)) in
        let found = (same_iff given (trim token)).0 (ground (arith, e, p, h)) in
        let filled : is_empty given ≡ false = ground (arith, e, p, h) in
        (
          (λ n. cc (filled, is_empty_of given (found ∙ n))),
          inr (empty_of (trim r.x_admin_token) e, (p, found)),
        )
  ]
]

-- A request that does not carry the token gets no data: on each path of the interface it is answered
-- with 401, and the database is not asked at all.
pub serve_unauthorized :
    ⦃j : Json⦄ ⦃u : Unicode⦄ (cfg : PanelConfig) (r : Request) (s : Store)
    → any (same r.path) api_paths ≡ true
    → (CarriesToken r cfg.token → ⊥)
    → serve cfg r s ≡ (ok refusal, s)
unfolding serve
serve_unauthorized cfg r s p h = elim (Bool-cases (is_authorized r cfg.token)) [
  | inl e ↦ absurd (h (authorized-CarriesToken r cfg.token e))
  | inr e ↦ ground (arith, p, e)
]
