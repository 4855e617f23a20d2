-- ===== src/Server/Auth.antt =====
-- Who gets past `requireAuth` of internal/api/server.go.
use text.Mathlib.Text.{starts_with}
use text.Mathlib.TextEquality.{starts_with_iff}
use text.Mathlib.TextLemmas.{nil-append, cons-append}
use text.Mathlib.TextPositions.{starts_with-append}
use smith.Prelude.Text.{append, ◌==◌, eq_iff, eq_refl}
use smith.Prelude.{
  String, ◌≡◌, refl, sym, ap, ◌∙◌, ◌↔◌, Bool, true, false, not, arith, refuse_if_passed, refuse_if,
  ok,
}
use smith.Server.{require_auth, bad_token, trim_prefix}

trim_prefix-append : (p t : String) → trim_prefix p (append p t) ≡ t
unfolding trim_prefix
trim_prefix-append String.[] t = nil-append t
trim_prefix-append (String.◌∷◌ c p) t =
    ap (trim_prefix (String.◌∷◌ c p)) (cons-append c p t) ∙ trim_prefix-append p t

checks_pass :
    (token auth : String)
    → starts_with auth "Bearer " ≡ true
    → trim_prefix "Bearer " auth ≡ token
    → require_auth token auth ≡ ok tt
unfolding require_auth
checks_pass token auth h same = unfold require_auth in rw h (rw same (rw (eq_refl token) refl))

token_matches : (b : Bool) → (refuse_if (not b) bad_token) ≡ ok tt → b ≡ true
token_matches true h = refl
token_matches false h = cc

-- A request passes exactly when its Authorization header is the word Bearer, a space and the token.
pub require_auth_iff :
    (token auth : String) → (require_auth token auth ≡ ok tt) ↔ (auth ≡ append "Bearer " token)
unfolding require_auth
require_auth_iff token auth = (
  (λ h.
      let (has_bearer, h1) = refuse_if_passed (not (starts_with auth "Bearer ")) _ _ h in
      let (u, e) = (starts_with_iff auth "Bearer ").0 (ground arith) in
      let same =
        (eq_iff (trim_prefix "Bearer " auth) token).0
          (token_matches (trim_prefix "Bearer " auth == token) h1) in
      sym e
      ∙ ap (append "Bearer ")
          (sym (trim_prefix-append "Bearer " u) ∙ ap (trim_prefix "Bearer ") e ∙ same)),
  (λ e.
      checks_pass token auth (rw e (starts_with-append "Bearer " token))
        (rw e (trim_prefix-append "Bearer " token))),
)
