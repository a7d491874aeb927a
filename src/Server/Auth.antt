-- ===== src/Server/Auth.antt =====
-- internal/server/middleware.go and the end of Handler in router.go: what stands before the handlers.
-- The user and the password of a request (Request.BasicAuth) are an argument, `none` where it has none.
use ai_model_scheduler.Base.{
  inr, ok, inl, Bool-cases, arith, eq_iff, err, ◌≢◌, if◌then◌else◌, &&-true, ◌↔◌, ◌&&◌, ◌==◌, ◌≡◌,
  not, String, Bool, Option, refl, none, some, true, false,
}
use ai_model_scheduler.Nomadapi.Api.{Act, return}
use ai_model_scheduler.Settings.{load-IsUsable, load, Sources, Settings}
use ai_model_scheduler.Server.Replies.{Reply}

-- subtle.ConstantTimeCompare of both
unfoldable pub is_authorized : Settings → Option (String × String) → Bool
is_authorized c none = false
is_authorized c (some (user, pass)) = user == c.basic_auth_user && pass == c.basic_auth_pass

-- BasicAuthEnabled
unfoldable pub basic_auth_enabled : Settings → Bool
basic_auth_enabled c = not (c.basic_auth_user == "")

is_authorized_iff :
    (c : Settings) (credentials : Option (String × String))
    → (is_authorized c credentials ≡ true)
      ↔ (credentials ≡ some (c.basic_auth_user, c.basic_auth_pass))
unfolding is_authorized
is_authorized_iff c none = (λ h. cc, λ h. cc)
is_authorized_iff c (some (user, pass)) = (
  λ h.
      let (same_user, same_pass) = (&&-true _ _).0 h in
      rw ((eq_iff user c.basic_auth_user).0 same_user, (eq_iff pass c.basic_auth_pass).0 same_pass)
        refl,
  λ h.
      let user_eq : user ≡ c.basic_auth_user = cc in
      let pass_eq : pass ≡ c.basic_auth_pass = cc in
      (&&-true _ _).1
        ((eq_iff user c.basic_auth_user).1 user_eq, (eq_iff pass c.basic_auth_pass).1 pass_eq),
)

module _ {W A : Type 0} (c : Settings) where
  -- basicAuth
  unfoldable pub basic_auth :
      (Option (String × String) → Act W (Reply String A))
      → Option (String × String)
      → Act W (Reply String A)
  unfolding is_authorized
  basic_auth next credentials =
      if not (is_authorized c credentials)
      then return (401, err "unauthorized")
      else next credentials

  -- Handler; logRequests only logs
  unfoldable pub handler :
      (Option (String × String) → Act W (Reply String A))
      → Option (String × String)
      → Act W (Reply String A)
  unfolding basic_auth basic_auth_enabled
  handler mux = if basic_auth_enabled c then basic_auth mux else mux

  -- Where `load` gives settings with a password, a request that does not carry the user and the
  -- password of the settings is answered with 401 and changes nothing, whatever handlers stand behind.
  pub handler-unauthorized :
      (sources : Sources) (mux : Option (String × String) → Act W (Reply String A))
      (credentials : Option (String × String)) (w : W)
      → load sources ≡ ok c
      → c.basic_auth_pass ≢ ""
      → credentials ≢ some (c.basic_auth_user, c.basic_auth_pass)
      → handler mux credentials w ≡ ((401, err "unauthorized"), w)
  unfolding handler basic_auth basic_auth_enabled return
  handler-unauthorized sources mux credentials w loaded secret other =
      let usable = load-IsUsable sources c loaded in
      let named : c.basic_auth_user ≢ "" = λ e. secret (usable.both_or_neither.0 e) in
      let on : (c.basic_auth_user == "") ≡ false =
        ground (arith, eq_iff c.basic_auth_user "", named) in
      let refused : is_authorized c credentials ≡ false =
        ground (arith, is_authorized_iff c credentials, other) in
      rw (on, refused) refl

  -- A request that carries them goes to the handlers.
  pub handler-authorized :
      (mux : Option (String × String) → Act W (Reply String A)) (w : W)
      → handler mux (some (c.basic_auth_user, c.basic_auth_pass)) w
        ≡ mux (some (c.basic_auth_user, c.basic_auth_pass)) w
  unfolding handler basic_auth return
  handler-authorized mux w =
      let granted = (is_authorized_iff c (some (c.basic_auth_user, c.basic_auth_pass))).1 refl in
      elim (Bool-cases (basic_auth_enabled c)) [ inl e ↦ rw (e, granted) refl | inr e ↦ rw e refl ]
