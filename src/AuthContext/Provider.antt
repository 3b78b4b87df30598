-- ===== src/AuthContext/Provider.antt =====
-- The context itself: what AuthProvider provides, and useAuth.
use hcl_assignment.Common.{String, Bool, Option, none, some, ◌≡◌, refl}
use hcl_assignment.Services.Model.{User}
use hcl_assignment.AuthContext.{AuthState, is_authenticated}
use hcl_assignment.Routes.{Page, Shown, protected_layout, public_auth_layout}

-- The value of the context, less its three functions, which are the handlers of AuthContext.
pub record AuthValue : Type 0 where
  pub user : Option User
  pub is_loading : Bool
  pub is_authenticated : Bool

-- What a hook returns, or the message of the error that it throws.
pub data Hooked (A : Type 0) : Type 0 where
  returns : A → Hooked A
  throws : String → Hooked A

infixl 5 ◌>>=◌
abbrev pub ◌>>=◌ : {A B : Type 0} → Hooked A → (A → Hooked B) → Hooked B
returns a >>= f = f a
throws message >>= f = throws message

-- The provider's value for its children.
unfoldable pub auth_provider : AuthState → Option AuthValue
auth_provider s =
    some
      (record { user = s.user; is_loading = s.is_loading; is_authenticated = is_authenticated s })

-- The value of the nearest provider; without one it is undefined.
unfoldable pub use_auth : Option AuthValue → Hooked AuthValue
use_auth none = throws "useAuth must be used inside AuthProvider"
use_auth (some ctx) = returns ctx

-- The two layouts of App.tsx, as components below a provider or not.
unfoldable pub protected_route : Option AuthValue → Page → Hooked Shown
unfolding use_auth
protected_route ctx p = do
  auth ← use_auth ctx
  returns (protected_layout auth.is_authenticated auth.is_loading p)

unfoldable pub guest_route : Option AuthValue → Page → Hooked Shown
unfolding use_auth
guest_route ctx p = do
  auth ← use_auth ctx
  returns (public_auth_layout auth.is_authenticated auth.is_loading p)

-- Below the provider the layouts decide by the session; without one they throw.
pub routes-auth_provider :
    (s : AuthState) (p : Page)
    → (protected_route (auth_provider s) p
        ≡ returns (protected_layout (is_authenticated s) s.is_loading p))
      × (guest_route (auth_provider s) p
          ≡ returns (public_auth_layout (is_authenticated s) s.is_loading p))
      × (protected_route none p ≡ guest_route none p)
unfolding protected_route guest_route auth_provider
routes-auth_provider s p = (refl, refl, refl)
