-- ===== src/Routes/Guards.antt =====
-- What the guards let through.
use hcl_assignment.Common.{
  String, Bool, true, false, List, [], ◌∷◌, ◌≡◌, ◌⊎◌, inl, inr, Option-cases, refl, All, arith,
}
use hcl_assignment.Routes.{
  Page, landing, login, signup, dashboard, create_poll, manage_poll, Shown, page, spinner, redirect,
  resolve, Guard, open_to_all, guest_only, signed_in_only, Route, guarded, find_route, routes,
  match,
}

-- The pages of a signed-in user, and those of a guest.
abbrev pub is_protected : Page → Bool
is_protected dashboard = true
is_protected create_poll = true
is_protected (manage_poll id) = true
is_protected _ = false

abbrev pub is_guest_page : Page → Bool
is_guest_page login = true
is_guest_page signup = true
is_guest_page _ = false

abbrev needs_user : Guard → Bool
needs_user signed_in_only = true
needs_user _ = false

abbrev needs_guest : Guard → Bool
needs_guest guest_only = true
needs_guest _ = false

record WellGuarded (r : Route) : Type 0 where
  user : (v : String) → is_protected (r.element v) ≡ needs_user r.guard
  guest : (v : String) → is_guest_page (r.element v) ≡ needs_guest r.guard

routes-WellGuarded : All WellGuarded routes
routes-WellGuarded = ground arith

abbrev pub Allowed : Bool → Bool → Page → Type 0
Allowed a l p =
    (is_protected p ≡ true → (a ≡ true) × (l ≡ false))
    × (is_guest_page p ≡ true → (a ≡ false) × (l ≡ false))

guarded-Allowed :
    (g : Guard) (a l : Bool) (q p : Page)
    → is_protected q ≡ needs_user g
    → is_guest_page q ≡ needs_guest g
    → guarded g a l q ≡ page p
    → Allowed a l p
unfolding guarded
guarded-Allowed open_to_all a l q p u g h = ground arith
guarded-Allowed guest_only a l q p u g h = ground arith
guarded-Allowed signed_in_only a l q p u g h = ground arith

find_route-Allowed :
    (rs : List Route) (path : List String) (a l : Bool) (p : Page)
    → All WellGuarded rs
    → find_route rs path a l ≡ page p
    → Allowed a l p
unfolding find_route
find_route-Allowed [] path a l p w h = cc
find_route-Allowed (r ∷ rs) path a l p w h = elim (Option-cases (match r.path path)) [
  | inl miss ↦ find_route-Allowed rs path a l p w.1 (rw (miss, find_route) at h)
  | inr (v, hit) ↦
      guarded-Allowed r.guard a l (r.element v) p (w.0.user v) (w.0.guest v)
        (rw (hit, find_route) at h)
]

resolve-Allowed :
    (path : List String) (a l : Bool) (p : Page) → resolve path a l ≡ page p → Allowed a l p
unfolding resolve
resolve-Allowed path a l p h = find_route-Allowed routes path a l p routes-WellGuarded h

-- At any path, the dashboard, the form for a poll and the management of a poll are shown only to a
-- signed-in user, and not while the session is being restored.
pub resolve-protected :
    (path : List String) (a l : Bool) (p : Page)
    → resolve path a l ≡ page p
    → is_protected p ≡ true
    → (a ≡ true) × (l ≡ false)
resolve-protected path a l p h u = (resolve-Allowed path a l p h).0 u

-- At any path, the login and the signup are shown only to a guest, and not while the session is being
-- restored.
pub resolve-guest :
    (path : List String) (a l : Bool) (p : Page)
    → resolve path a l ≡ page p
    → is_guest_page p ≡ true
    → (a ≡ false) × (l ≡ false)
resolve-guest path a l p h u = (resolve-Allowed path a l p h).1 u

-- A route to a page of a signed-in user waits while the session is being restored, and sends a guest to
-- the login.
abbrev Waits : (Bool → Bool → Shown) → Type 0
Waits show = (show false true ≡ spinner) × (show false false ≡ redirect ("login" ∷ []))

guarded-Waits :
    (g : Guard) (q p : Page)
    → is_protected q ≡ needs_user g
    → guarded g true false q ≡ page p
    → is_protected p ≡ true
    → Waits (λ a l. guarded g a l q)
unfolding guarded
guarded-Waits open_to_all q p u h k = ground arith
guarded-Waits guest_only q p u h k = cc
guarded-Waits signed_in_only q p u h k = (refl, refl)

find_route-Waits :
    (rs : List Route) (path : List String) (p : Page)
    → All WellGuarded rs
    → find_route rs path true false ≡ page p
    → is_protected p ≡ true
    → Waits (find_route rs path)
unfolding find_route
find_route-Waits [] path p w h k = cc
find_route-Waits (r ∷ rs) path p w h k = elim (Option-cases (match r.path path)) [
  | inl miss ↦ rw (miss, find_route) (find_route-Waits rs path p w.1 (rw (miss, find_route) at h) k)
  | inr (v, hit) ↦
      rw (hit, find_route)
        (guarded-Waits r.guard (r.element v) p (w.0.user v) (rw (hit, find_route) at h) k)
]

pub resolve-Waits :
    (path : List String) (p : Page)
    → resolve path true false ≡ page p
    → is_protected p ≡ true
    → (resolve path false true ≡ spinner) × (resolve path false false ≡ redirect ("login" ∷ []))
unfolding resolve
resolve-Waits path p h k = find_route-Waits routes path p routes-WellGuarded h k

-- the targets of the redirects
abbrev Target : Bool → List String → Type 0
Target a to = (to ≡ []) ⊎ ((a ≡ false) × (to ≡ "login" ∷ []) ⊎ (a ≡ true) × (to ≡ "dashboard" ∷ []))

guarded-Target :
    (g : Guard) (a l : Bool) (q : Page) (to : List String)
    → guarded g a l q ≡ redirect to
    → Target a to
unfolding guarded
guarded-Target open_to_all a l q to h = cc
guarded-Target guest_only a true q to h = cc
guarded-Target guest_only true false q to h = inr (inr (refl, ground arith))
guarded-Target guest_only false false q to h = cc
guarded-Target signed_in_only a true q to h = cc
guarded-Target signed_in_only false false q to h = inr (inl (refl, ground arith))
guarded-Target signed_in_only true false q to h = cc

find_route-Target :
    (rs : List Route) (path : List String) (a l : Bool) (to : List String)
    → find_route rs path a l ≡ redirect to
    → Target a to
unfolding find_route
find_route-Target [] path a l to h = inl (ground arith)
find_route-Target (r ∷ rs) path a l to h = elim (Option-cases (match r.path path)) [
  | inl miss ↦ find_route-Target rs path a l to (rw (miss, find_route) at h)
  | inr (v, hit) ↦ guarded-Target r.guard a l (r.element v) to (rw (hit, find_route) at h)
]

Target-page :
    (a : Bool) (to : List String) → Target a to → (p : Page) × (resolve to a false ≡ page p)
unfolding resolve
Target-page a to (inl e) = (landing, rw e)
Target-page a to (inr (inl (n, e))) = (login, rw (n, e))
Target-page a to (inr (inr (y, e))) = (dashboard, rw (y, e))

-- No chain of redirects: the target of a redirect shows a page once the session is known.
pub resolve-redirect :
    (path : List String) (a l : Bool) (to : List String)
    → resolve path a l ≡ redirect to
    → (p : Page) × (resolve to a false ≡ page p)
resolve-redirect path a l to h =
    Target-page a to (unfold resolve in find_route-Target routes path a l to h)

-- A redirect of a signed-in user leads to the dashboard, or a guest is redirected in the same way.
guarded-signed_in :
    (g : Guard) (q : Page) (to : List String)
    → guarded g true false q ≡ redirect to
    → to ≡ "dashboard" ∷ []
unfolding guarded
guarded-signed_in open_to_all q to h = cc
guarded-signed_in guest_only q to h = ground arith
guarded-signed_in signed_in_only q to h = cc

find_route-signed_in :
    (rs : List Route) (path : List String) (a : Bool) (to : List String)
    → find_route rs path true false ≡ redirect to
    → (to ≡ "dashboard" ∷ []) ⊎ (find_route rs path a false ≡ redirect to)
unfolding find_route
find_route-signed_in [] path a to h = inr h
find_route-signed_in (r ∷ rs) path a to h = elim (Option-cases (match r.path path)) [
  | inl miss ↦
      rw (miss, find_route) (find_route-signed_in rs path a to (rw (miss, find_route) at h))
  | inr (v, hit) ↦ inl (guarded-signed_in r.guard (r.element v) to (rw (hit, find_route) at h))
]

pub resolve-signed_in :
    (path : List String) (a : Bool) (to : List String)
    → resolve path true false ≡ redirect to
    → (to ≡ "dashboard" ∷ []) ⊎ (resolve path a false ≡ redirect to)
unfolding resolve
resolve-signed_in path a to h = find_route-signed_in routes path a to h

-- A page that a signed-in user sees and that is not one of a signed-in user is open to all.
guarded-Open :
    (g : Guard) (q p : Page)
    → is_protected q ≡ needs_user g
    → guarded g true false q ≡ page p
    → is_protected p ≡ false
    → guarded g false false q ≡ page p
unfolding guarded
guarded-Open open_to_all q p u h k = h
guarded-Open guest_only q p u h k = cc
guarded-Open signed_in_only q p u h k = ground arith

find_route-Open :
    (rs : List Route) (path : List String) (p : Page)
    → All WellGuarded rs
    → find_route rs path true false ≡ page p
    → is_protected p ≡ false
    → find_route rs path false false ≡ page p
unfolding find_route
find_route-Open [] path p w h k = cc
find_route-Open (r ∷ rs) path p w h k = elim (Option-cases (match r.path path)) [
  | inl miss ↦ rw (miss, find_route) (find_route-Open rs path p w.1 (rw (miss, find_route) at h) k)
  | inr (v, hit) ↦
      rw (hit, find_route)
        (guarded-Open r.guard (r.element v) p (w.0.user v) (rw (hit, find_route) at h) k)
]

pub resolve-Open :
    (path : List String) (p : Page)
    → resolve path true false ≡ page p
    → is_protected p ≡ false
    → resolve path false false ≡ page p
unfolding resolve
resolve-Open path p h k = find_route-Open routes path p routes-WellGuarded h k
