-- ===== src/Routes.antt =====
-- App.tsx: the routes and their two guards. A pathname is the list of its segments.
pub mod Guards
pub mod Paths
use Prim.Native.Char.{Char, code}
use hcl_assignment.Common.{
  String, Bool, true, false, Option, none, some, List, [], ◌∷◌, ◌==◌, to_lower, eqb, truthy,
  or_else, if◌then◌else◌,
}

pub data Page : Type 0 where
  landing login signup dashboard create_poll : Page
  manage_poll : String → Page
  public_poll : String → Page
  results : String → Page

-- What a route shows: a page, the spinner, or a redirect that replaces the entry of the history.
pub data Shown : Type 0 where
  page : Page → Shown
  spinner : Shown
  redirect : List String → Shown

-- ProtectedLayout
unfoldable pub protected_layout : Bool → Bool → Page → Shown
protected_layout is_authenticated true p = spinner
protected_layout false false p = redirect ("login" ∷ [])
protected_layout true false p = page p

-- PublicAuthLayout
unfoldable pub public_auth_layout : Bool → Bool → Page → Shown
public_auth_layout is_authenticated true p = spinner
public_auth_layout true false p = redirect ("dashboard" ∷ [])
public_auth_layout false false p = page p

-- A segment of a route's path: a word, in upper or lower case, or a parameter, which matches any segment that is not empty.
pub data Part : Type 0 where
  word : String → Part
  param : Part

-- The value of the parameter, `""` if the path has none.
match : List Part → List String → Option String
unfolding to_lower
match [] [] = some ""
match [] (s ∷ path) = none
match (p ∷ parts) [] = none
match (word w ∷ parts) (s ∷ path) = if w == to_lower s then match parts path else none
match (param ∷ parts) (s ∷ path) =
    if truthy s then elim (match parts path) [ none ↦ none | some v ↦ some s ] else none

pub data Guard : Type 0 where
  open_to_all guest_only signed_in_only : Guard

pub record Route : Type 0 where
  pub path : List Part
  pub guard : Guard
  pub element : String → Page

-- No two paths of the table match one pathname, so that their order is of no account.
abbrev pub routes : List Route
routes =
    record { path = []; guard = open_to_all; element = λ v. landing }
    ∷ record { path = word "login" ∷ []; guard = guest_only; element = λ v. login }
    ∷ record { path = word "signup" ∷ []; guard = guest_only; element = λ v. signup }
    ∷ record { path = word "dashboard" ∷ []; guard = signed_in_only; element = λ v. dashboard }
    ∷ record {
      path = word "dashboard" ∷ word "polls" ∷ [];
      guard = signed_in_only;
      element = λ v. dashboard;
    }
    ∷ record {
      path = word "polls" ∷ word "create" ∷ [];
      guard = signed_in_only;
      element = λ v. create_poll;
    }
    ∷ record {
      path = word "polls" ∷ param ∷ word "manage" ∷ [];
      guard = signed_in_only;
      element = manage_poll;
    }
    ∷ record { path = word "p" ∷ param ∷ []; guard = open_to_all; element = public_poll }
    ∷ record {
      path = word "p" ∷ param ∷ word "results" ∷ [];
      guard = open_to_all;
      element = results;
    }
    ∷ []

guarded : Guard → Bool → Bool → Page → Shown
unfolding protected_layout public_auth_layout
guarded open_to_all is_authenticated is_loading p = page p
guarded guest_only is_authenticated is_loading p = public_auth_layout is_authenticated is_loading p
guarded signed_in_only is_authenticated is_loading p =
    protected_layout is_authenticated is_loading p

-- The last route, `*`, redirects to the landing page.
find_route : List Route → List String → Bool → Bool → Shown
unfolding match guarded
find_route [] path is_authenticated is_loading = redirect []
find_route (r ∷ rest) path is_authenticated is_loading = elim (match r.path path) [
  | some v ↦ guarded r.guard is_authenticated is_loading (r.element v)
  | none ↦ find_route rest path is_authenticated is_loading
]

-- What the app shows at a pathname.
unfoldable pub resolve : List String → Bool → Bool → Shown
unfolding find_route
resolve path is_authenticated is_loading = find_route routes path is_authenticated is_loading
