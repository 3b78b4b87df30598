-- ===== src/Client/Links.antt =====
-- The paths that the program writes lead to the pages that they are meant for.
use Prim.Native.Char.{code}
use hcl_assignment.Common.{
  String, List, Bool, true, false, some, [], ◌∷◌, ◌⧺◌, ◌≡◌, ◌∙◌, refl, truthy, arith,
}
use text.Mathlib.TextLemmas.{append-nil, append_assoc}
use hcl_assignment.Routes.Paths.{IsSegment, join, Router}
use hcl_assignment.Routes.{
  Shown, page, spinner, redirect, resolve, public_poll, results, manage_poll,
}
use hcl_assignment.Services.Model.{Poll}
use hcl_assignment.AuthContext.{is_authenticated}
use hcl_assignment.Utils.Constants.{share_url}
use hcl_assignment.Ui.{links}
use hcl_assignment.Components.PollCard.{manage, card_step}
use hcl_assignment.Pages.CreatePoll
use hcl_assignment.Pages.PublicPoll.{results_link}
use hcl_assignment.Client.{Client, shown, perform, arrive}

arrive-same : (s : Shown) (to : List String) → arrive s s to ≡ to
arrive-same (page p) to = refl
arrive-same spinner to = refl
arrive-same (redirect other) to = refl

resolve-manage :
    (id : String)
    → truthy id ≡ true
    → resolve ("polls" ∷ id ∷ "manage" ∷ []) true false ≡ page (manage_poll id)
unfolding resolve
resolve-manage String.[] full = cc
resolve-manage (String.◌∷◌ c id) full = ground arith

resolve-poll :
    (code : String) (a l : Bool)
    → truthy code ≡ true
    → (resolve ("p" ∷ code ∷ []) a l ≡ page (public_poll code))
      × (resolve ("p" ∷ code ∷ "results" ∷ []) a l ≡ page (results code))
unfolding resolve
resolve-poll String.[] a l full = cc
resolve-poll (String.◌∷◌ c code) a l full = (refl, refl)

links-results_link :
    (code : String)
    → truthy code ≡ true
    → links (results_link (some code)) ≡ ("/p/" ⧺ code ⧺ "/results") ∷ []
unfolding links results_link
links-results_link code full = rw full refl

poll_path : (code : String) → "/p/" ⧺ code ≡ "/" ⧺ "p" ⧺ "/" ⧺ code
poll_path code = append_assoc "/p" "/" code ∙ append_assoc "/" "p" ("/" ⧺ code)

-- The three paths that the program puts together, as the router reads them.
module _ (router : Router) where
  segments-poll :
      (code : String) → IsSegment code → router.segments ("/p/" ⧺ code) ≡ "p" ∷ code ∷ []
  segments-poll code segment =
      let path : "/p/" ⧺ code ≡ join ("p" ∷ code ∷ []) = rw (append-nil code) (poll_path code) in
      rw path (router.joined "p" (code ∷ []) (ground arith, (segment, tt)))

  segments-results :
      (code : String)
      → IsSegment code
      → router.segments ("/p/" ⧺ code ⧺ "/results") ≡ "p" ∷ code ∷ "results" ∷ []
  segments-results code segment =
      let path : "/p/" ⧺ code ⧺ "/results" ≡ join ("p" ∷ code ∷ "results" ∷ []) =
        poll_path (code ⧺ "/results") in
      rw path
        (router.joined "p" (code ∷ "results" ∷ []) (ground arith, (segment, (ground arith, tt))))

  segments-manage :
      (id : String)
      → IsSegment id
      → router.segments ("/polls/" ⧺ id ⧺ "/manage") ≡ "polls" ∷ id ∷ "manage" ∷ []
  segments-manage id segment =
      let path : "/polls/" ⧺ id ⧺ "/manage" ≡ join ("polls" ∷ id ∷ "manage" ∷ []) =
        append_assoc "/polls" "/" (id ⧺ "/manage")
        ∙ append_assoc "/" "polls" ("/" ⧺ id ⧺ "/manage") in
      rw path
        (router.joined "polls" (id ∷ "manage" ∷ []) (ground arith, (segment, (ground arith, tt))))

  module _ (c : Client) (signed_in : is_authenticated c.session.auth ≡ true)
      (known : c.session.auth.is_loading ≡ false) (p : Poll) (segment : IsSegment p.id) where
    manage-shown :
        shown (record c { path = router.segments ("/polls/" ⧺ p.id ⧺ "/manage") })
        ≡ page (manage_poll p.id)
    unfolding shown
    manage-shown =
        rw (signed_in, known, segments-manage p.id segment) (resolve-manage p.id segment.1)

    card-shown :
        (origin : String)
        → shown (perform router (card_step origin p manage) c) ≡ page (manage_poll p.id)
    unfolding perform card_step
    card-shown origin = rw (arrive-same (shown c)) manage-shown

    created-shown :
        (form : CreatePoll.State)
        → form.created_poll ≡ some p
        → shown (perform router (CreatePoll.share_changed false form).1 c) ≡ page (manage_poll p.id)
    unfolding perform CreatePoll.share_changed
    created-shown form made = rw (made, arrive-same (shown c)) manage-shown

  module _ (c : Client) (code : String) (segment : IsSegment code) where
    poll-shown :
        shown (record c { path = router.segments ("/p/" ⧺ code) }) ≡ page (public_poll code)
    unfolding shown
    poll-shown = rw (segments-poll code segment) (
        (resolve-poll code (is_authenticated c.session.auth) c.session.auth.is_loading segment.1).0)

    results-shown :
        shown (record c { path = router.segments ("/p/" ⧺ code ⧺ "/results") })
        ≡ page (results code)
    unfolding shown
    results-shown = rw (segments-results code segment) (
        (resolve-poll code (is_authenticated c.session.auth) c.session.auth.is_loading segment.1).1)

  -- For a poll whose identity and share code are not empty and have no character with a meaning in a
  -- path: "Manage" on its card of the dashboard, and closing the share dialog after it was created, show a
  -- signed-in user the page that manages this poll. Its share link is the origin and a path that shows
  -- anyone this poll's public page, and the link to the results on that page shows anyone its results.
  pub links-shown :
      (owner voter : Client) (origin : String) (p : Poll) (form : CreatePoll.State)
      → is_authenticated owner.session.auth ≡ true
      → owner.session.auth.is_loading ≡ false
      → form.created_poll ≡ some p
      → IsSegment p.id
      → IsSegment p.share_code
      → let path = "/p/" ⧺ p.share_code in
        let results_path = "/p/" ⧺ p.share_code ⧺ "/results" in
        (shown (perform router (card_step origin p manage) owner) ≡ page (manage_poll p.id))
        × (shown (perform router (CreatePoll.share_changed false form).1 owner)
            ≡ page (manage_poll p.id))
        × (share_url origin p.share_code ≡ origin ⧺ path)
        × (shown (record voter { path = router.segments path }) ≡ page (public_poll p.share_code))
        × (links (results_link (some p.share_code)) ≡ results_path ∷ [])
        × (shown (record voter { path = router.segments results_path })
            ≡ page (results p.share_code))
  links-shown owner voter origin p form signed_in known made id code = (
    card-shown owner signed_in known p id origin,
    created-shown owner signed_in known p id form made,
    unfold share_url in refl,
    poll-shown voter p.share_code code,
    links-results_link p.share_code code.1,
    results-shown voter p.share_code code,
  )
