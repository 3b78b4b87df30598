-- ===== src/Pages/Requests.antt =====
-- A page that awaits one kind of request, with a busy flag: what such a page owes, and what follows.
pub mod Single
use hcl_assignment.Common.{
  ℕ, zero, suc, ◌+◌, ◌-◌, ◌≤◌, ◌<◌, Bool, true, false, List, [], ◌∷◌, ◌≡◌, ◌↔◌, refl, if◌then◌else◌,
  arith,
}
use hcl_assignment.Effects.{Effect}

-- What an action does about the request: it starts it, brings its answer, or neither.
pub data Role : Type 0 where
  starts answers neither : Role

abbrev pub flag : Bool → ℕ
flag b = if b then 1 else 0

-- A page with states `S` and actions `A`: whether it is busy, whether its view lets the user start the
-- request, and how many such requests are among the effects of a step.
pub record Requester (S A : Type 0) : Type 0 where
  pub step : A → S → S × List Effect
  pub role : A → Role
  pub is_busy : S → Bool
  pub is_offered : S → Bool
  pub sends : List Effect → ℕ
  pub offered_idle : (s : S) → is_offered s ≡ true → is_busy s ≡ false
  pub start_lem :
      (a : A) (s : S)
      → role a ≡ starts
      → is_busy s ≡ false
      → sends (step a s).1 ≡ flag (is_busy (step a s).0)
  pub answer_lem :
      (a : A) (s : S) → role a ≡ answers → (is_busy (step a s).0 ≡ false) × (sends (step a s).1 ≡ 0)
  pub other_lem :
      (a : A) (s : S)
      → role a ≡ neither
      → (is_busy (step a s).0 ≡ is_busy s) × (sends (step a s).1 ≡ 0)

module _ {S A : Type 0} (page : Requester S A) where
  -- The page, and the number of its requests that are not answered.
  pub record Flight : Type 0 where
    pub state : S
    pub pending : ℕ

  abbrev pub take_step : A → Flight → Flight
  take_step a f =
      let (state, effects) = page.step a f.state in
      record { state = state; pending = f.pending + page.sends effects }

  -- What can happen: the user starts a request where the view lets it; a request that is in flight is
  -- answered; and anything else.
  pub data Turn : Flight → Flight → Type 0 where
    begins :
        (f : Flight) (a : A)
        → page.role a ≡ starts
        → page.is_offered f.state ≡ true
        → Turn f (take_step a f)
    settles :
        (f : Flight) (a : A)
        → page.role a ≡ answers
        → 0 < f.pending
        → Turn f (take_step a (record f { pending = f.pending - 1 }))
    others : (f : Flight) (a : A) → page.role a ≡ neither → Turn f (take_step a f)

  pub data Reach (f : Flight) : Flight → Type 0 where
    here : Reach f f
    next : {g h : Flight} → Reach f g → Turn g h → Reach f h

  abbrev pub Fits : Flight → Type 0
  Fits f = f.pending ≡ flag (page.is_busy f.state)

  Turn-Fits : {f g : Flight} → Turn f g → Fits f → Fits g
  Turn-Fits (begins f a r o) fit =
      let idle = page.offered_idle f.state o in ground (arith, page.start_lem a f.state r idle)
  Turn-Fits (settles f a r pos) fit = ground (arith, page.answer_lem a f.state r)
  Turn-Fits (others f a r) fit = ground (arith, page.other_lem a f.state r)

  Reach-Fits : {f g : Flight} → Fits f → Reach f g → Fits g
  Reach-Fits fit here = fit
  Reach-Fits fit (next r t) = Turn-Fits t (Reach-Fits fit r)

  -- At most one request is in flight, and the page is busy exactly while one is.
  abbrev pub AtMostOne : Flight → Type 0
  AtMostOne f = (f.pending ≤ 1) × ((page.is_busy f.state ≡ true) ↔ (0 < f.pending))

  pub Reach-AtMostOne : {f g : Flight} → Fits f → Reach f g → AtMostOne g
  Reach-AtMostOne {f} {g} fit r = let same : Fits g = Reach-Fits fit r in ground (arith, same)
