-- ===== src/Pages/CreatePoll/Submission.antt =====
-- What the form sends.
use hcl_assignment.Common.{
  ◌≤◌, String, true, List, [], ◌∷◌, map, filter, length, length-map, length-filter-le, All, ◌≡◌,
  ◌⊎◌, inl, inr, refl, Bool-cases, ltb, truthy, trim, trim-trim, arith,
}
use hcl_assignment.Services.Model.{CreatePollData}
use hcl_assignment.Effects.{call, create_poll}
use hcl_assignment.Pages.CreatePoll.{
  OptionRow, State, filled_options, is_filled, payload, handle_submit,
}
use hcl_assignment.Pages.CreatePoll.Options.{Inv, Reach, Reach-Inv}

all_filled :
    (rows : List OptionRow)
    → All (λ t. truthy t ≡ true) (map (λ o. trim o.text) (filter is_filled rows))
all_filled [] = tt
all_filled (o ∷ rows) = elim (Bool-cases (is_filled o)) [
  | inl yes' ↦ rw yes' (yes', all_filled rows)
  | inr no' ↦ rw no' (all_filled rows)
]

-- A text without a space at either end.
abbrev pub IsTrimmed : String → Type 0
IsTrimmed t = trim t ≡ t

All-IsTrimmed : (rows : List OptionRow) → All IsTrimmed (map (λ o. trim o.text) rows)
All-IsTrimmed [] = tt
All-IsTrimmed (o ∷ rows) = (trim-trim o.text, All-IsTrimmed rows)

-- A poll that the server is to create: a title and between 2 and 10 options, none of them empty and
-- none of them with a space at either end.
pub record IsComplete (poll : CreatePollData) : Type 0 where
  pub titled : truthy poll.title ≡ true
  pub enough : 2 ≤ length poll.options
  pub bounded : length poll.options ≤ 10
  pub filled : All (λ t. truthy t ≡ true) poll.options
  pub trimmed_texts : IsTrimmed poll.title × IsTrimmed poll.description
  pub trimmed_options : All IsTrimmed poll.options

payload-IsComplete :
    (s : State)
    → Inv s
    → 2 ≤ length (filled_options s)
    → truthy (trim s.title) ≡ true
    → IsComplete (payload s)
unfolding payload
payload-IsComplete s inv enough titled = record {
  titled = titled;
  enough = rw (length-map {B = String} (λ o. trim o.text) (filter is_filled s.options)) enough;
  bounded = omega (
    arith,
    inv.at_most,
    length-map {B = String} (λ o. trim o.text) (filter is_filled s.options),
    length-filter-le is_filled s.options,
  );
  filled = all_filled s.options;
  trimmed_texts = (trim-trim s.title, trim-trim s.description);
  trimmed_options = All-IsTrimmed (filled_options s);
}

Inv-IsComplete :
    (s : State)
    → Inv s
    → (((handle_submit s).1 ≡ []) × (truthy (handle_submit s).0.error ≡ true))
      ⊎ (((handle_submit s).1 ≡ call (create_poll (payload s)) ∷ [])
          × IsComplete (payload s)
          × ((handle_submit s).0.is_loading ≡ true))
unfolding handle_submit
Inv-IsComplete s inv = elim (Bool-cases (ltb (length (filled_options s)) 2)) [
  | inl few ↦ inl (rw few refl, rw few refl)
  | inr enough ↦ elim (Bool-cases (truthy (trim s.title))) [
    | inl titled ↦ inr (
      rw (enough, titled) refl,
      payload-IsComplete s inv (ground arith) titled,
      rw (enough, titled) refl,
    )
    | inr blank ↦ inl (rw (enough, blank) refl, rw (enough, blank) refl)
  ]
]

-- In every state that the page reaches from its first render, by any actions where a row that is added
-- gets an identity from the clock that no row has: a submission sends nothing and shows an error, or
-- it shows that it is busy and sends a complete poll, with a title and between 2 and 10 options, none
-- of them empty, and no text with a space at either end.
pub handle_submit-IsComplete :
    (origin : String) {s : State}
    → Reach origin s
    → (((handle_submit s).1 ≡ []) × (truthy (handle_submit s).0.error ≡ true))
      ⊎ (((handle_submit s).1 ≡ call (create_poll (payload s)) ∷ [])
          × IsComplete (payload s)
          × ((handle_submit s).0.is_loading ≡ true))
handle_submit-IsComplete origin {s} r = Inv-IsComplete s (Reach-Inv r)
