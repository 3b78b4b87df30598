-- ===== src/Pages/CreatePoll/Options.antt =====
-- The form has between 2 and 10 rows, with different identities.
use mathlib.Core.Path.{subst}
use hcl_assignment.Common.{
  ℕ, ◌+◌, ◌≤◌, String, Bool, true, false, not, List, [], ◌∷◌, ◌++◌, map, filter, length,
  length-append, length-map, length-filter-le, All, ◌≡◌, ◌≢◌, sym, All-append, inl, inr, refl,
  Option, Bool-cases, leb, ◌==◌, eq_iff, decimal, arith,
}
use hcl_assignment.Services.Model.{Poll}
use hcl_assignment.Services.Api.{Result, ok, err}
use hcl_assignment.Pages.CreatePoll.{
  OptionRow, State, init, add_option, remove_option, retext, update_option, handle_submit,
  submit_settled, share_changed, Action, set_title, set_description, add, remove, update, submit,
  settled, share_open, share, back, logout, step,
}

abbrev pub Fresh : String → List OptionRow → Type 0
Fresh id = All (λ o. o.id ≢ id)

abbrev pub Unique : List OptionRow → Type 0
Unique [] = Unit
Unique (o ∷ rows) = Fresh o.id rows × Unique rows

abbrev without : String → List OptionRow → List OptionRow
without id = filter (λ o. not (o.id == id))

Fresh-without : (id j : String) (rows : List OptionRow) → Fresh j rows → Fresh j (without id rows)
Fresh-without id j [] f = tt
Fresh-without id j (o ∷ rows) f = ground (arith, Fresh-without id j rows f.1)

Unique-without : (id : String) (rows : List OptionRow) → Unique rows → Unique (without id rows)
Unique-without id [] u = tt
Unique-without id (o ∷ rows) u =
    ground (arith, Unique-without id rows u.1, Fresh-without id o.id rows u.0)

length-without-Fresh :
    (id : String) (rows : List OptionRow) → Fresh id rows → length (without id rows) ≡ length rows
length-without-Fresh id [] f = refl
length-without-Fresh id (o ∷ rows) f =
    ground (arith, length-without-Fresh id rows f.1, eq_iff o.id id)

-- Of rows with different identities at most one is removed.
length-without :
    (id : String) (rows : List OptionRow) → Unique rows → length rows ≤ length (without id rows) + 1
length-without id [] u = omega arith
length-without id (o ∷ rows) u = elim (Bool-cases (o.id == id)) [
  | inl same ↦
      let f : Fresh id rows = subst (λ j. Fresh j rows) ((eq_iff o.id id).0 same) u.0 in
      rw same (omega (arith, length-without-Fresh id rows f))
  | inr other ↦ ground (arith, length-without id rows u.1)
]

Fresh-append :
    (id j : String) (rows : List OptionRow) (o : OptionRow)
    → Fresh j rows
    → o.id ≢ j
    → Fresh j (rows ++ o ∷ [])
Fresh-append id j rows o f n = All-append _ rows (o ∷ []) f (n, tt)

Unique-append :
    (rows : List OptionRow) (o : OptionRow)
    → Unique rows
    → Fresh o.id rows
    → Unique (rows ++ o ∷ [])
Unique-append [] o u f = (tt, tt)
Unique-append (r ∷ rows) o u f =
    (Fresh-append o.id r.id rows o u.0 (λ e. f.0 (sym e)), Unique-append rows o u.1 f.1)

Fresh-retext :
    (id value j : String) (rows : List OptionRow)
    → Fresh j rows
    → Fresh j (map (retext id value) rows)
unfolding retext
Fresh-retext id value j [] f = tt
Fresh-retext id value j (o ∷ rows) f = ground (arith, Fresh-retext id value j rows f.1)

Unique-retext :
    (id value : String) (rows : List OptionRow) → Unique rows → Unique (map (retext id value) rows)
unfolding retext
Unique-retext id value [] u = tt
Unique-retext id value (o ∷ rows) u =
    ground (arith, Fresh-retext id value o.id rows u.0, Unique-retext id value rows u.1)

pub record Inv (s : State) : Type 0 where
  pub unique : Unique s.options
  pub at_least : 2 ≤ length s.options
  pub at_most : length s.options ≤ 10

other_id : false ≢ true
other_id e = cc

pub init-Inv : Inv init
unfolding init
init-Inv = record {
  unique = ((λ e. other_id ((eq_iff "2" "1").1 e), tt), (tt, tt));
  at_least = omega arith;
  at_most = omega arith;
}

-- The clock gives an identity that no row has.
abbrev pub Timely : Action → State → Type 0
Timely (add now) s = Fresh (decimal now) s.options
Timely _ s = Unit

add_option-Inv :
    (now : ℕ) (s : State) → Inv s → Fresh (decimal now) s.options → Inv (add_option now s)
unfolding add_option
add_option-Inv now s inv f = elim (Bool-cases (leb 10 (length s.options))) [
  | inl full ↦ rw full inv
  | inr room ↦
      let row : OptionRow = record { id = decimal now; text = "" } in
      rw room (record {
        unique = Unique-append s.options row inv.unique f;
        at_least = omega (arith, inv.at_least, length-append s.options (row ∷ []));
        at_most = ground (arith, length-append s.options (row ∷ []));
      })
]

remove_option-Inv : (id : String) (s : State) → Inv s → Inv (remove_option id s)
unfolding remove_option
remove_option-Inv id s inv = elim (Bool-cases (leb (length s.options) 2)) [
  | inl few ↦ rw few inv
  | inr more ↦ rw more (record {
    unique = Unique-without id s.options inv.unique;
    at_least = ground (arith, length-without id s.options inv.unique);
    at_most = omega (arith, inv.at_most, length-filter-le (λ o. not (o.id == id)) s.options);
  })
]

update_option-Inv : (id value : String) (s : State) → Inv s → Inv (update_option id value s)
unfolding update_option
update_option-Inv id value s inv = record {
  unique = Unique-retext id value s.options inv.unique;
  at_least = omega (arith, inv.at_least, length-map (retext id value) s.options);
  at_most = omega (arith, inv.at_most, length-map (retext id value) s.options);
}

handle_submit-options : (s : State) → (handle_submit s).0.options ≡ s.options
unfolding handle_submit
handle_submit-options s = ground arith

submit_settled-options :
    (answer : Result (Option Poll)) (s : State) → (submit_settled answer s).0.options ≡ s.options
unfolding submit_settled
submit_settled-options (ok poll) s = refl
submit_settled-options (err e) s = refl

share_changed-options :
    (is_open : Bool) (s : State) → (share_changed is_open s).0.options ≡ s.options
unfolding share_changed
share_changed-options true s = refl
share_changed-options false s = refl

same_options : (s t : State) → t.options ≡ s.options → Inv s → Inv t
same_options s t e inv = record {
  unique = subst Unique (sym e) inv.unique;
  at_least = rw e inv.at_least;
  at_most = rw e inv.at_most;
}

-- Every action of the page keeps between 2 and 10 rows with different identities, given that a row
-- that is added gets an identity from the clock that no row has.
pub step-Inv :
    (origin : String) (a : Action) (s : State) → Timely a s → Inv s → Inv (step origin a s).0
unfolding step
step-Inv origin (set_title value) s t inv = same_options s _ refl inv
step-Inv origin (set_description value) s t inv = same_options s _ refl inv
step-Inv origin (add now) s t inv = add_option-Inv now s inv t
step-Inv origin (remove id) s t inv = remove_option-Inv id s inv
step-Inv origin (update id value) s t inv = update_option-Inv id value s inv
step-Inv origin submit s t inv = same_options s _ (handle_submit-options s) inv
step-Inv origin (settled answer) s t inv = same_options s _ (submit_settled-options answer s) inv
step-Inv origin (share_open is_open) s t inv =
    same_options s _ (share_changed-options is_open s) inv
step-Inv origin (share a) s t inv = same_options s _ refl inv
step-Inv origin back s t inv = inv
step-Inv origin logout s t inv = inv

-- The states that the page reaches from its first render.
pub data Reach (origin : String) : State → Type 0 where
  here : Reach origin init
  next : {s : State} → Reach origin s → (a : Action) → Timely a s → Reach origin (step origin a s).0

pub Reach-Inv : {origin : String} {s : State} → Reach origin s → Inv s
Reach-Inv here = init-Inv
Reach-Inv {origin} (next {s} r a t) = step-Inv origin a s t (Reach-Inv r)
