-- ===== src/State/Machine/Told.antt =====
-- That a run of calls tells the callbacks of its transitions and of its errors.
use jenlib.Common.{
  ℕ, Bool, true, false, List, [], ◌∷◌, ◌++◌, ◌==◌, ◌≡◌, refl, sym, ap, ◌∙◌, inl, inr, Bool-cases,
  arith, if◌then◌else◌, subst,
}
use mathlib.Core.List.{append_assoc, append-nil}
use jenlib.State.Machine.{
  CallbackCall, error, Machine, set_state_action_callback, set_error_callback, report_error,
  transition_to,
}
use jenlib.State.Machine.Trace.{
  Effect, sets_state, sets_error, reports, works, Keeps, reported, errors_of, errors_of-append,
  errors_of-with_move, told_twice, Route, stay, move, report, Allowed, Moved, Runs, done, next,
  Tells,
}

module _ {S : Type 0} (code : S → ℕ) (valid : S → S → Bool) (told : Bool) (a : S)
    (before : List (CallbackCall S)) where
  -- The state callback is set or not, as told, and the error callback as given; what they have been
  -- told is a route and the messages given.
  record IsTraced (on : Bool) (errors : List (List ℕ)) (m : Machine S) : Type 0 where
    listening : m.state_callback ≡ told
    hearing : m.error_callback ≡ on
    route : Route code valid told a before m.calls m.current_state
    reports : errors_of m.calls ≡ errors

  set_state_action_callback-IsTraced :
      {on : Bool} {errors : List (List ℕ)} {m : Machine S} (callback : Bool)
      → callback ≡ told
      → IsTraced on errors m
      → IsTraced on errors (set_state_action_callback m callback)
  set_state_action_callback-IsTraced callback same t = record {
    listening = same;
    hearing = t.hearing;
    route = t.route;
    reports = t.reports;
  }

  set_error_callback-IsTraced :
      {on : Bool} {errors : List (List ℕ)} {m : Machine S} (callback : Bool)
      → IsTraced on errors m
      → IsTraced callback errors (set_error_callback m callback)
  set_error_callback-IsTraced callback t = record {
    listening = t.listening;
    hearing = refl;
    route = t.route;
    reports = t.reports;
  }

  report_error-IsTraced :
      {errors : List (List ℕ)} (on : Bool) (m : Machine S) (message : List ℕ)
      → IsTraced on errors m
      → IsTraced on (errors ++ (if on then message ∷ [] else [])) (report_error m message)
  report_error-IsTraced true m message t = rw t.hearing (record {
    listening = t.listening;
    hearing = refl;
    route = report message t.route;
    reports = errors_of-append m.calls (error message ∷ []) ∙ ap (λ l. l ++ message ∷ []) t.reports;
  })
  report_error-IsTraced {errors} false m message t = rw t.hearing (record {
    listening = t.listening;
    hearing = refl;
    route = t.route;
    reports = t.reports ∙ sym (append-nil errors);
  })

  transition_to-IsTraced :
      {on : Bool} {errors : List (List ℕ)} (m : Machine S) (c : S)
      → IsTraced on errors m
      → Allowed code valid m.current_state c
      → IsTraced on errors (transition_to code m c).1
  unfolding transition_to Allowed
  transition_to-IsTraced m c t allowed = elim (Bool-cases (code c == code m.current_state)) [
    | inl same ↦ rw same t
    | inr other ↦
        let valid_move : valid m.current_state c ≡ true = elim allowed [
          | inl same ↦ absurd (ground arith)
          | inr v ↦ v
        ] in
        let added = told_twice told m.current_state c m.calls in
        rw (other, t.listening)
          (record {
            listening = refl;
            hearing = t.hearing;
            route = rw added (move c t.route valid_move);
            reports =
                ap errors_of added ∙ errors_of-with_move told m.current_state c m.calls ∙ t.reports;
          })
  ]

  Moved-IsTraced :
      {on : Bool} {errors : List (List ℕ)} {m m' : Machine S}
      → Moved code valid m m'
      → IsTraced on errors m
      → IsTraced on errors m'
  Moved-IsTraced {on} {errors} (inl same) t = subst (IsTraced on errors) (sym same) t
  Moved-IsTraced {on} {errors} {m} (inr (c, allowed, e)) t =
      subst (IsTraced on errors) (sym e) (transition_to-IsTraced m c t allowed)

  Traced : Bool → List (List ℕ) → List Effect → Machine S → Type 0
  Traced on errors effects m =
      Route code valid told a before m.calls m.current_state
      × (errors_of m.calls ≡ errors ++ reported on effects)

  Runs-Traced :
      (effects : List Effect) {m m' : Machine S} {on : Bool} {errors : List (List ℕ)}
      → Runs code valid effects m m'
      → Keeps told effects
      → IsTraced on errors m
      → Traced on errors effects m'
  unfolding Traced
  Runs-Traced [] {errors} done k t = (t.route, t.reports ∙ sym (append-nil errors))
  Runs-Traced (sets_state callback ∷ effects) {on} {errors} (next f rest) k t =
      Runs-Traced effects rest k.1
        (subst (IsTraced on errors) (sym f) (set_state_action_callback-IsTraced callback k.0 t))
  Runs-Traced (sets_error callback ∷ effects) {errors} (next f rest) k t =
      Runs-Traced effects rest k
        (subst (IsTraced callback errors) (sym f) (set_error_callback-IsTraced callback t))
  Runs-Traced (reports message ∷ effects) {on} {errors} (next {m} f rest) k t =
      let told_of = if on then message ∷ [] else [] in
      let (route, found) =
        Runs-Traced effects rest k (Moved-IsTraced f (report_error-IsTraced on m message t)) in
      (route, found ∙ append_assoc errors told_of (reported on effects))
  Runs-Traced (works ∷ effects) (next f rest) k t = Runs-Traced effects rest k (Moved-IsTraced f t)

module _ {S : Type 0} (code : S → ℕ) (valid : S → S → Bool) where
  pub Runs-Tells :
      {effects : List Effect} {m m' : Machine S}
      → Runs code valid effects m m'
      → Keeps m.state_callback effects
      → Tells code valid effects m m'
  unfolding Traced
  Runs-Tells {effects} {m} runs k =
      Runs-Traced code valid m.state_callback m.current_state m.calls effects runs k
        (record { listening = refl; hearing = refl; route = stay; reports = refl })
