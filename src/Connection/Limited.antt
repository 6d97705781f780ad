-- ===== src/Connection/Limited.antt =====
-- The rate limit of reconnects.
use kineticio.Prelude.{
  ℕ, zero, suc, ◌+◌, ◌-◌, ◌*◌, ◌/◌, ◌≤◌, ◌<◌, ◌≡◌, refl, List, [], ◌∷◌, Option, none, some, ltb,
  if◌then◌else◌, arith, Result-cases, inl, inr, subst, Option-cases,
}
use kineticio.Background.{Handler}
use kineticio.Connection.{
  AutoConnection, Network, set_error, stop_watching, get_connection, take_over, new_connection,
}

-- What happens to a connection: a get after the initial connect, an error of a connection, and the
-- end of an attempt to connect, with the descriptor plus one.
pub data Event (W : Type 0) : Type 0 where
  got : ℕ → Event W
  failed : Option ℕ → Event W
  attempted : ℕ → Option ℕ → W → Event W

-- The connection, the time of the last event and the times at which reconnects were scheduled, the
-- last first.
pub record History : Type 0 where
  pub state : AutoConnection
  pub clock : ℕ
  pub scheduled : List ℕ

-- Each time lies more than `limit` whole seconds after the one before it.
abbrev pub Spaced : ℕ → List ℕ → Type 0
Spaced limit [] = Unit {0}
Spaced limit (t ∷ []) = Unit {0}
Spaced limit (t ∷ s ∷ ts) = (s + (limit + 1) * 1000 ≤ t) × Spaced limit (s ∷ ts)

abbrev HeadLe : List ℕ → ℕ → Type 0
HeadLe [] n = Unit {0}
HeadLe (t ∷ ts) n = t ≤ n

-- What an event makes of the history, where the clock does not go back.
module _ {W : Type 0} (net : Network W) where
  unfoldable pub step : Event W → History → Option History
  unfolding get_connection set_error take_over
  step (got t) h =
      let (_, accepted, c) = get_connection t h.state in
      if ltb t h.clock
      then none
      else some (record {
        state = c;
        clock = t;
        scheduled = if accepted then t ∷ h.scheduled else h.scheduled;
      })
  step (failed con) h = some (record h { state = set_error con h.state })
  step (attempted fd con w) h =
      let (_, c, w') = take_over net fd con w h.state in
      if ltb (net.now w') h.clock then none else some (record h { state = c; clock = net.now w' })

  unfoldable pub steps : List (Event W) → History → Option History
  unfolding step
  steps [] h = some h
  steps (e ∷ es) h = elim (step e h) [ none ↦ none | some h' ↦ steps es h' ]

  record IsLimited (limit : ℕ) (h : History) : Type 0 where
    same : h.state.ratelimit ≡ limit
    past : h.state.timestamp ≤ h.clock
    last_le : HeadLe h.scheduled h.state.timestamp
    spaced : Spaced limit h.scheduled

  abbrev After : ℕ → Option History → Type 0
  After limit none = Unit {0}
  After limit (some h) = IsLimited limit h

  Spaced-cons :
      (limit t ts : ℕ) (l : List ℕ)
      → HeadLe l ts
      → limit < (t - ts) / 1000
      → Spaced limit l
      → Spaced limit (t ∷ l)
  Spaced-cons limit t ts [] h lt s = tt
  Spaced-cons limit t ts (x ∷ l) h lt s = (omega arith, s)

  HeadLe-trans : (l : List ℕ) (a b : ℕ) → HeadLe l a → a ≤ b → HeadLe l b
  HeadLe-trans [] a b h le = tt
  HeadLe-trans (x ∷ l) a b h le = omega arith

  got-IsLimited : (limit t : ℕ) (h : History) → IsLimited limit h → After limit (step (got t) h)
  unfolding step get_connection
  got-IsLimited limit t h q = ground (
    arith,
    Spaced-cons limit t h.state.timestamp h.scheduled q.last_le,
    HeadLe-trans h.scheduled h.state.timestamp t q.last_le,
  )

  failed-IsLimited :
      (limit : ℕ) (con : Option ℕ) (h : History)
      → IsLimited limit h
      → After limit (step (failed con) h)
  unfolding step set_error stop_watching
  failed-IsLimited limit con h q = ground arith

  attempted-IsLimited :
      (limit fd : ℕ) (con : Option ℕ) (w : W) (h : History)
      → IsLimited limit h
      → After limit (step (attempted fd con w) h)
  unfolding step take_over
  attempted-IsLimited limit zero con w h q = ground arith
  attempted-IsLimited limit (suc fd) con w h q = elim (Result-cases (net.subscribe fd w).0) [
    | inl (u, e) ↦
        rw (e, take_over)
          (ground (
            arith,
            HeadLe-trans h.scheduled h.state.timestamp (net.now (net.subscribe fd w).1) q.last_le,
          ))
    | inr (x, e) ↦
        rw (e, take_over)
          (ground (
            arith,
            HeadLe-trans h.scheduled h.state.timestamp (net.now (net.subscribe fd w).1) q.last_le,
          ))
  ]

  step-IsLimited :
      (limit : ℕ) (e : Event W) (h : History) → IsLimited limit h → After limit (step e h)
  step-IsLimited limit (got t) h q = got-IsLimited limit t h q
  step-IsLimited limit (failed con) h q = failed-IsLimited limit con h q
  step-IsLimited limit (attempted fd con w) h q = attempted-IsLimited limit fd con w h q

  steps_keep :
      (es : List (Event W)) (limit : ℕ) (h h' : History)
      → IsLimited limit h
      → steps es h ≡ some h'
      → IsLimited limit h'
  unfolding steps
  steps_keep [] limit h h' q r = let e : h ≡ h' = cc in subst (IsLimited limit) e q
  steps_keep (e ∷ es) limit h h' q r = elim (Option-cases (step e h)) [
    | inl stuck ↦ let no : ⊥ = cc (rw (stuck, steps) at r) in absurd no
    | inr (g, eq) ↦
        steps_keep es limit g h' (subst (After limit) eq (step-IsLimited limit e h q))
          (rw (eq, steps) at r)
  ]

  -- The history of a new connection.
  abbrev pub new_history : ℕ → Handler (Unit {0}) → ℕ → History
  new_history limit bg now = record {
    state = new_connection limit bg now;
    clock = now;
    scheduled = [];
  }

  -- However calls of get, errors and attempts to connect follow each other, where the clock does not
  -- go back, two reconnects are scheduled more than the rate limit apart, counted in whole seconds.
  pub steps-Spaced :
      (limit now : ℕ) (bg : Handler (Unit {0})) (es : List (Event W)) (h : History)
      → steps es (new_history limit bg now) ≡ some h
      → Spaced limit h.scheduled
  unfolding new_connection
  steps-Spaced limit now bg es h r =
      let first : IsLimited limit (new_history limit bg now) = record {
        same = refl;
        past = omega arith;
        last_le = tt;
        spaced = tt;
      } in
      let q = steps_keep es limit (new_history limit bg now) h first r in q.spaced
