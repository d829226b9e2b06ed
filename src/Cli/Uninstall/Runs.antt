-- ===== src/Cli/Uninstall/Runs.antt =====
-- Runs of steps that stop at the first error (notifications/cmd/novascale-agent/uninstall.go).
use nova_codex_bootstrap.Prelude.{
  ℕ, ◌≡◌, refl, sym, ap, ◌∙◌, Bool, true, false, List, [], ◌∷◌, ◌++◌, arith,
}
use nova_codex_bootstrap.Cli.Uninstall.{Machine, Action, then_do, run_actions}

module _ {Raw Body : Type 0} where
  -- A step leaves a part of the host.
  abbrev pub Keeps : {A : Type 0} → (Machine Raw Body → A) → Action Raw Body → Type 0
  Keeps f a = (m : Machine Raw Body) → f (a m).1 ≡ f m

  abbrev pub AllKeep : {A : Type 0} → (Machine Raw Body → A) → List (Action Raw Body) → Type 0
  AllKeep f [] = ◌≡◌ {A = ℕ} 0 0
  AllKeep f (a ∷ actions) = Keeps f a × AllKeep f actions

  then_do-Keeps :
      {A : Type 0} (f : Machine Raw Body → A) (next : Action Raw Body) (s : Bool × Machine Raw Body)
      → Keeps f next
      → f (then_do next s).1 ≡ f s.1
  then_do-Keeps f next (true, m) h = h m
  then_do-Keeps f next (false, m) h = refl

  pub run-Keeps :
      {A : Type 0} (f : Machine Raw Body → A) (actions : List (Action Raw Body))
      → AllKeep f actions
      → Keeps f (run_actions actions)
  unfolding run_actions
  run-Keeps f [] h m = refl
  run-Keeps f (a ∷ actions) h m =
      then_do-Keeps f (run_actions actions) (a m) (run-Keeps f actions (h.1)) ∙ h.0 m

  then_do-done :
      (next : Action Raw Body) (s : Bool × Machine Raw Body) (r : Machine Raw Body)
      → then_do next s ≡ (true, r)
      → (t : Machine Raw Body) × ((s ≡ (true, t)) × (next t ≡ (true, r)))
  then_do-done next (true, m) r h = (m, (refl, h))
  then_do-done next (false, m) r h = absurd (ground arith)

  -- A step of a run that succeeds has succeeded.
  reached :
      (before : List (Action Raw Body)) (a : Action Raw Body) (after : List (Action Raw Body))
      (m r : Machine Raw Body)
      → run_actions (before ++ a ∷ after) m ≡ (true, r)
      → (s : Machine Raw Body) × (t : Machine Raw Body) × (a s ≡ (true, t))
        × (run_actions after t ≡ (true, r))
  unfolding run_actions
  reached [] a after m r h =
      let (t, (first, rest)) = then_do-done (run_actions after) (a m) r h in (m, t, first, rest)
  reached (b ∷ before) a after m r h =
      let (s, (first, rest)) = then_do-done (run_actions (before ++ a ∷ after)) (b m) r h in
      reached before a after s r rest

  -- What a step establishes and the later ones leave holds at the end.
  pub established :
      {A : Type 0} (f : Machine Raw Body → A) (v : A) (before : List (Action Raw Body))
      (a : Action Raw Body) (after : List (Action Raw Body)) (m r : Machine Raw Body)
      → ((s t : Machine Raw Body) → a s ≡ (true, t) → f t ≡ v)
      → AllKeep f after
      → run_actions (before ++ a ∷ after) m ≡ (true, r)
      → f r ≡ v
  established f v before a after m r done kept h =
      let (s, t, first, rest) = reached before a after m r h in
      sym (ap (λ (x : Bool × Machine Raw Body). f x.1) rest)
      ∙ (run-Keeps f after kept t ∙ done s t first)

  then_do-end : (s : Bool × Machine Raw Body) → then_do (λ (m : Machine Raw Body). (true, m)) s ≡ s
  then_do-end (true, m) = refl
  then_do-end (false, m) = refl

  then_do-failed :
      {A : Type 0} (f : Machine Raw Body → A) (next : Action Raw Body) (s : Bool × Machine Raw Body)
      → ((m : Machine Raw Body) → (next m).0 ≡ false → f (next m).1 ≡ f m)
      → (then_do next s).0 ≡ false
      → f (then_do next s).1 ≡ f s.1
  then_do-failed f next (true, m) end h = end m h
  then_do-failed f next (false, m) end h = refl

  -- A run whose first steps leave a part of the host leaves it, if its last step does where it fails.
  pub failed-keeps :
      {A : Type 0} (f : Machine Raw Body → A) (actions : List (Action Raw Body))
      (last : Action Raw Body) (m : Machine Raw Body)
      → AllKeep f actions
      → ((s : Machine Raw Body) → (last s).0 ≡ false → f (last s).1 ≡ f s)
      → (run_actions (actions ++ last ∷ []) m).0 ≡ false
      → f (run_actions (actions ++ last ∷ []) m).1 ≡ f m
  unfolding run_actions
  failed-keeps f [] last m kept end h =
      let same = then_do-end (last m) in
      ap (λ (x : Bool × Machine Raw Body). f x.1) same
      ∙ end m (sym (ap (λ (x : Bool × Machine Raw Body). x.0) same) ∙ h)
  failed-keeps f (a ∷ actions) last m kept end h =
      then_do-failed f (run_actions (actions ++ last ∷ [])) (a m)
        (λ t g. failed-keeps f actions last t (kept.1) end g) h
      ∙ kept.0 m

  pub all_and :
      {A : Type 0} (f : Machine Raw Body → A) (actions : List (Action Raw Body))
      (last : Action Raw Body)
      → AllKeep f actions
      → Keeps f last
      → AllKeep f (actions ++ last ∷ [])
  all_and f [] last kept end = (end, refl)
  all_and f (a ∷ actions) last kept end = (kept.0, all_and f actions last (kept.1) end)

  pub succeeded : (s : Bool × Machine Raw Body) → s.0 ≡ true → s ≡ (true, s.1)
  succeeded (true, m) h = refl
  succeeded (false, m) h = absurd (ground arith)
