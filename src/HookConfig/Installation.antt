-- ===== src/HookConfig/Installation.antt =====
-- What Install leaves in the hooks file (notifications/internal/hookconfig/hooks.go).
use mathlib.Core.Path.{subst}
use nova_codex_bootstrap.Prelude.{
  ◌≡◌, refl, sym, ◌∙◌, String, Bool, true, false, List, [], ◌∷◌, ◌++◌, any, Option, none, some,
  arith, str_eq, is_empty, eq_iff, inl, inr, Bool-cases,
}
use nova_codex_bootstrap.HookConfig.Document.{
  Fields, Json, document, unchanged, saved, notification_events, field, put, members,
  groups_for_event, hooks_object, handler_command, has_handler, handlers_for_group,
  contains_command, new_group, add_group, install_events, finish, with_hooks, install,
  installed_events, installed,
}

any-last :
    {A : Type 0} (p : A → Bool) (xs : List A) (x : A) → p x ≡ true → any p (xs ++ x ∷ []) ≡ true
any-last p [] x h = ground arith
any-last p (y ∷ xs) x h = ground (arith, any-last p xs x h)

module _ {Raw : Type 0} where
  pub field-put : (key : String) (v : Raw) (fs : Fields Raw) → field key (put key v fs) ≡ some v
  unfolding field put
  field-put key v [] = ground (arith, eq_iff key key)
  field-put key v ((k, w) ∷ fs) = ground (arith, field-put key v fs)

  pub field-put_other :
      (key other : String) (v : Raw) (fs : Fields Raw)
      → str_eq key other ≡ false
      → field other (put key v fs) ≡ field other fs
  unfolding field put
  field-put_other key other v [] h = ground arith
  field-put_other key other v ((k, w) ∷ fs) h =
      ground
        (arith, field-put_other key other v fs h, eq_iff k key, eq_iff k other, eq_iff key other)

module _ {Raw : Type 0} (json : Json Raw)
    (object-of : (fs : Fields Raw) → json.object (json.of_object fs) ≡ some fs) where
  pub finish-saved :
      (d : Option (Fields Raw)) (o : Option (Fields Raw × Bool)) (e : Fields Raw)
      → finish json d o ≡ saved e
      → (t : Fields Raw × Bool) × (o ≡ some t) × (hooks_object json e ≡ some t.0)
  unfolding finish
  finish-saved d none e h = absurd (ground arith)
  finish-saved d (some (hooks, false)) e h = absurd (ground arith)
  finish-saved none (some (hooks, true)) e h = absurd (ground arith)
  finish-saved (some d) (some (hooks, true)) e h =
      let at : put "hooks" (json.of_object hooks) d ≡ e = ground arith in
      (
        (hooks, true),
        refl,
        rw (sym at, field-put "hooks" (json.of_object hooks) d) (object-of hooks),
      )

module _ {Raw : Type 0} (json : Json Raw)
    (object-of : (fs : Fields Raw) → json.object (json.of_object fs) ≡ some fs)
    (objects-of : (gs : List (Fields Raw)) → json.objects (json.of_objects gs) ≡ some gs)
    (text-of : (s : String) → json.text (json.of_text s) ≡ s) where
  new_group-has :
      (command : String)
      → has_handler json command (handlers_for_group json (new_group json command)) ≡ true
  unfolding new_group field handler_command
  new_group-has command =
      rw (objects-of _, text-of "command", text-of command) (ground (arith, eq_iff command command))

  -- The hooks of an event have the command.
  abbrev Covers : String → String → Fields Raw → Type 0
  Covers command event hooks =
      (gs : List (Fields Raw)) × (groups_for_event json hooks event ≡ some gs)
      × (contains_command json gs command ≡ true)

  put-Covers :
      (command event : String) (groups : List (Fields Raw)) (hooks : Fields Raw)
      → Covers command event
          (put event (json.of_objects (groups ++ new_group json command ∷ [])) hooks)
  put-Covers command event groups hooks = (
    groups ++ new_group json command ∷ [],
    rw (field-put event (json.of_objects (groups ++ new_group json command ∷ [])) hooks)
        (objects-of (groups ++ new_group json command ∷ [])),
    any-last (λ g. has_handler json command (handlers_for_group json g)) groups
        (new_group json command) (new_group-has command),
  )

  put-Covers_other :
      (command event other : String) (groups : List (Fields Raw)) (hooks : Fields Raw)
      → Covers command other hooks
      → Covers command other
          (put event (json.of_objects (groups ++ new_group json command ∷ [])) hooks)
  put-Covers_other command event other groups hooks (gs, h, c) =
      elim (Bool-cases (str_eq event other)) [
        | inl e ↦
            let same : event ≡ other = (eq_iff event other).0 e in
            rw (sym same) (put-Covers command event groups hooks)
        | inr e ↦ (
          gs,
          rw
              (field-put_other event other (json.of_objects (groups ++ new_group json command ∷ []))
                hooks e)
              h,
          c,
        )
      ]

  add_group-Covers :
      (command event : String) (s t : Fields Raw × Bool) (o : Option (List (Fields Raw)))
      → groups_for_event json s.0 event ≡ o
      → add_group json command event s o ≡ some t
      → Covers command event t.0
        × ((other : String) → Covers command other s.0 → Covers command other t.0)
  unfolding add_group
  add_group-Covers command event s t none found h = cc
  add_group-Covers command event (hooks, changed) t (some gs) found h =
      elim (Bool-cases (contains_command json gs command)) [
        | inl e ↦
            let same : some (hooks, changed) ≡ some t = rw e at h in
            let at : hooks ≡ t.0 = cc same in
            ((gs, rw (sym at) found, e), λ other k. subst (Covers command other) at k)
        | inr e ↦
            let same : some
                  (put event (json.of_objects (gs ++ new_group json command ∷ [])) hooks, true)
                ≡ some t =
              rw e at h in
            let at : put event (json.of_objects (gs ++ new_group json command ∷ [])) hooks ≡ t.0 =
              cc same in
            (
              subst (Covers command event) at (put-Covers command event gs hooks),
              λ other k.
                  subst (Covers command other) at (put-Covers_other command event other gs hooks k),
            )
      ]

  then_installs :
      (command event : String) (events : List String) (t : Fields Raw × Bool)
      (o : Option (Fields Raw × Bool))
      → elim o [ none ↦ none | some u ↦ install_events json command events u ] ≡ some t
      → (u : Fields Raw × Bool) × (o ≡ some u) × (install_events json command events u ≡ some t)
  then_installs command event events t none h = cc
  then_installs command event events t (some u) h = (u, refl, h)

  install_events-Covers :
      (command : String) (s t : Fields Raw × Bool)
      → install_events json command notification_events s ≡ some t
      → Covers command "PermissionRequest" t.0 × Covers command "Stop" t.0
  unfolding install_events
  install_events-Covers command s t h =
      let (u, first, rest) = then_installs command "PermissionRequest" ("Stop" ∷ []) t _ h in
      let (v, second, last) = then_installs command "Stop" [] t _ rest in
      let one = add_group-Covers command "PermissionRequest" s u _ refl first in
      let two = add_group-Covers command "Stop" u v _ refl second in
      let at : v ≡ t = cc last in
      (
        subst (λ w. Covers command "PermissionRequest" w.0) at (two.1 "PermissionRequest" one.0),
        subst (λ w. Covers command "Stop" w.0) at two.0,
      )

  installed_step :
      (command event : String) (events : List String) (hooks : Fields Raw)
      → Covers command event hooks
      → installed_events json command (event ∷ events) hooks
        ≡ installed_events json command events hooks
  unfolding installed_events
  installed_step command event events hooks (gs, f, c) = rw (f, c, installed_events)

  installed_none :
      (command : String) (hooks : Fields Raw) → installed_events json command [] hooks ≡ some true
  unfolding installed_events
  installed_none command hooks = refl

  install_step :
      (command event : String) (events : List String) (hooks : Fields Raw)
      → Covers command event hooks
      → install_events json command (event ∷ events) (hooks, false)
        ≡ install_events json command events (hooks, false)
  unfolding install_events add_group
  install_step command event events hooks (gs, f, c) = rw (f, c, install_events, add_group)

  install_none :
      (command : String) (hooks : Fields Raw)
      → install_events json command [] (hooks, false) ≡ some (hooks, false)
  unfolding install_events
  install_none command hooks = refl

  installed_events-Covers :
      (command : String) (hooks : Fields Raw)
      → Covers command "PermissionRequest" hooks
      → Covers command "Stop" hooks
      → installed_events json command notification_events hooks ≡ some true
  installed_events-Covers command hooks one two =
      installed_step command "PermissionRequest" ("Stop" ∷ []) hooks one
      ∙ (installed_step command "Stop" [] hooks two ∙ installed_none command hooks)

  install_events_again :
      (command : String) (hooks : Fields Raw)
      → Covers command "PermissionRequest" hooks
      → Covers command "Stop" hooks
      → install_events json command notification_events (hooks, false) ≡ some (hooks, false)
  install_events_again command hooks one two =
      install_step command "PermissionRequest" ("Stop" ∷ []) hooks one
      ∙ (install_step command "Stop" [] hooks two ∙ install_none command hooks)

  with_hooks-saved :
      (command : String) (d : Option (Fields Raw)) (o : Option (Fields Raw)) (e : Fields Raw)
      → with_hooks json (install_events json command notification_events) d o ≡ saved e
      → (hooks : Fields Raw) × (hooks_object json e ≡ some hooks)
        × Covers command "PermissionRequest" hooks
        × Covers command "Stop" hooks
  unfolding with_hooks
  with_hooks-saved command d none e h = absurd (ground arith)
  with_hooks-saved command d (some hooks) e h =
      let (t, made, at) =
        finish-saved json object-of d
          (install_events json command notification_events (hooks, false)) e h in
      let (one, two) = install_events-Covers command (hooks, false) t made in (t.0, at, one, two)

  -- What Install saves has the command installed for every event, and installing again changes
  -- nothing, provided that encoded objects, slices of objects and strings decode to themselves.
  pub install-installed :
      (command : String) (d : Option (Fields Raw)) (e : Fields Raw)
      → install json command (document d) ≡ saved e
      → (installed json command (document (some e)) ≡ some true)
        × (install json command (document (some e)) ≡ unchanged)
  unfolding install installed
  install-installed command d e h = elim (Bool-cases (is_empty command)) [
    | inl n ↦ absurd (ground arith)
    | inr n ↦
        let (hooks, at, one, two) =
          with_hooks-saved command d (hooks_object json (members d)) e (rw n at h) in
        (
          rw at (installed_events-Covers command hooks one two),
          rw (n, at, with_hooks, install_events_again command hooks one two),
        )
  ]
