-- ===== src/HookConfig/Removal.antt =====
-- What Uninstall leaves in the hooks file (notifications/internal/hookconfig/hooks.go).
use mathlib.Core.Path.{subst}
use nova_codex_bootstrap.Prelude.{
  ◌≡◌, refl, sym, ap, ◌∙◌, String, Bool, true, false, List, [], ◌∷◌, Option, none, some, some-inj,
  arith, str_eq, is_empty, if◌then◌else◌, inl, inr, Bool-cases, Option-cases,
}
use nova_codex_bootstrap.HookConfig.Document.{
  Fields, Json, document, unchanged, saved, notification_events, put, remove, members, is_nil,
  groups_for_event, hooks_object, remove_command, drop_group, drop_from, uninstall_events,
  with_hooks, uninstall,
}
use nova_codex_bootstrap.HookConfig.Groups.{
  contained, runs_command, field-remove, field-remove_other, remove_command-Drops, remove-contains,
}
use nova_codex_bootstrap.HookConfig.Installation.{field-put, field-put_other, finish-saved}

module _ {Raw : Type 0} (json : Json Raw)
    (object-of : (fs : Fields Raw) → json.object (json.of_object fs) ≡ some fs)
    (objects-of : (gs : List (Fields Raw)) → json.objects (json.of_objects gs) ≡ some gs) where
  -- No handler of an event has the command, and removing it changes nothing.
  abbrev pub Lacks : String → String → Fields Raw → Type 0
  Lacks command event hooks =
      (gs : List (Fields Raw)) × (ks : List (Fields Raw)) × (groups_for_event json hooks event
        ≡ some gs)
      × (remove_command json gs command ≡ some (ks, false))

  -- What a round of Uninstall does to the hooks.
  record Rounds (command event : String) (hooks after : Fields Raw) : Type 0 where
    gone : Lacks command event after
    stays :
        (other : String)
        → str_eq command other ≡ false
        → runs_command json object-of objects-of other event after
          ≡ runs_command json object-of objects-of other event hooks
    elsewhere :
        (other : String)
        → str_eq event other ≡ false
        → groups_for_event json after other ≡ groups_for_event json hooks other

  abbrev left_groups : String → List (Fields Raw) → Fields Raw → Fields Raw
  left_groups event fs hooks =
      if is_nil fs then remove event hooks else put event (json.of_objects fs) hooks

  groups-left_groups :
      (event : String) (fs : List (Fields Raw)) (hooks : Fields Raw)
      → groups_for_event json (left_groups event fs hooks) event ≡ some fs
  groups-left_groups event [] hooks = rw (field-remove event hooks)
  groups-left_groups event (g ∷ gs) hooks =
      rw (field-put event (json.of_objects (g ∷ gs)) hooks) (objects-of (g ∷ gs))

  groups-left_groups_other :
      (event other : String) (fs : List (Fields Raw)) (hooks : Fields Raw)
      → str_eq event other ≡ false
      → groups_for_event json (left_groups event fs hooks) other ≡ groups_for_event json hooks other
  groups-left_groups_other event other [] hooks h = rw (field-remove_other event other hooks h)
  groups-left_groups_other event other (g ∷ gs) hooks h =
      rw (field-put_other event other (json.of_objects (g ∷ gs)) hooks h)

  -- The round, by what is removed.
  removed-Rounds :
      (command event : String) (hooks after : Fields Raw) (changed c removed : Bool)
      (gs fs : List (Fields Raw))
      → groups_for_event json hooks event ≡ some gs
      → remove_command json gs command ≡ some (fs, removed)
      → drop_group json event (hooks, changed) (some (fs, removed)) ≡ some (after, c)
      → Rounds command event hooks after
  unfolding drop_group
  removed-Rounds command event hooks after changed c false gs fs found made h =
      subst (Rounds command event hooks) (ap (λ s. s.0) (some-inj h)) (record {
        gone = (gs, fs, found, made);
        stays = λ other apart. refl;
        elsewhere = λ other apart. refl;
      })
  removed-Rounds command event hooks after changed c true gs fs found made h =
      let drops = remove_command-Drops json object-of objects-of command gs fs true made in
      let (ks, again) = drops.again in
      subst (Rounds command event hooks) (ap (λ s. s.0) (some-inj h)) (record {
        gone = (fs, ks, groups-left_groups event fs hooks, again);
        stays = λ other apart.
            ap (contained json object-of objects-of other) (groups-left_groups event fs hooks)
            ∙ (drops.others other apart
                ∙ sym (ap (contained json object-of objects-of other) found));
        elsewhere = λ other apart. groups-left_groups_other event other fs hooks apart;
      })

  drop_from-Rounds :
      (command event : String) (s t : Fields Raw × Bool) (o : Option (List (Fields Raw)))
      → groups_for_event json s.0 event ≡ o
      → drop_from json command event s o ≡ some t
      → Rounds command event s.0 t.0
  unfolding drop_from
  drop_from-Rounds command event s t none found h = absurd (ground arith)
  drop_from-Rounds command event (hooks, changed) (after, c) (some gs) found h =
      elim (Option-cases (remove_command json gs command)) [
        | inl e ↦ absurd (unfold drop_group in ground arith)
        | inr ((fs, removed), e) ↦
            removed-Rounds command event hooks after changed c removed gs fs found e (rw e at h)
      ]

  then_uninstalls :
      (command : String) (events : List String) (t : Fields Raw × Bool)
      (o : Option (Fields Raw × Bool))
      → elim o [ none ↦ none | some u ↦ uninstall_events json command events u ] ≡ some t
      → (u : Fields Raw × Bool) × (o ≡ some u) × (uninstall_events json command events u ≡ some t)
  then_uninstalls command events t none h = cc
  then_uninstalls command events t (some u) h = (u, refl, h)

  permission_not_stop : str_eq "PermissionRequest" "Stop" ≡ false
  permission_not_stop = refl

  stop_not_permission : str_eq "Stop" "PermissionRequest" ≡ false
  stop_not_permission = refl

  Lacks-runs :
      (command event : String) (hooks : Fields Raw)
      → Lacks command event hooks
      → runs_command json object-of objects-of command event hooks ≡ false
  Lacks-runs command event hooks (gs, ks, found, made) =
      ap (contained json object-of objects-of command) found
      ∙ remove-contains json object-of objects-of command gs ks false made

  -- The hooks after an Uninstall, against those before it.
  pub record Uninstalled (command : String) (before after : Fields Raw) : Type 0 where
    pub permission : Lacks command "PermissionRequest" after
    pub stop : Lacks command "Stop" after
    pub gone :
        (runs_command json object-of objects-of command "PermissionRequest" after ≡ false)
        × (runs_command json object-of objects-of command "Stop" after ≡ false)
    pub permission_stays :
        (other : String)
        → str_eq command other ≡ false
        → runs_command json object-of objects-of other "PermissionRequest" after
          ≡ runs_command json object-of objects-of other "PermissionRequest" before
    pub stop_stays :
        (other : String)
        → str_eq command other ≡ false
        → runs_command json object-of objects-of other "Stop" after
          ≡ runs_command json object-of objects-of other "Stop" before

  uninstall_events-Uninstalled :
      (command : String) (s t : Fields Raw × Bool)
      → uninstall_events json command notification_events s ≡ some t
      → Uninstalled command s.0 t.0
  unfolding uninstall_events
  uninstall_events-Uninstalled command s t h =
      let (u, first, rest) = then_uninstalls command ("Stop" ∷ []) t _ h in
      let (v, second, last) = then_uninstalls command [] t _ rest in
      let one = drop_from-Rounds command "PermissionRequest" s u _ refl first in
      let two = drop_from-Rounds command "Stop" u v _ refl second in
      let (gs, ks, found, made) = one.gone in
      let same = two.elsewhere "PermissionRequest" stop_not_permission in
      subst (λ (w : Fields Raw × Bool). Uninstalled command s.0 w.0) (some-inj last)
        (record {
          permission = (gs, ks, same ∙ found, made);
          stop = two.gone;
          gone = (
            Lacks-runs command "PermissionRequest" v.0 (gs, ks, same ∙ found, made),
            Lacks-runs command "Stop" v.0 two.gone,
          );
          permission_stays = λ other apart.
              ap (contained json object-of objects-of other) same ∙ one.stays other apart;
          stop_stays = λ other apart.
              two.stays other apart
              ∙ ap (contained json object-of objects-of other)
                  (one.elsewhere "Stop" permission_not_stop);
        })

  lacking_step :
      (command event : String) (events : List String) (hooks : Fields Raw)
      → Lacks command event hooks
      → uninstall_events json command (event ∷ events) (hooks, false)
        ≡ uninstall_events json command events (hooks, false)
  unfolding uninstall_events drop_from drop_group
  lacking_step command event events hooks (gs, ks, found, made) =
      rw (found, made, uninstall_events, drop_from, drop_group)

  uninstall_none :
      (command : String) (hooks : Fields Raw)
      → uninstall_events json command [] (hooks, false) ≡ some (hooks, false)
  unfolding uninstall_events
  uninstall_none command hooks = refl

  -- What Uninstall saves has no handler with the command for either event and as before, for each
  -- event and any other command, whether a handler has it; and removing the command again changes
  -- nothing, provided that encoded objects and slices of objects decode to themselves.
  pub uninstall-Uninstalled :
      (command : String) (d : Option (Fields Raw)) (e : Fields Raw)
      → uninstall json command (document d) ≡ saved e
      → (before : Fields Raw) × (after : Fields Raw) × (hooks_object json (members d) ≡ some before)
        × (hooks_object json e ≡ some after)
        × Uninstalled command before after
        × (uninstall json command (document (some e)) ≡ unchanged)
  unfolding uninstall with_hooks
  uninstall-Uninstalled command d e h = elim (Bool-cases (is_empty command)) [
    | inl n ↦ absurd (ground arith)
    | inr n ↦ elim (Option-cases (hooks_object json (members d))) [
      | inl m ↦ absurd (ground arith)
      | inr (before, m) ↦
          let (t, made, at) =
            finish-saved json object-of d
              (uninstall_events json command notification_events (before, false)) e
              (rw (n, m) at h) in
          let done = uninstall_events-Uninstalled command (before, false) t made in
          let again =
            lacking_step command "PermissionRequest" ("Stop" ∷ []) t.0 done.permission
            ∙ (lacking_step command "Stop" [] t.0 done.stop ∙ uninstall_none command t.0) in
          (before, t.0, m, at, done, rw (n, at, with_hooks, again) refl)
    ]
  ]
