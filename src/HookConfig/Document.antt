-- ===== src/HookConfig/Document.antt =====
-- Install, Uninstall and Installed of notifications/internal/hookconfig/hooks.go, from the loaded
-- document to the document that is saved.
use nova_codex_bootstrap.Prelude.{
  ℕ, String, Bool, true, false, not, ◌||◌, List, [], ◌∷◌, ◌++◌, any, Option, none, some, str_eq,
  is_empty, if◌then◌else◌,
}
use nova_codex_bootstrap.Sql.{delete}

-- A rawObject: its members by key.
abbrev pub Fields : Type 0 → Type 0
Fields Raw = List (String × Raw)

-- encoding/json on raw messages: Unmarshal into an object and into a slice of objects (`none` is an
-- error, null is empty), into a string ("" where it fails), and Marshal.
pub record Json (Raw : Type 0) : Type 0 where
  pub object : Raw → Option (Fields Raw)
  pub objects : Raw → Option (List (Fields Raw))
  pub text : Raw → String
  pub of_object : Fields Raw → Raw
  pub of_objects : List (Fields Raw) → Raw
  pub of_text : String → Raw
  pub of_number : ℕ → Raw

-- What load gives: an error, or the document, which is a nil map (`none`) where the file holds null.
-- A missing file is an empty document.
pub data Loaded (Raw : Type 0) : Type 0 where
  unreadable : Loaded Raw
  document : Option (Fields Raw) → Loaded Raw

-- What a change comes to; `panicked` is the assignment to a member of a nil map.
pub data Outcome (Raw : Type 0) : Type 0 where
  failed unchanged panicked : Outcome Raw
  saved : Fields Raw → Outcome Raw

abbrev pub notification_events : List String
notification_events = "PermissionRequest" ∷ "Stop" ∷ []

module _ {Raw : Type 0} where
  -- m[key]; `none` is a missing key
  unfoldable pub field : String → Fields Raw → Option Raw
  field key [] = none
  field key ((k, v) ∷ fs) = let rest = field key fs in if str_eq k key then some v else rest

  -- m[key] = v
  unfoldable pub put : String → Raw → Fields Raw → Fields Raw
  put key v [] = (key, v) ∷ []
  put key v ((k, w) ∷ fs) =
      let rest = put key v fs in if str_eq k key then (k, v) ∷ fs else (k, w) ∷ rest

  -- delete(m, key)
  abbrev pub remove : String → Fields Raw → Fields Raw
  remove key fs = delete (λ m. str_eq m.0 key) fs

  abbrev pub members : Option (Fields Raw) → Fields Raw
  members none = []
  members (some fs) = fs

  abbrev pub is_nil : List (Fields Raw) → Bool
  is_nil [] = true
  is_nil (g ∷ gs) = false

module _ {Raw : Type 0} (json : Json Raw) where
  abbrev pub object_or_empty : Option Raw → Option (Fields Raw)
  object_or_empty none = some []
  object_or_empty (some raw) = json.object raw

  abbrev pub hooks_object : Fields Raw → Option (Fields Raw)
  hooks_object d = object_or_empty (field "hooks" d)

  abbrev pub objects_or_empty : Option Raw → Option (List (Fields Raw))
  objects_or_empty none = some []
  objects_or_empty (some raw) = json.objects raw

  abbrev pub groups_for_event : Fields Raw → String → Option (List (Fields Raw))
  groups_for_event hooks event = objects_or_empty (field event hooks)

  abbrev pub objects_or_error : Option Raw → Option (List (Fields Raw))
  objects_or_error none = none
  objects_or_error (some raw) = json.objects raw

  abbrev pub handlers_for_group : Fields Raw → Option (List (Fields Raw))
  handlers_for_group group = objects_or_error (field "hooks" group)

  abbrev pub text_or_empty : Option Raw → String
  text_or_empty none = ""
  text_or_empty (some raw) = json.text raw

  unfoldable pub handler_command : Fields Raw → String
  handler_command h =
      if not (str_eq (text_or_empty (field "type" h)) "command")
      then ""
      else text_or_empty (field "command" h)

  abbrev pub has_handler : String → Option (List (Fields Raw)) → Bool
  has_handler command none = false
  has_handler command (some handlers) = any (λ h. str_eq (handler_command h) command) handlers

  abbrev pub contains_command : List (Fields Raw) → String → Bool
  contains_command groups command = any (λ g. has_handler command (handlers_for_group g)) groups

  -- one group of removeCommand, before the groups that follow
  unfoldable pub filter_group :
      String
      → Fields Raw
      → Option (List (Fields Raw))
      → Option (List (Fields Raw) × Bool)
      → Option (List (Fields Raw) × Bool)
  filter_group command g none rest = none
  filter_group command g (some handlers) none = none
  filter_group command g (some handlers) (some (gs, removed)) =
      let filtered = delete (λ h. str_eq (handler_command h) command) handlers in
      some (
        if is_nil filtered then gs else put "hooks" (json.of_objects filtered) g ∷ gs,
        any (λ h. str_eq (handler_command h) command) handlers || removed,
      )

  unfoldable pub remove_command : List (Fields Raw) → String → Option (List (Fields Raw) × Bool)
  unfolding filter_group
  remove_command [] command = some ([], false)
  remove_command (g ∷ gs) command =
      filter_group command g (handlers_for_group g) (remove_command gs command)

  unfoldable pub new_group : String → Fields Raw
  new_group command =
      (
        "hooks",
        json.of_objects (
            (("type", json.of_text "command")
              ∷ ("command", json.of_text command)
              ∷ ("timeout", json.of_number 3)
              ∷ ("statusMessage", json.of_text "Notifying NovaScale")
              ∷ [])
            ∷ []),
      )
      ∷ []

  -- one round of Install's loop; the flag is `changed`
  unfoldable pub add_group :
      String → String → Fields Raw × Bool → Option (List (Fields Raw)) → Option (Fields Raw × Bool)
  add_group command event s none = none
  add_group command event (hooks, changed) (some groups) =
      if contains_command groups command
      then some (hooks, changed)
      else some (put event (json.of_objects (groups ++ new_group command ∷ [])) hooks, true)

  unfoldable pub install_events :
      String → List String → Fields Raw × Bool → Option (Fields Raw × Bool)
  install_events command [] s = some s
  install_events command (event ∷ events) s =
      elim (add_group command event s (groups_for_event s.0 event)) [
        | none ↦ none
        | some t ↦ install_events command events t
      ]

  -- one round of Uninstall's loop
  unfoldable pub drop_group :
      String → Fields Raw × Bool → Option (List (Fields Raw) × Bool) → Option (Fields Raw × Bool)
  drop_group event s none = none
  drop_group event s (some (filtered, false)) = some s
  drop_group event (hooks, changed) (some (filtered, true)) = some (
    if is_nil filtered then remove event hooks else put event (json.of_objects filtered) hooks,
    true,
  )

  unfoldable pub drop_from :
      String → String → Fields Raw × Bool → Option (List (Fields Raw)) → Option (Fields Raw × Bool)
  unfolding drop_group remove_command
  drop_from command event s none = none
  drop_from command event s (some groups) = drop_group event s (remove_command groups command)

  unfoldable pub uninstall_events :
      String → List String → Fields Raw × Bool → Option (Fields Raw × Bool)
  unfolding drop_from
  uninstall_events command [] s = some s
  uninstall_events command (event ∷ events) s =
      elim (drop_from command event s (groups_for_event s.0 event)) [
        | none ↦ none
        | some t ↦ uninstall_events command events t
      ]

  -- the end of both: the hooks are put into the document if they changed
  unfoldable pub finish : Option (Fields Raw) → Option (Fields Raw × Bool) → Outcome Raw
  finish d none = failed
  finish d (some (hooks, false)) = unchanged
  finish none (some (hooks, true)) = panicked
  finish (some d) (some (hooks, true)) = saved (put "hooks" (json.of_object hooks) d)

  unfoldable pub with_hooks :
      (Fields Raw × Bool → Option (Fields Raw × Bool))
      → Option (Fields Raw)
      → Option (Fields Raw)
      → Outcome Raw
  unfolding finish
  with_hooks change d none = failed
  with_hooks change d (some hooks) = finish d (change (hooks, false))

  -- Install
  unfoldable pub install : String → Loaded Raw → Outcome Raw
  unfolding with_hooks
  install command unreadable = failed
  install command (document d) =
      if is_empty command
      then failed
      else with_hooks (install_events command notification_events) d (hooks_object (members d))

  -- Uninstall
  unfoldable pub uninstall : String → Loaded Raw → Outcome Raw
  unfolding with_hooks uninstall_events
  uninstall command unreadable = failed
  uninstall command (document d) =
      if is_empty command
      then failed
      else with_hooks (uninstall_events command notification_events) d (hooks_object (members d))

  -- the loop of Installed over the events; `none` is an error
  unfoldable pub installed_events : String → List String → Fields Raw → Option Bool
  installed_events command [] hooks = some true
  installed_events command (event ∷ events) hooks = elim (groups_for_event hooks event) [
    | none ↦ none
    | some groups ↦
        let rest = installed_events command events hooks in
        if contains_command groups command then rest else some false
  ]

  abbrev pub installed_in : String → Option (Fields Raw) → Option Bool
  installed_in command none = none
  installed_in command (some hooks) = installed_events command notification_events hooks

  -- Installed
  unfoldable pub installed : String → Loaded Raw → Option Bool
  unfolding installed_events
  installed command unreadable = none
  installed command (document d) = installed_in command (hooks_object (members d))
