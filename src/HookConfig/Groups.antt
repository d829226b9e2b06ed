-- ===== src/HookConfig/Groups.antt =====
-- What removeCommand leaves of the groups of an event (notifications/internal/hookconfig/hooks.go).
use mathlib.Core.Path.{subst}
use nova_codex_bootstrap.Prelude.{
  ◌≡◌, refl, sym, ap, ◌∙◌, String, Bool, true, false, ◌||◌, List, [], ◌∷◌, any, Option, none, some,
  some-inj, arith, str_eq, eq_iff, if◌then◌else◌, inl, inr, Option-cases,
}
use nova_codex_bootstrap.Sql.{delete}
use nova_codex_bootstrap.HookConfig.Document.{
  Fields, Json, field, put, remove, is_nil, groups_for_event, handler_command, has_handler,
  handlers_for_group, contains_command, filter_group, remove_command,
}
use nova_codex_bootstrap.HookConfig.Installation.{field-put}

module _ {Raw : Type 0} where
  pub field-remove : (key : String) (fs : Fields Raw) → field key (remove key fs) ≡ none
  unfolding field
  field-remove key [] = refl
  field-remove key ((k, v) ∷ fs) = ground (arith, field-remove key fs)

  pub field-remove_other :
      (key other : String) (fs : Fields Raw)
      → str_eq key other ≡ false
      → field other (remove key fs) ≡ field other fs
  unfolding field
  field-remove_other key other [] h = refl
  field-remove_other key other ((k, v) ∷ fs) h =
      ground
        (arith, field-remove_other key other fs h, eq_iff k key, eq_iff k other, eq_iff key other)

any-deleted : {A : Type 0} (p : A → Bool) (xs : List A) → any p (delete p xs) ≡ false
any-deleted p [] = refl
any-deleted p (x ∷ xs) = ground (arith, any-deleted p xs)

-- Deleting by one test leaves another that excludes it.
any-delete_other :
    {A : Type 0} (p q : A → Bool) (xs : List A)
    → ((x : A) → p x ≡ true → q x ≡ false)
    → any q (delete p xs) ≡ any q xs
any-delete_other p q [] h = refl
any-delete_other p q (x ∷ xs) h = ground (arith, any-delete_other p q xs h, h x)

both-or : {a b c d : Bool} → a ≡ c → b ≡ d → (a || b) ≡ (c || d)
both-or p q = rw (p, q)

module _ {Raw : Type 0} (json : Json Raw)
    (object-of : (fs : Fields Raw) → json.object (json.of_object fs) ≡ some fs)
    (objects-of : (gs : List (Fields Raw)) → json.objects (json.of_objects gs) ≡ some gs) where
  abbrev pub contained : String → Option (List (Fields Raw)) → Bool
  contained command none = false
  contained command (some gs) = contains_command json gs command

  -- The hooks of an event run the command.
  abbrev pub runs_command : String → String → Fields Raw → Bool
  runs_command command event hooks = contained command (groups_for_event json hooks event)

  abbrev is_run : String → Fields Raw → Bool
  is_run command h = str_eq (handler_command json h) command

  handlers-put :
      (hs : List (Fields Raw)) (g : Fields Raw)
      → handlers_for_group json (put "hooks" (json.of_objects hs) g) ≡ some hs
  handlers-put hs g = rw (field-put "hooks" (json.of_objects hs) g) (objects-of hs)

  -- Of the groups that are left none has a handler with the command, and what else runs_command stays.
  pub record Drops (command : String) (gs fs : List (Fields Raw)) : Type 0 where
    pub again : (ks : List (Fields Raw)) × (remove_command json fs command ≡ some (ks, false))
    pub gone : contains_command json fs command ≡ false
    pub others :
        (other : String)
        → str_eq command other ≡ false
        → contains_command json fs other ≡ contains_command json gs other

  excludes :
      (command other : String) (h : Fields Raw)
      → str_eq command other ≡ false
      → is_run command h ≡ true
      → is_run other h ≡ false
  excludes command other h apart e = ground (
    arith,
    eq_iff (handler_command json h) command,
    eq_iff (handler_command json h) other,
    eq_iff command other,
  )

  has-found :
      (command : String) (g : Fields Raw) (hs : List (Fields Raw))
      → handlers_for_group json g ≡ some hs
      → has_handler json command (handlers_for_group json g) ≡ any (is_run command) hs
  has-found command g hs found = rw found

  remove-kept :
      (command : String) (g : Fields Raw) (gs fs hs : List (Fields Raw)) (removed : Bool)
      → handlers_for_group json g ≡ some hs
      → remove_command json gs command ≡ some (fs, removed)
      → remove_command json (g ∷ gs) command
        ≡ some (
          if is_nil (delete (is_run command) hs)
              then fs
              else put "hooks" (json.of_objects (delete (is_run command) hs)) g ∷ fs,
          any (is_run command) hs || removed,
        )
  unfolding remove_command filter_group
  remove-kept command g gs fs hs removed found rest = rw (found, rest)

  remove-again :
      (command : String) (g : Fields Raw) (gs fs hs : List (Fields Raw))
      → handlers_for_group json g ≡ some hs
      → any (is_run command) hs ≡ false
      → remove_command json gs command ≡ some (fs, false)
      → (ks : List (Fields Raw)) × (remove_command json (g ∷ gs) command ≡ some (ks, false))
  remove-again command g gs fs hs found none_runs rest =
      let made = remove-kept command g gs fs hs false found rest in (_, rw none_runs at made)

  kept :
      (command : String) (g : Fields Raw) (gs fs hs ks : List (Fields Raw))
      → handlers_for_group json g ≡ some hs
      → any (is_run command) ks ≡ false
      → ((other : String)
          → str_eq command other ≡ false
          → any (is_run other) ks ≡ any (is_run other) hs)
      → Drops command gs fs
      → Drops command (g ∷ gs) (if is_nil ks then fs else put "hooks" (json.of_objects ks) g ∷ fs)
  kept command g gs fs hs [] found none_runs same h = record {
    again = h.again;
    gone = h.gone;
    others = λ other apart.
        ground (arith, has-found other g hs found, same other apart, h.others other apart);
  }
  kept command g gs fs hs (k ∷ ks) found none_runs same h =
      let g' = put "hooks" (json.of_objects (k ∷ ks)) g in
      let read = handlers-put (k ∷ ks) g in
      let (rest, none_again) = h.again in
      record {
        again = remove-again command g' fs rest (k ∷ ks) read none_runs none_again;
        gone = both-or (has-found command g' (k ∷ ks) read ∙ none_runs) h.gone;
        others = λ other apart.
            both-or
              (has-found other g' (k ∷ ks) read
                ∙ (same other apart ∙ sym (has-found other g hs found)))
              (h.others other apart);
      }

  kept-Drops :
      (command : String) (g : Fields Raw) (gs fs hs ks : List (Fields Raw))
      → handlers_for_group json g ≡ some hs
      → delete (is_run command) hs ≡ ks
      → Drops command gs fs
      → Drops command (g ∷ gs) (if is_nil ks then fs else put "hooks" (json.of_objects ks) g ∷ fs)
  kept-Drops command g gs fs hs ks found left h =
      let none_runs =
        subst (λ l. any (is_run command) l ≡ false) left (any-deleted (is_run command) hs) in
      let same = λ (other : String) (apart : str_eq command other ≡ false).
        subst (λ l. any (is_run other) l ≡ any (is_run other) hs) left
          (any-delete_other (is_run command) (is_run other) hs
            (λ k e. excludes command other k apart e)) in
      kept command g gs fs hs ks found none_runs same h

  pub remove_command-Drops :
      (command : String) (gs fs : List (Fields Raw)) (removed : Bool)
      → remove_command json gs command ≡ some (fs, removed)
      → Drops command gs fs
  unfolding remove_command filter_group
  remove_command-Drops command [] fs removed h =
      let at : [] ≡ fs = ap (λ r. r.0) (some-inj h) in
      subst (Drops command []) at
        (record { again = ([], refl); gone = refl; others = λ other apart. refl })
  remove_command-Drops command (g ∷ gs) fs removed h =
      elim (Option-cases (handlers_for_group json g)) [
        | inl e ↦ absurd (ground arith)
        | inr (hs, e) ↦ elim (Option-cases (remove_command json gs command)) [
          | inl n ↦ absurd (ground arith)
          | inr ((ks, r), n) ↦
              let at = ap (λ s. s.0) (some-inj (sym (remove-kept command g gs ks hs r e n) ∙ h)) in
              subst (Drops command (g ∷ gs)) at
                (kept-Drops command g gs ks hs _ e refl (remove_command-Drops command gs ks r n))
        ]
      ]

  pub remove-contains :
      (command : String) (gs fs : List (Fields Raw)) (removed : Bool)
      → remove_command json gs command ≡ some (fs, removed)
      → contains_command json gs command ≡ removed
  unfolding remove_command filter_group
  remove-contains command [] fs removed h = ap (λ r. r.1) (some-inj h)
  remove-contains command (g ∷ gs) fs removed h = elim (Option-cases (handlers_for_group json g)) [
    | inl e ↦ absurd (ground arith)
    | inr (hs, e) ↦ elim (Option-cases (remove_command json gs command)) [
      | inl n ↦ absurd (ground arith)
      | inr ((ks, r), n) ↦
          both-or (has-found command g hs e) (remove-contains command gs ks r n)
          ∙ ap (λ s. s.1) (some-inj (sym (remove-kept command g gs ks hs r e n) ∙ h))
    ]
  ]
