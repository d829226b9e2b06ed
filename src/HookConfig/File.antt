-- ===== src/HookConfig/File.antt =====
-- load and save of notifications/internal/hookconfig/hooks.go, and Install and Uninstall on the file. A
-- text is what a file holds; encoding/json on whole documents is a parameter.
use nova_codex_bootstrap.Prelude.{
  ℕ, ◌*◌, ◌≡◌, ◌⊎◌, refl, String, Bool, true, false, List, [], ◌∷◌, any, Option, none, some, arith,
  ltb, ◌==◌, if◌then◌else◌, inl, inr, if_both,
}
use nova_codex_bootstrap.HookConfig.Document.{
  Fields, Json, Loaded, unreadable, document, Outcome, failed, unchanged, panicked, saved, install,
  uninstall,
}

-- json.Unmarshal into a document (`none` is an error, a nil map stands for null), MarshalIndent with a
-- line's end, and the length of a text.
pub record Files (Raw Text : Type 0) : Type 0 where
  pub parse : Text → Option (Option (Fields Raw))
  pub print : Fields Raw → Text
  pub size : Text → ℕ

-- The hooks file and its backup.
pub record HooksDisk (Text : Type 0) : Type 0 where
  pub file : Option Text
  pub backup : Option Text

-- How the backup goes, where there is none: it is written, it cannot be created, or the write breaks off
-- and leaves a text.
pub data Copying (Text : Type 0) : Type 0 where
  copies refuses : Copying Text
  breaks_off : Text → Copying Text

-- What a change meets: whether the file is readable, the directory is made, how the backup goes, and
-- whether the new file is written and renamed.
pub record Faults (Text : Type 0) : Type 0 where
  pub is_readable : Bool
  pub has_directory : Bool
  pub copying : Copying Text
  pub is_written : Bool

abbrev pub max_hooks_file_size : ℕ
max_hooks_file_size = 1024 * 1024

module _ {Raw Text : Type 0} (json : Json Raw) (files : Files Raw Text) where
  abbrev parsed : Option (Option (Fields Raw)) → Loaded Raw
  parsed none = unreadable
  parsed (some d) = document d

  -- load: the document; what it gives as the original is the file's text, if there is a file
  unfoldable pub load : Bool → Option Text → Loaded Raw
  load is_readable none = document (some [])
  load is_readable (some text) =
      if is_readable
      then (if ltb max_hooks_file_size (files.size text)
          then unreadable
          else parsed (files.parse text))
      else unreadable

  -- the backup, if the original has a text and there is no backup; true is a nil error
  unfoldable pub copy : Copying Text → Text → Option Text → Bool × Option Text
  copy copying text (some backup) = (true, some backup)
  copy copies text none = (true, some text)
  copy refuses text none = (false, none)
  copy (breaks_off rest) text none = (false, some rest)

  abbrev copied : Faults Text → HooksDisk Text → Option Text → Bool × Option Text
  copied faults disk none = (true, disk.backup)
  copied faults disk (some text) =
      if files.size text == 0 then (true, disk.backup) else copy faults.copying text disk.backup

  abbrev replaced :
      Faults Text → HooksDisk Text → Fields Raw → Bool × Option Text → Bool × HooksDisk Text
  replaced faults disk d (true, backup) =
      if faults.is_written
      then (true, record { file = some (files.print d); backup = backup })
      else (false, record disk { backup = backup })
  replaced faults disk d (false, backup) = (false, record disk { backup = backup })

  -- save; true is a nil error
  unfoldable pub save : Faults Text → HooksDisk Text → Fields Raw → Bool × HooksDisk Text
  save faults disk d =
      if faults.has_directory
      then replaced faults disk d (copied faults disk disk.file)
      else (false, disk)

  unfoldable pub apply : Faults Text → HooksDisk Text → Outcome Raw → Bool × HooksDisk Text
  apply faults disk failed = (false, disk)
  apply faults disk unchanged = (true, disk)
  apply faults disk panicked = (false, disk)
  apply faults disk (saved d) = save faults disk d

  -- Install and Uninstall
  unfoldable pub install_file : Faults Text → String → HooksDisk Text → Bool × HooksDisk Text
  install_file faults command disk =
      apply faults disk (install json command (load faults.is_readable disk.file))

  unfoldable pub uninstall_file : Faults Text → String → HooksDisk Text → Bool × HooksDisk Text
  uninstall_file faults command disk =
      apply faults disk (uninstall json command (load faults.is_readable disk.file))

  -- A change of the file: an installation or a removal of a command.
  pub record Change : Type 0 where
    pub installs : Bool
    pub command : String
    pub faults : Faults Text

  unfoldable pub change : HooksDisk Text → Change → HooksDisk Text
  change disk c =
      if c.installs
      then (install_file c.faults c.command disk).1
      else (uninstall_file c.faults c.command disk).1

  unfoldable pub change_all : HooksDisk Text → List Change → HooksDisk Text
  change_all disk [] = disk
  change_all disk (c ∷ cs) = change_all (change disk c) cs

  abbrev pub is_broken_off : Copying Text → Bool
  is_broken_off copies = false
  is_broken_off refuses = false
  is_broken_off (breaks_off rest) = true

  -- The user's text is the file, with no backup, or it is the backup.
  abbrev pub IsKept : Text → HooksDisk Text → Type 0
  IsKept text disk = ((disk.file ≡ some text) × (disk.backup ≡ none)) ⊎ (disk.backup ≡ some text)

  -- A backup that holds the text, or was not made.
  abbrev IsCopied : Text → Option Text → Bool × Option Text → Type 0
  IsCopied text file r = (r.1 ≡ some text) ⊎ ((r.0 ≡ false) × (r.1 ≡ none) × (file ≡ some text))

  copy-IsCopied :
      (text : Text) (copying : Copying Text)
      → is_broken_off copying ≡ false
      → IsCopied text (some text) (copy copying text none)
  unfolding copy
  copy-IsCopied text copies whole = inl refl
  copy-IsCopied text refuses whole = inr (refl, refl, refl)
  copy-IsCopied text (breaks_off rest) whole = absurd (ground arith)

  backed_up :
      (text : Text) (faults : Faults Text) (disk : HooksDisk Text) (o : Option Text)
      → disk.backup ≡ some text
      → (copied faults disk o).1 ≡ some text
  unfolding copy
  backed_up text faults disk none h = h
  backed_up text faults disk (some t) h =
      if_both (λ (r : Bool × Option Text). r.1 ≡ some text) (files.size t == 0) (true, disk.backup)
        (copy faults.copying t disk.backup) h (rw h refl)

  copied-IsCopied :
      (text : Text) (faults : Faults Text) (disk : HooksDisk Text)
      → (files.size text == 0) ≡ false
      → is_broken_off faults.copying ≡ false
      → IsKept text disk
      → IsCopied text disk.file (copied faults disk disk.file)
  copied-IsCopied text faults disk some_text whole (inl (f, b)) =
      rw (f, some_text, b) (copy-IsCopied text faults.copying whole)
  copied-IsCopied text faults disk some_text whole (inr b) =
      inl (backed_up text faults disk disk.file b)

  replaced-IsKept :
      (text : Text) (faults : Faults Text) (disk : HooksDisk Text) (d : Fields Raw)
      (r : Bool × Option Text)
      → IsCopied text disk.file r
      → IsKept text (replaced faults disk d r).1
  replaced-IsKept text faults disk d (true, backup) (inl b) =
      if_both (λ (t : Bool × HooksDisk Text). IsKept text t.1) faults.is_written
        (true, record { file = some (files.print d); backup = backup })
        (false, record disk { backup = backup }) (inr b) (inr b)
  replaced-IsKept text faults disk d (true, backup) (inr (n, b, f)) = absurd (ground arith)
  replaced-IsKept text faults disk d (false, backup) (inl b) = inr b
  replaced-IsKept text faults disk d (false, backup) (inr (n, b, f)) = inl (f, b)

  apply-IsKept :
      (text : Text) (faults : Faults Text) (disk : HooksDisk Text) (o : Outcome Raw)
      → (files.size text == 0) ≡ false
      → is_broken_off faults.copying ≡ false
      → IsKept text disk
      → IsKept text (apply faults disk o).1
  unfolding apply save
  apply-IsKept text faults disk failed some_text whole h = h
  apply-IsKept text faults disk unchanged some_text whole h = h
  apply-IsKept text faults disk panicked some_text whole h = h
  apply-IsKept text faults disk (saved d) some_text whole h =
      if_both (λ (t : Bool × HooksDisk Text). IsKept text t.1) faults.has_directory
        (replaced faults disk d (copied faults disk disk.file)) (false, disk)
        (replaced-IsKept text faults disk d (copied faults disk disk.file)
          (copied-IsCopied text faults disk some_text whole h))
        h

  change-IsKept :
      (text : Text) (disk : HooksDisk Text) (c : Change)
      → (files.size text == 0) ≡ false
      → is_broken_off c.faults.copying ≡ false
      → IsKept text disk
      → IsKept text (change disk c)
  unfolding change install_file uninstall_file
  change-IsKept text disk c some_text whole h =
      let read = load c.faults.is_readable disk.file in
      if_both (IsKept text) c.installs (apply c.faults disk (install json c.command read)).1
        (apply c.faults disk (uninstall json c.command read)).1
        (apply-IsKept text c.faults disk (install json c.command read) some_text whole h)
        (apply-IsKept text c.faults disk (uninstall json c.command read) some_text whole h)

  changes-IsKept :
      (text : Text) (cs : List Change) (disk : HooksDisk Text)
      → (files.size text == 0) ≡ false
      → any (λ c. is_broken_off c.faults.copying) cs ≡ false
      → IsKept text disk
      → IsKept text (change_all disk cs)
  unfolding change_all
  changes-IsKept text [] disk some_text whole h = h
  changes-IsKept text (c ∷ cs) disk some_text whole h =
      changes-IsKept text cs (change disk c) some_text (ground arith)
        (change-IsKept text disk c some_text (ground arith) h)

  -- Whatever installations and removals are made on a hooks file that is not empty and has no
  -- backup, and whatever fails of them except that the write of a backup breaks off, the first
  -- text of the file is never lost: it is still the file, and there is no backup, or it is the
  -- backup.
  pub change_all-IsKept :
      (text : Text) (cs : List Change)
      → (files.size text == 0) ≡ false
      → any (λ c. is_broken_off c.faults.copying) cs ≡ false
      → IsKept text (change_all (record { file = some text; backup = none }) cs)
  change_all-IsKept text cs some_text whole =
      changes-IsKept text cs _ some_text whole (inl (refl, refl))
