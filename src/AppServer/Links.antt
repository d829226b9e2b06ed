-- ===== src/AppServer/Links.antt =====
-- The time at which the configured executable changed (resolvedBinaryChangedAt of
-- notifications/internal/appservercontrol/update.go).
use mathlib.Core.Path.{subst}
use nova_codex_bootstrap.Prelude.{
  ℕ, zero, suc, ◌≤◌, ◌≡◌, ap, String, true, false, Option, some, arith, inl, inr, Bool-cases,
  Option-cases,
}
use nova_codex_bootstrap.Herdr.Socket.{FileLib}
use nova_codex_bootstrap.AppServer.Update.{
  FileInfo, Disk, target_path, later, follow, resolved_binary_changed_at,
}

module _ (lib : FileLib) (disk : Disk) where
  -- A path is on the chain of links from another.
  pub data Chain : String → String → Type 0 where
    here : {path : String} → Chain path path
    link :
        {current path target : String} {info : FileInfo}
        → disk.lstat current ≡ some info
        → info.is_symlink ≡ true
        → disk.readlink current ≡ some target
        → Chain (target_path lib disk current target) path
        → Chain current path

  -- One round: the file's own time is counted, and then the link's target or the result.
  data Follows (links : ℕ) (current : String) (at t : ℕ) : Type 0 where
    ends :
        (info : FileInfo)
        → disk.lstat current ≡ some info
        → info.is_symlink ≡ false
        → later lib disk at info.mod_time ≡ t
        → Follows links current at t
    goes :
        (info : FileInfo) (target : String)
        → disk.lstat current ≡ some info
        → disk.readlink current ≡ some target
        → follow lib disk links
            (target_path lib disk current target)
            (later lib disk at info.mod_time)
          ≡ some t
        → Follows links current at t

  follows :
      (links : ℕ) (current : String) (at t : ℕ)
      → follow lib disk (suc links) current at ≡ some t
      → Follows links current at t
  unfolding follow
  follows links current at t h = elim (Option-cases (disk.lstat current)) [
    | inl n ↦ absurd (ground (arith, rw (n, follow) at h))
    | inr (info, e) ↦ elim (Bool-cases info.is_symlink) [
      | inr plain ↦ ends info e plain (ground (arith, rw (e, plain, follow) at h))
      | inl symlink ↦ elim (Option-cases (disk.readlink current)) [
        | inl n ↦ absurd (ground (arith, rw (e, symlink, n, follow) at h))
        | inr (target, r) ↦ goes info target e r (rw (e, symlink, r, follow) at h)
      ]
    ]
  ]

  later-le : (at time : ℕ) → (at ≤ later lib disk at time) × (time ≤ later lib disk at time)
  later-le at time = (ground arith, ground arith)

  follow-le :
      (links : ℕ) (current : String) (at t : ℕ) → follow lib disk links current at ≡ some t → at ≤ t
  unfolding follow
  follow-le zero current at t h = absurd (ground arith)
  follow-le (suc links) current at t h = elim (follows links current at t h) [
    | ends info e plain l ↦ omega (arith, l, (later-le at info.mod_time).0)
    | goes info target e r rest ↦ omega (
      arith,
      follow-le links (target_path lib disk current target) (later lib disk at info.mod_time) t
          rest,
      (later-le at info.mod_time).0,
    )
  ]

  same_info : (o : Option FileInfo) (a b : FileInfo) → o ≡ some a → o ≡ some b → a ≡ b
  same_info o a b h k = cc

  same_target : (o : Option String) (a b : String) → o ≡ some a → o ≡ some b → a ≡ b
  same_target o a b h k = cc

  Chain-le :
      (links : ℕ) (current path : String) (at t : ℕ) (info : FileInfo)
      → Chain current path
      → disk.lstat path ≡ some info
      → follow lib disk links current at ≡ some t
      → info.mod_time ≤ t
  unfolding follow
  Chain-le zero current path at t info c l h = absurd (ground arith)
  Chain-le (suc links) current path at t info here l h = elim (follows links current at t h) [
    | ends other e plain last ↦
        let same : other ≡ info = same_info (disk.lstat current) other info e l in
        omega (arith, last, (later-le at other.mod_time).1, ap (λ (i : FileInfo). i.mod_time) same)
    | goes other target e r rest ↦
        let same : other ≡ info = same_info (disk.lstat current) other info e l in
        omega (
          arith,
          follow-le links (target_path lib disk current target) (later lib disk at other.mod_time) t
              rest,
          (later-le at other.mod_time).1,
          ap (λ (i : FileInfo). i.mod_time) same,
        )
  ]
  Chain-le (suc links) current path at t info (link {target = next} {info = other} e symlink r c) l
        h =
      elim (follows links current at t h) [
        | ends found f plain last ↦
            let same : other ≡ found = same_info (disk.lstat current) other found e f in
            absurd (ground (arith, ap (λ (i : FileInfo). i.is_symlink) same))
        | goes found target f s rest ↦
            let same : target ≡ next = same_target (disk.readlink current) target next s r in
            Chain-le links (target_path lib disk current next) path
              (later lib disk at found.mod_time) t info c l
              (subst
                (λ q.
                  follow lib disk links (target_path lib disk current q)
                    (later lib disk at found.mod_time)
                  ≡ some t)
                same rest)
      ]

  -- The time that is found for the configured executable is no earlier than the modification time
  -- of any link on the way to the executable, or of the executable itself.
  pub resolved_binary_changed_at-le :
      (start path : String) (t : ℕ) (info : FileInfo)
      → resolved_binary_changed_at lib disk start ≡ some t
      → Chain (lib.clean start) path
      → disk.lstat path ≡ some info
      → info.mod_time ≤ t
  unfolding resolved_binary_changed_at
  resolved_binary_changed_at-le start path t info h c l =
      Chain-le 32 (lib.clean start) path 0 t info c l h
