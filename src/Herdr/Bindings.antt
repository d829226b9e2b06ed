-- ===== src/Herdr/Bindings.antt =====
-- Bindings of Herdr sockets to opaque session identities: BindHerdr, HerdrBinding and HerdrBindings
-- of notifications/internal/agent/herdr_state.go.
use nova_codex_bootstrap.Prelude.{
  suc, ◌≤◌, ◌≡◌, refl, ap, String, Bool, true, not, ◌&&◌, List, [], ◌∷◌, ◌++◌, any, select, take,
  length, Option, none, some, ltb, leb, str_eq, if◌then◌else◌, arith, length-append,
}
use nova_codex_bootstrap.Sql.{update, order_by}
use nova_codex_bootstrap.Protocol.Event.{Time}
use nova_codex_bootstrap.Queue.Rows.{Queue, Binding}

abbrev pub has_key : String → Binding → Bool
has_key key b = str_eq b.binding_key key

-- SELECT ... WHERE binding_key = ?
unfoldable pub find_binding : String → List Binding → Option Binding
find_binding key [] = none
find_binding key (b ∷ bs) = let rest = find_binding key bs in if has_key key b then some b else rest

length-update :
    (p : Binding → Bool) (f : Binding → Binding) (bs : List Binding)
    → length (update p f bs) ≡ length bs
length-update p f [] = refl
length-update p f (b ∷ bs) = ap suc (length-update p f bs)

module _ {Body : Type 0} where
  -- HerdrBinding; `none` is sql.ErrNoRows
  abbrev pub herdr_binding : Queue Body → String → Option Binding
  herdr_binding q key = find_binding key q.bindings

  -- HerdrBindings
  unfoldable pub herdr_bindings : Queue Body → List Binding
  herdr_bindings q =
      take 128
        (order_by (λ a b. leb b.updated_at a.updated_at) (select (λ b. b.enabled) q.bindings))

  -- the binding is there: it is enabled again, if capture is on
  rebind : Queue Body → String → Time → Binding → Option (Binding × Queue Body)
  rebind q key now b =
      if q.capture
      then some (
        record b { enabled = true },
        record q {
          bindings =
              update (has_key key) (λ c. record c { updated_at = now; enabled = true }) q.bindings;
        },
      )
      else none

  -- the binding is new: it is inserted under a fresh session id, if there is room and capture is on;
  -- a session id that is taken violates the table's UNIQUE constraint
  insert_binding :
      Queue Body → String → String → Time → Option String → Option (Binding × Queue Body)
  insert_binding q key socket now none = none
  insert_binding q key socket now (some id) =
      if ltb (length q.bindings) 128
        && q.capture
        && not (any (λ b. str_eq b.session_id id) q.bindings)
      then (let b : Binding = record {
        binding_key = key;
        session_id = id;
        socket_path = socket;
        incarnation = "";
        updated_at = now;
        enabled = true;
      } in
          some (b, record q { bindings = q.bindings ++ b ∷ [] }))
      else none

  bind_found :
      Queue Body
      → String
      → String
      → Time
      → Option String
      → Option Binding
      → Option (Binding × Queue Body)
  bind_found q key socket now fresh (some b) = rebind q key now b
  bind_found q key socket now fresh none = insert_binding q key socket now fresh

  -- BindHerdr: the binding and the queue after it; `none` is an error, and then nothing has changed.
  -- `key` is HerdrBindingKey of the socket, and `fresh` the identifier that NewUUID gives, if it does.
  unfoldable pub bind_herdr :
      Queue Body → String → String → Time → Option String → Option (Binding × Queue Body)
  unfolding bind_found rebind insert_binding
  bind_herdr q key socket now fresh = bind_found q key socket now fresh (herdr_binding q key)

  bind_found-le :
      (q : Queue Body) (key socket : String) (now : Time) (fresh : Option String)
      (o : Option Binding) (b : Binding) (r : Queue Body)
      → bind_found q key socket now fresh o ≡ some (b, r)
      → length q.bindings ≤ 128
      → (length r.bindings ≤ 128)
        × (b.enabled ≡ true)
        × (q.capture ≡ true)
        × (r.pending ≡ q.pending)
  unfolding bind_found rebind insert_binding
  bind_found-le q key socket now fresh (some c) b r h le = ground (
    arith,
    length-update (has_key key) (λ c. record c { updated_at = now; enabled = true }) q.bindings,
  )
  bind_found-le q key socket now none none b r h le = cc
  bind_found-le q key socket now (some id) none b r h le =
      ground (arith, length-append q.bindings (b ∷ []))

  rebind_same :
      (q : Queue Body) (key : String) (now : Time) (b c : Binding) (r : Queue Body)
      → rebind q key now b ≡ some (c, r)
      → (c ≡ record b { enabled = true }) × (length r.bindings ≡ length q.bindings)
  unfolding rebind
  rebind_same q key now b c r h = ground (
    arith,
    length-update (has_key key) (λ (d : Binding). record d { updated_at = now; enabled = true })
        q.bindings,
  )

  -- A bound socket keeps its session identity and incarnation: binding it again returns them and
  -- adds no row.
  pub bind_herdr_again :
      (q : Queue Body) (key socket : String) (now : Time) (fresh : Option String) (b c : Binding)
      (r : Queue Body)
      → find_binding key q.bindings ≡ some b
      → bind_herdr q key socket now fresh ≡ some (c, r)
      → (c ≡ record b { enabled = true }) × (length r.bindings ≡ length q.bindings)
  unfolding bind_herdr
  bind_herdr_again q key socket now fresh b c r found h =
      rebind_same q key now b c r (rw (found, bind_found) at h)

  -- A successful binding is enabled, is made only while capture is on, leaves the pending events,
  -- and never brings a table of at most 128 rows beyond 128.
  pub bind_herdr-le :
      (q : Queue Body) (key socket : String) (now : Time) (fresh : Option String) (b : Binding)
      (r : Queue Body)
      → bind_herdr q key socket now fresh ≡ some (b, r)
      → length q.bindings ≤ 128
      → (length r.bindings ≤ 128)
        × (b.enabled ≡ true)
        × (q.capture ≡ true)
        × (r.pending ≡ q.pending)
  unfolding bind_herdr
  bind_herdr-le q key socket now fresh b r h le =
      bind_found-le q key socket now fresh (herdr_binding q key) b r h le

  bind_found_keeps :
      (q : Queue Body) (key socket : String) (now : Time) (fresh : Option String)
      (o : Option Binding) (b : Binding) (r : Queue Body)
      → bind_found q key socket now fresh o ≡ some (b, r)
      → (r.panes ≡ q.panes) × (r.capture ≡ q.capture)
  unfolding bind_found rebind insert_binding
  bind_found_keeps q key socket now fresh (some c) b r h = ground arith
  bind_found_keeps q key socket now none none b r h = cc
  bind_found_keeps q key socket now (some id) none b r h = ground arith

  -- A successful binding leaves the panes and whether capture is on.
  pub bind_herdr_keeps :
      (q : Queue Body) (key socket : String) (now : Time) (fresh : Option String) (b : Binding)
      (r : Queue Body)
      → bind_herdr q key socket now fresh ≡ some (b, r)
      → (r.panes ≡ q.panes) × (r.capture ≡ q.capture)
  unfolding bind_herdr
  bind_herdr_keeps q key socket now fresh b r h =
      bind_found_keeps q key socket now fresh (herdr_binding q key) b r h
