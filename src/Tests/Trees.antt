-- ===== src/Tests/Trees.antt =====
-- A stand-in for encoding/json: JSON as trees, with the shapes of nested data that the hooks file has.
use nova_codex_bootstrap.Prelude.{ℕ, String, ◌≡◌, refl, ap, List, [], ◌∷◌, Option, none, some}
use nova_codex_bootstrap.HookConfig.Document.{Fields, Json}

mutual
  pub data Tree : Type 0 where
    text : String → Tree
    number : ℕ → Tree
    object : Members → Tree
    objects : Objects → Tree

  pub data Members : Type 0 where
    no_member : Members
    member : String → Tree → Members → Members

  pub data Objects : Type 0 where
    no_object : Objects
    one_object : Members → Objects → Objects

abbrev to_members : Fields Tree → Members
to_members [] = no_member
to_members ((k, v) ∷ fs) = member k v (to_members fs)

abbrev from_members : Members → Fields Tree
from_members no_member = []
from_members (member k v ms) = (k, v) ∷ from_members ms

abbrev to_objects : List (Fields Tree) → Objects
to_objects [] = no_object
to_objects (g ∷ gs) = one_object (to_members g) (to_objects gs)

abbrev from_objects : Objects → List (Fields Tree)
from_objects no_object = []
from_objects (one_object ms os) = from_members ms ∷ from_objects os

abbrev read_object : Tree → Option (Fields Tree)
read_object (object ms) = some (from_members ms)
read_object _ = none

abbrev read_objects : Tree → Option (List (Fields Tree))
read_objects (objects os) = some (from_objects os)
read_objects _ = none

abbrev read_text : Tree → String
read_text (text s) = s
read_text _ = ""

abbrev pub json : Json Tree
json = record {
  object = read_object;
  objects = read_objects;
  text = read_text;
  of_object = λ fs. object (to_members fs);
  of_objects = λ gs. objects (to_objects gs);
  of_text = text;
  of_number = number;
}

members-back : (fs : Fields Tree) → from_members (to_members fs) ≡ fs
members-back [] = refl
members-back ((k, v) ∷ fs) = ap (λ rest. (k, v) ∷ rest) (members-back fs)

objects-back : (gs : List (Fields Tree)) → from_objects (to_objects gs) ≡ gs
objects-back [] = refl
objects-back (g ∷ gs) = rw (members-back g, objects-back gs)

pub object-of_object : (fs : Fields Tree) → json.object (json.of_object fs) ≡ some fs
object-of_object fs = ap some (members-back fs)

pub objects-of_objects : (gs : List (Fields Tree)) → json.objects (json.of_objects gs) ≡ some gs
objects-of_objects gs = ap some (objects-back gs)
