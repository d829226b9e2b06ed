-- ===== src/Herdr/Watch/Coalesce.antt =====
-- How herdrLoop merges the signals that it takes before a tick
-- (notifications/internal/agent/herdr_state.go).
use mathlib.Core.Path.{subst}
use nova_codex_bootstrap.Prelude.{
  ◌+◌, ◌≤◌, ◌≡◌, refl, ap, ◌∙◌, String, ◌||◌, List, [], ◌∷◌, length, Option, some, str_eq, eq_iff,
  arith, if◌then◌else◌, inl, inr, Bool-cases,
}
use nova_codex_bootstrap.Protocol.Event.{HerdrDirtyEvent}
use nova_codex_bootstrap.Herdr.Watch.{find_signal, wants_baseline, put_signal, take_signal}

-- The loop between two ticks.
unfoldable pub take_signals : List HerdrDirtyEvent → List HerdrDirtyEvent → List HerdrDirtyEvent
take_signals [] dirty = dirty
take_signals (e ∷ es) dirty = take_signals es (take_signal e dirty)

-- What the signals of a key come to: the last of them, with a baseline if any of them wants one.
unfoldable pub merged :
    String → Option HerdrDirtyEvent → List HerdrDirtyEvent → Option HerdrDirtyEvent
merged key before [] = before
merged key before (e ∷ es) =
    merged key
      (if str_eq e.binding_key key
        then some (record e { baseline = e.baseline || wants_baseline before })
        else before)
      es

find-put :
    (key : String) (e : HerdrDirtyEvent) (dirty : List HerdrDirtyEvent)
    → find_signal key (put_signal e dirty)
      ≡ (if str_eq e.binding_key key then some e else find_signal key dirty)
unfolding find_signal put_signal
find-put key e [] = refl
find-put key e (o ∷ es) = ground (
  arith,
  find-put key e es,
  eq_iff o.binding_key key,
  eq_iff e.binding_key key,
  eq_iff o.binding_key e.binding_key,
)

length-put :
    (e : HerdrDirtyEvent) (dirty : List HerdrDirtyEvent)
    → length (put_signal e dirty) ≤ length dirty + 1
unfolding put_signal
length-put e [] = omega arith
length-put e (o ∷ es) = ground (arith, length-put e es)

-- One signal, where there is room.
find-take :
    (key : String) (e : HerdrDirtyEvent) (dirty : List HerdrDirtyEvent)
    → length dirty + 1 ≤ 128
    → find_signal key (take_signal e dirty) ≡ (
        if str_eq e.binding_key key
        then some (record e { baseline = e.baseline || wants_baseline (find_signal key dirty) })
        else find_signal key dirty)
unfolding take_signal
find-take key e dirty room =
    let f = find_signal e.binding_key dirty in
    let told : HerdrDirtyEvent = record e { baseline = e.baseline || wants_baseline f } in
    elim (Bool-cases (str_eq e.binding_key key)) [
      | inl same ↦
          subst
            (λ (k : String). find_signal k (take_signal e dirty) ≡ (
              if str_eq e.binding_key k
              then some (record e { baseline = e.baseline || wants_baseline (find_signal k dirty) })
              else find_signal k dirty))
            ((eq_iff e.binding_key key).0 same)
            (ground (arith, find-put e.binding_key told dirty, eq_iff e.binding_key e.binding_key))
      | inr other ↦ ground (arith, find-put key told dirty)
    ]

-- The map never has more than 128 signals.
pub length-take :
    (e : HerdrDirtyEvent) (dirty : List HerdrDirtyEvent)
    → length dirty ≤ 128
    → length (take_signal e dirty) ≤ 128
unfolding take_signal
length-take e dirty h = ground (
  arith,
  length-put
      (record e { baseline = e.baseline || wants_baseline (find_signal e.binding_key dirty) })
      dirty,
)

length-take-le :
    (e : HerdrDirtyEvent) (dirty : List HerdrDirtyEvent)
    → length (take_signal e dirty) ≤ length dirty + 1
unfolding take_signal
length-take-le e dirty = ground (
  arith,
  length-put
      (record e { baseline = e.baseline || wants_baseline (find_signal e.binding_key dirty) })
      dirty,
)

-- Of the signals that the Herdr loop takes between two ticks the map keeps for each key the last
-- one, with a baseline if any of them or the one before wants one, as long as the signals and
-- those held before are 128 at most.
pub take_signals-merged :
    (key : String) (es dirty : List HerdrDirtyEvent)
    → length es + length dirty ≤ 128
    → find_signal key (take_signals es dirty) ≡ merged key (find_signal key dirty) es
unfolding take_signals merged
take_signals-merged key [] dirty room = refl
take_signals-merged key (e ∷ es) dirty room =
    take_signals-merged key es (take_signal e dirty) (omega (arith, length-take-le e dirty))
    ∙ ap (λ o. merged key o es) (find-take key e dirty (omega arith))
