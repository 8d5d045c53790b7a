-- ===== src/Hooks/Laws.antt =====
-- core/hooks.py: what an event reaches.
use Prim.Native.String.{String}
use mathlib.Core.List.{append-nil, append_assoc}
use text.Mathlib.TextEquality.{eq_iff}
use vantacore_engine.Prelude.{
  Bool-cases, List, [], ap, if◌then◌else◌, inl, inr, refl, sym, ◌++◌, ◌∙◌, ◌∷◌, ◌≡◌,
}
use vantacore_engine.Prelude.Equality.{string_eq}
use vantacore_engine.Table.Laws.{select-insert_or_replace}
use vantacore_engine.Hooks.{
  Callback, Registry, callbacks_of, or_empty, register, run_callbacks, emit,
}

-- The registrations made, in their order.
unfoldable pub register_all :
    {World Args : Type 0}
    → List (String × Callback World Args)
    → Registry World Args
    → Registry World Args
register_all [] r = r
register_all ((event_name, cb) ∷ regs) r = register_all regs (register r event_name cb)

-- Those that are for one event.
abbrev pub registered_for :
    {World Args : Type 0}
    → String
    → List (String × Callback World Args)
    → List (Callback World Args)
registered_for event_name [] = []
registered_for event_name ((other, cb) ∷ regs) =
    if string_eq.beq other event_name
    then cb ∷ registered_for event_name regs
    else registered_for event_name regs

callbacks_of-register :
    {World Args : Type 0} (r : Registry World Args) (other event_name : String)
    (cb : Callback World Args)
    → callbacks_of (register r other cb) event_name ≡ (
        if string_eq.beq other event_name
        then callbacks_of r event_name ++ (cb ∷ [])
        else callbacks_of r event_name)
unfolding callbacks_of register
callbacks_of-register r other event_name cb =
    let found = select-insert_or_replace other event_name (callbacks_of r other ++ (cb ∷ [])) r in
    elim (Bool-cases (string_eq.beq other event_name)) [
      | inl same ↦ ap or_empty found ∙ rw same (rw ((eq_iff other event_name).0 same) refl)
      | inr apart ↦ ap or_empty found ∙ rw apart refl
    ]

callbacks_of-nil :
    {World Args : Type 0} (event_name : String)
    → callbacks_of {World = World} {Args = Args} [] event_name ≡ []
unfolding callbacks_of
callbacks_of-nil event_name = refl

callbacks_of-register_all :
    {World Args : Type 0} (regs : List (String × Callback World Args)) (r : Registry World Args)
    (event_name : String)
    → callbacks_of (register_all regs r) event_name
      ≡ callbacks_of r event_name ++ registered_for event_name regs
unfolding register_all
callbacks_of-register_all [] r event_name = sym (append-nil (callbacks_of r event_name))
callbacks_of-register_all ((other, cb) ∷ regs) r event_name =
    let ih = callbacks_of-register_all regs (register r other cb) event_name in
    let one = callbacks_of-register r other event_name cb in
    elim (Bool-cases (string_eq.beq other event_name)) [
      | inl same ↦ rw same (
          ih
          ∙ ap (λ cbs. cbs ++ registered_for event_name regs) (one ∙ rw same refl)
          ∙ append_assoc (callbacks_of r event_name) (cb ∷ []) (registered_for event_name regs))
      | inr apart ↦
          rw apart (ih ∙ ap (λ cbs. cbs ++ registered_for event_name regs) (one ∙ rw apart refl))
    ]

-- Of all registrations made on an empty registry, an event runs those for that event, each once and
-- in the order of their registration, whatever each of them raises.
pub emit-register_all :
    {World Args : Type 0} (regs : List (String × Callback World Args)) (event_name : String)
    (kwargs : Args) (w : World)
    → emit (register_all regs []) event_name kwargs w
      ≡ run_callbacks (registered_for event_name regs) kwargs w
unfolding emit
emit-register_all regs event_name kwargs w =
    let all : callbacks_of (register_all regs []) event_name ≡ registered_for event_name regs =
      callbacks_of-register_all regs [] event_name
      ∙ ap (λ cbs. cbs ++ registered_for event_name regs) (callbacks_of-nil event_name) in
    ap (λ cbs. run_callbacks cbs kwargs w) all
