-- ===== src/Core/Client/Held.antt =====
-- crates/smkvm-core/src/client.rs: what a client holds, on a platform that may refuse anything. What was
-- refused is read off the log of the same run.
use smkvm.Base.{true, false, ◌≡◌, sym, ap, ◌∙◌, List}
use smkvm.Input.Inject.{Inject, IsObedient}
use smkvm.Input.Logged.{Item, logged, refused, has, holds}
use smkvm.Core.Client.{Client}
use smkvm.Core.Client.Session.{Event, step, run, all_typed, lets_go}
use smkvm.Core.Client.Runs.{run-Agrees}
use smkvm.Core.Client.Loose.{holds-step-logged}
use smkvm.Core.Client.Plain.{
  with_log, plain-step, plain-run, lets_go_plain, all_typed_plain, has_plain,
}

module _ (J : Inject) (o : IsObedient J) where
  -- A key or a button of which a client's record agrees with the device at the start. Over every
  -- sequence of events: if the platform has not refused in it to let go of the item, and if, for a
  -- key, it repeats only while the record has it, then at the end the record has it just when the
  -- device holds it. The platform may refuse anything else.
  pub has-run :
      (i : Item) (es : List Event) (c : Client J)
      → has J i c.input ≡ holds J o i c.input.inner
      → all_typed J i es c ≡ true
      → refused J i false (run (logged J) es (with_log J c)).input.inner ≡ false
      → has J i (run J es c).input ≡ holds J o i (run J es c).input.inner
  has-run i es c m h r =
      let start = with_log J c in
      let end = run (logged J) es start in
      let same =
        (run-Agrees J o i es start (all_typed_plain J i es start ∙ h)).1 r
          (has_plain J i start.input ∙ m) in
      let end_too = plain-run J es start in
      ap (λ (c : Client J). has J i c.input) (sym end_too)
      ∙ sym (has_plain J i end.input)
      ∙ same
      ∙ ap (λ (c : Client J). holds J o i c.input.inner) end_too

  -- A key or a button of which a client's record agrees with the device at the start. After every
  -- sequence of events in which, for a key, it repeats only while the record has it: once the client
  -- is told to leave, to release all or goodbye, or loses the link, or is suspended for a new
  -- reason, the device does not hold it, if in all this the platform has not refused to let go of
  -- it. The platform may refuse anything else.
  pub holds-step :
      (i : Item) (es : List Event) (e : Event) (c : Client J)
      → has J i c.input ≡ holds J o i c.input.inner
      → all_typed J i es c ≡ true
      → lets_go J e (run J es c) ≡ true
      → refused J i false (step (logged J) e (run (logged J) es (with_log J c))).input.inner ≡ false
      → holds J o i (step J e (run J es c)).input.inner ≡ false
  holds-step i es e c m h g r =
      let start = with_log J c in
      let end = run (logged J) es start in
      let end_too = plain-run J es start in
      let free =
        holds-step-logged J o i es e start (has_plain J i start.input ∙ m)
          (all_typed_plain J i es start ∙ h) (lets_go_plain J e end ∙ ap (lets_go J e) end_too ∙ g)
          r in
      ap (λ (c : Client J). holds J o i c.input.inner)
        (sym (plain-step J e end ∙ ap (step J e) end_too))
      ∙ free
