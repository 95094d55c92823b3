-- ===== src/Cli/Plan.antt =====
-- crates/smkvm-cli/src/secure/plan.rs: which arrangement starts the daemon, and how one changes it.
use smkvm.Base.{Bool, true, false, not, ◌&&◌, ◌≡◌, refl, if◌then◌else◌, List, [], ◌∷◌, ◌++◌, String}
use smkvm.Base.Equality.{string_eq}
use smkvm.Base.Lists.{contains}

pub data Arrangement : Type 0 where
  by_task by_service : Arrangement

-- What is registered on this machine now.
pub record Present : Type 0 where
  pub task : Bool
  pub service : Bool

pub data Step : Type 0 where
  remove_task remove_service register_task register_service : Step

-- `if … { steps.push(…) }`
abbrev pub push_if : Bool → Step → List Step
push_if b s = if b then s ∷ [] else []

-- Getting from what is there to what was asked for.
unfoldable pub install : Arrangement → Present → List Step
install by_task p = push_if p.service remove_service ++ register_task ∷ []
install by_service p = push_if p.task remove_task ++ register_service ∷ []

-- Undoing whichever was installed.
unfoldable pub uninstall : Present → List Step
uninstall p = push_if p.task remove_task ++ push_if p.service remove_service

unfoldable pub nothing_was_registered : Present → Bool
nothing_was_registered p = not p.task && not p.service

-- The words of `is_a_daemon`.
abbrev pub daemons : List String
daemons = "run" ∷ "serve" ∷ "connect" ∷ "service-main" ∷ "desktop-worker" ∷ []

abbrev pub ends_by_itself : List String
ends_by_itself =
    "service" ∷ "status" ∷ "init" ∷ "pair" ∷ "devices" ∷ "forget" ∷ "monitors" ∷ "import" ∷ []

abbrev pub takes_a_value : List String
takes_a_value = "--config" ∷ "--log-file" ∷ []

-- The loop of `is_a_daemon` over the words that follow the program.
unfoldable pub is_daemon : Bool → List String → Bool
is_daemon skip [] = false
is_daemon true (w ∷ ws) = is_daemon false ws
is_daemon false (w ∷ ws) =
    let skipped = is_daemon true ws in
    let rest = is_daemon false ws in
    if contains takes_a_value w
    then skipped
    else if contains daemons w
    then true
    else if contains ends_by_itself w
    then false
    else rest

-- What a step does to what is registered.
unfoldable pub apply : Step → Present → Present
apply remove_task p = record p { task = false }
apply remove_service p = record p { service = false }
apply register_task p = record p { task = true }
apply register_service p = record p { service = true }

unfoldable pub apply_all : List Step → Present → Present
unfolding apply
apply_all [] p = p
apply_all (s ∷ ss) p = apply_all ss (apply s p)

-- The two are never there at once, before, between and after the steps.
abbrev pub NeverBoth : List Step → Present → Type 0
NeverBoth [] p = (p.task && p.service) ≡ false
NeverBoth (s ∷ ss) p = ((p.task && p.service) ≡ false) × NeverBoth ss (apply s p)

abbrev pub only : Arrangement → Present
only by_task = record { task = true; service = false }
only by_service = record { task = false; service = true }

abbrev Changes : Arrangement → Present → Type 0
Changes wanted p = NeverBoth (install wanted p) p × (apply_all (install wanted p) p ≡ only wanted)

install-Changes :
    (wanted : Arrangement) (t s : Bool)
    → (t && s) ≡ false
    → Changes wanted (record { task = t; service = s })
unfolding install apply apply_all
install-Changes wanted true true h = cc
install-Changes by_task true false h = ((refl, refl), refl)
install-Changes by_task false true h = ((refl, (refl, refl)), refl)
install-Changes by_task false false h = ((refl, refl), refl)
install-Changes by_service true false h = ((refl, (refl, refl)), refl)
install-Changes by_service false true h = ((refl, refl), refl)
install-Changes by_service false false h = ((refl, refl), refl)

-- Where the two are not both there, carrying out `install` step by step never has both there, so that
-- an interruption never leaves two daemons to start, and it ends with what was asked for alone.
pub install-NeverBoth :
    (wanted : Arrangement) (p : Present)
    → (p.task && p.service) ≡ false
    → NeverBoth (install wanted p) p × (apply_all (install wanted p) p ≡ only wanted)
install-NeverBoth wanted p h = install-Changes wanted p.task p.service h

uninstalled :
    (t s : Bool)
    → nothing_was_registered (
        apply_all (uninstall (record { task = t; service = s })) (record { task = t; service = s }))
      ≡ true
unfolding uninstall apply apply_all nothing_was_registered
uninstalled true true = refl
uninstalled true false = refl
uninstalled false true = refl
uninstalled false false = refl

-- Whatever is there, carrying out `uninstall` leaves nothing registered.
pub nothing_was_registered-uninstall :
    (p : Present) → nothing_was_registered (apply_all (uninstall p) p) ≡ true
nothing_was_registered-uninstall p = uninstalled p.task p.service
